-- ===== src/Tests/Libraries.antt =====
-- `loadLibrary` of src/Factory.cpp: a file with one module, and an alias for its component.
use xpcf.Base.{ℕ, [], ◌∷◌, some, none, true}
use xpcf.Map
use xpcf.Registry.Grows.{Knows}
use xpcf.Manager.Errors.{LeavesResult}
use xpcf.Library.{Library, load_library}
use xpcf.Library.Laws.{load_library-Knows}
use xpcf.Tests.Dom.{Dom, platform, element, more, no_doms, dom_name}
use xpcf.Tests.Modules.{module_5}
use xpcf.Tests.Registry.{registry}
use xpcf.Tests.Resolution.{bindings}

abbrev file : Dom
file = element "xpcf-registry" (("autoAlias", "true") ∷ []) none (
    more
      (more no_doms (
        element "aliases" [] none (
          more no_doms (
            element "alias" (("name", "A") ∷ ("type", "component") ∷ ("uuid", "uuuu") ∷ []) none
              no_doms))))
      module_5)

abbrev library : Library ℕ
library = record {
  registry = registry;
  properties = record { module_config_map = Map.empty; component_config_map = Map.empty };
  bindings = bindings;
  next = 200;
}

load_library-Knows_example :
    Knows library.registry
      (load_library platform.xml dom_name "a.xml" true true (some file) library).1.registry
    × LeavesResult (load_library platform.xml dom_name "a.xml" true true (some file) library).0
load_library-Knows_example =
    load_library-Knows platform.xml dom_name "a.xml" true true (some file) library
