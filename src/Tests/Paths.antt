-- ===== src/Tests/Paths.antt =====
-- src/PropertyManager.cpp: two files that configure the component 2 of the module 6.
use xpcf.Base.{◌≡◌, List, [], ◌∷◌, nat_keys, string_keys}
use xpcf.Map
use xpcf.Manager.Paths.{PropertyContext, get_config_path, clear}
use xpcf.Manager.Paths.Steps.{Declared, declare_all}
use xpcf.Manager.Paths.Laws.{get_config_path-declare_all}
use xpcf.Tests.Registry.{registry}

abbrev declarations : List Declared
declarations = (2, "a.xml") ∷ (2, "b.xml") ∷ (2, "a.xml") ∷ []

abbrev empty : PropertyContext
empty = record { module_config_map = Map.empty; component_config_map = Map.empty }

get_config_path-declare_all_example :
    get_config_path registry 2 (declare_all registry declarations (clear empty)) ≡ "b.xml"
unfolding Map.lookup Map.insert Map.empty
get_config_path-declare_all_example = get_config_path-declare_all registry declarations 2 empty
