-- ===== src/Tests/Modules.antt =====
-- The XML nodes of src/Registry.cpp: a module with one component, read once and read again.
use xpcf.Base.{◌≡◌, refl, [], ◌∷◌, some, none, inl, nat_keys, string_keys}
use xpcf.Map
use xpcf.Exec.{ok, process_xml_node}
use xpcf.Registry.{ComponentMetadata, Registry, find_component_metadata}
use xpcf.Registry.Nodes.{declare_module}
use xpcf.Registry.Nodes.Found.{find_component_metadata-declared}
use xpcf.Registry.Nodes.Again.{find_component_metadata-declare_module}
use xpcf.Tests.Registry.{registry, module_7}
use xpcf.Tests.Dom.{Dom, platform, element, more, no_doms}

abbrev interface_9 : Dom
interface_9 =
    element "interface" (("uuid", "uuuuuuuuu") ∷ ("name", "I") ∷ ("description", "i") ∷ []) none
      no_doms

abbrev component_4 : Dom
component_4 =
    element "component" (("uuid", "uuuu") ∷ ("name", "D") ∷ ("description", "d") ∷ []) none
      (more no_doms interface_9)

abbrev pub module_5 : Dom
module_5 = element "module" (("uuid", "uuuuu") ∷ ("name", "M") ∷ []) none (more no_doms component_4)

find_component_metadata-declared_example :
    (info : ComponentMetadata) × (find_component_metadata 4
        (declare_module platform.xml 200 module_5 registry).1
      ≡ ok (some info))
unfolding declare_module Map.lookup Map.insert Map.empty process_xml_node
find_component_metadata-declared_example =
    find_component_metadata-declared platform.xml 200 5 4 module_5 component_4 registry refl refl
      refl (inl refl) refl refl

-- The uuid of the node is that of a module at the address 100.
abbrev with_module_5 : Registry
with_module_5 = record registry { modules_map = Map.insert Map.empty 5 100 }

find_component_metadata-declare_module_example :
    let t = (declare_module platform.xml 200 module_5 with_module_5).1 in
    (t.modules_map ≡ with_module_5.modules_map)
    × (Map.lookup t.objects 100 ≡ some module_7)
    × (Map.lookup t.component_module_uuid_map 4 ≡ some 5 → find_component_metadata 4 t ≡ ok none)
unfolding Map.lookup Map.insert Map.empty
find_component_metadata-declare_module_example =
    find_component_metadata-declare_module platform.xml 200 100 5 4 module_5 with_module_5 module_7
      refl refl refl refl refl
