-- ===== src/Registry/Modules.antt =====
-- The components of a module's metadata, src/ModuleMetadata.cpp.
use xpcf.Base.{◌∙◌, ◌≡◌, refl, true, false, ==_self, nat_keys}
use xpcf.Map.{map_contains}
use xpcf.Collection.{contains}
use xpcf.Collection.Laws.{remove_lem}
use xpcf.Registry.{
  ComponentMetadata, ModuleMetadata, add_component, remove_component, get_component_metadata,
}

-- `removeComponent` takes a component of the module off the list of its uuids, but its metadata is
-- still found, and `addComponent` with metadata of that uuid does not put it back on the list.
pub remove_component_lem :
    (info : ComponentMetadata) (m : ModuleMetadata)
    → map_contains m.module_component_map info.uuid ≡ true
    → let removed = remove_component info.uuid m in
      (contains info.uuid removed.component_uuids ≡ false)
      × (get_component_metadata info.uuid removed ≡ get_component_metadata info.uuid m)
      × (add_component info removed ≡ removed)
unfolding remove_component get_component_metadata add_component
remove_component_lem info m h =
    let gone = (remove_lem info.uuid info.uuid m.component_uuids).1 in
    rw h (gone ∙ rw (==_self info.uuid) refl, refl, rw h refl)
