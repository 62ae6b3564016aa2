-- ===== src/Registry/Nodes/Again.antt =====
-- A module that is declared a second time in the XML of src/Registry.cpp.
use xpcf.Base.{
  ℕ, String, true, false, ◌≡◌, refl, ◌∙◌, none, some, nat_keys, nat_eq, Bool-cases, Option-cases,
  inl, inr, not, ◌&&◌,
}
use xpcf.Map
use xpcf.Map.{map_contains, lookup-insert}
use xpcf.Exec.{ok}
use xpcf.Xml.{Xml}
use xpcf.Alias.{AliasType, alias_exists}
use xpcf.Registry.{
  InterfaceMetadata, ComponentMetadata, ModuleMetadata, Registry, add_module_metadata,
  add_interface_metadata, auto_alias_of, note_interface, map_component, find_component_metadata,
}
use xpcf.Registry.Nodes.Keeps.{ComponentSteps, components-keep}
use xpcf.Registry.Nodes.Loops.{rethrow-state}
use xpcf.Registry.Nodes.{note_component, new_module, uuid_of, declare_module_of, declare_module}

-- The modules are the same ones, and so is the object at an address.
pub record Beside (a : ℕ) (r t : Registry) : Type 0 where
  pub modules_same : t.modules_map ≡ r.modules_map
  pub object_same : Map.lookup t.objects a ≡ Map.lookup r.objects a

Beside-refl : (a : ℕ) (r : Registry) → Beside a r r
Beside-refl a r = record { modules_same = refl; object_same = refl }

Beside-trans : (a : ℕ) (r s t : Registry) → Beside a r s → Beside a s t → Beside a r t
Beside-trans a r s t p q = record {
  modules_same = q.modules_same ∙ p.modules_same;
  object_same = q.object_same ∙ p.object_same;
}

module _ (a address : ℕ) (apart : nat_eq address a ≡ false) where
  written-Beside :
      (m : ModuleMetadata) (r : Registry)
      → Beside a r (record r { objects = Map.insert r.objects address m })
  written-Beside m r = record {
    modules_same = refl;
    object_same = rw (lookup-insert r.objects address a m, apart) refl;
  }

  note_interface-Beside : (u i : ℕ) (r : Registry) → Beside a r (note_interface address u i r)
  unfolding note_interface
  note_interface-Beside u i r = elim (Option-cases (Map.lookup r.objects address)) [
    | inl e ↦ rw (e, note_interface) (Beside-refl a r)
    | inr (m, e) ↦ rw (e, note_interface) (written-Beside _ r)
  ]

  note_component-Beside :
      (info : ComponentMetadata) (r : Registry) → Beside a r (note_component address info r)
  unfolding note_component
  note_component-Beside info r = elim (Option-cases (Map.lookup r.objects address)) [
    | inl e ↦ rw (e, note_component) (Beside-refl a r)
    | inr (m, e) ↦ rw (e, note_component) (written-Beside _ r)
  ]

  auto_alias_of-Beside :
      (type : AliasType) (name : String) (u : ℕ) (r : Registry)
      → Beside a r (auto_alias_of type name u r)
  unfolding auto_alias_of
  auto_alias_of-Beside type name u r =
      elim (Bool-cases (r.auto_alias && not (alias_exists type name r.aliases))) [
        | inl h ↦ rw (h, auto_alias_of) (record { modules_same = refl; object_same = refl })
        | inr h ↦ rw (h, auto_alias_of) (Beside-refl a r)
      ]

  add_interface_metadata-Beside :
      (info : InterfaceMetadata) (r : Registry) → Beside a r (add_interface_metadata info r)
  unfolding add_interface_metadata
  add_interface_metadata-Beside info r =
      elim (Bool-cases (map_contains r.interfaces_map info.uuid)) [
        | inl h ↦ rw (h, add_interface_metadata) (Beside-refl a r)
        | inr h ↦
            rw (h, add_interface_metadata) (record { modules_same = refl; object_same = refl })
      ]

  map_component-Beside : (u m : ℕ) (r : Registry) → Beside a r (map_component u m r)
  unfolding map_component
  map_component-Beside u m r = elim (Bool-cases (map_contains r.component_module_uuid_map u)) [
    | inl h ↦ rw (h, map_component) (Beside-refl a r)
    | inr h ↦ rw (h, map_component) (record { modules_same = refl; object_same = refl })
  ]

  steps : ComponentSteps address (Beside a)
  steps = record {
    interfaces = record {
      same = Beside-refl a;
      then_ = Beside-trans a;
      notes = note_interface-Beside;
      binds = λ b r. record { modules_same = refl; object_same = refl };
      names = auto_alias_of-Beside;
      adds = add_interface_metadata-Beside;
    };
    maps = map_component-Beside;
    lists = note_component-Beside;
  }

  module _ (X : Xml) where
    open X use {Element, attribute, children, to_uuid}

    -- The module is known at another address.
    module_of-Beside :
        (elt : Element) (u : ℕ) (r : Registry)
        → Map.lookup r.modules_map u ≡ some a
        → Beside a r (declare_module_of X address elt u r).1
    unfolding declare_module_of add_module_metadata
    module_of-Beside elt u r known =
        let made : Registry = record r { objects = Map.insert r.objects address (new_module u) } in
        let there : map_contains r.modules_map u ≡ true = rw (known, map_contains) refl in
        rw there (
          Beside-trans a r made _ (written-Beside (new_module u) r)
            (components-keep X address (Beside a) steps u (children elt "component") made))

find_component_metadata-none :
    (c u a : ℕ) (t : Registry) (m : ModuleMetadata)
    → Map.lookup t.component_module_uuid_map c ≡ some u
    → Map.lookup t.modules_map u ≡ some a
    → Map.lookup t.objects a ≡ some m
    → Map.lookup m.module_component_map c ≡ none
    → find_component_metadata c t ≡ ok none
unfolding find_component_metadata
find_component_metadata-none c u a t m given known object missing =
    rw (given, find_component_metadata) (rw (known, object, missing) refl)

-- Where a module with the uuid of a <module> node is known, the node changes neither the modules that
-- are known nor what that module holds, however the call ends: a component that the node gives to the
-- module, and that the module does not have, is looked up as a null pointer.
pub find_component_metadata-declare_module :
    (X : Xml) (address a u c : ℕ) (elt : X.Element) (r : Registry) (m : ModuleMetadata)
    → uuid_of X elt ≡ ok u
    → Map.lookup r.modules_map u ≡ some a
    → Map.lookup r.objects a ≡ some m
    → nat_eq address a ≡ false
    → Map.lookup m.module_component_map c ≡ none
    → let t = (declare_module X address elt r).1 in
      (t.modules_map ≡ r.modules_map)
      × (Map.lookup t.objects a ≡ some m)
      × (Map.lookup t.component_module_uuid_map c ≡ some u → find_component_metadata c t ≡ ok none)
unfolding declare_module
find_component_metadata-declare_module X address a u c elt r m is known object apart missing =
    let state : (declare_module X address elt r).1 ≡ (declare_module_of X address elt u r).1 =
      rw (is, declare_module) (rethrow-state (declare_module_of X address elt u r)) in
    let beside = module_of-Beside a address apart X elt u r known in
    rw state (
      beside.modules_same,
      beside.object_same ∙ object,
      λ given.
          find_component_metadata-none c u a (declare_module_of X address elt u r).1 m given
            (rw beside.modules_same known) (beside.object_same ∙ object) missing,
    )
