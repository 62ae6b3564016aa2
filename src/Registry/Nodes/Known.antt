-- ===== src/Registry/Nodes/Known.antt =====
-- What the XML of src/Registry.cpp declares is never replaced.
use xpcf.Base.{ℕ, ◌≡◌, refl, nat_keys, Option-cases, inl, inr, ◌∷◌}
use xpcf.Map
use xpcf.Exec.{Result, ok, err, rethrow}
use xpcf.Xml.{Xml}
use xpcf.Registry.{ComponentMetadata, Registry, add_module_metadata}
use xpcf.Registry.Grows.{
  Knows, Knows-refl, Knows-trans, add_module_metadata-Knows, add_interface_metadata-Knows,
  auto_alias_of-Knows, note_interface-Knows, map_component-Knows,
}
use xpcf.Registry.Nodes.{note_component, new_module, uuid_of, declare_module_of, declare_module}
use xpcf.Registry.Nodes.Keeps.{ComponentSteps, components-keep}
use xpcf.Registry.Nodes.Loops.{rethrow-state}

pub Knows-other :
    (r s : Registry)
    → s.component_module_uuid_map ≡ r.component_module_uuid_map
    → s.interfaces_map ≡ r.interfaces_map
    → s.modules_map ≡ r.modules_map
    → Knows r s
Knows-other r s e f g = record {
  components_of = record { at = λ k v h. rw e h };
  interfaces_of = record { at = λ k v h. rw f h };
  modules_of = record { at = λ k v h. rw g h };
}

note_component-Knows :
    (address : ℕ) (info : ComponentMetadata) (r : Registry)
    → Knows r (note_component address info r)
unfolding note_component
note_component-Knows address info r = elim (Option-cases (Map.lookup r.objects address)) [
  | inl e ↦ rw (e, note_component) (Knows-refl r)
  | inr (m, e) ↦ rw (e, note_component) (Knows-other r _ refl refl refl)
]

pub steps : (address : ℕ) → ComponentSteps address Knows
steps address = record {
  interfaces = record {
    same = Knows-refl;
    then_ = λ r s t. Knows-trans;
    notes = note_interface-Knows address;
    binds = λ b r. Knows-other r (record r { autobinds = b ∷ r.autobinds }) refl refl refl;
    names = auto_alias_of-Knows;
    adds = add_interface_metadata-Knows;
  };
  maps = map_component-Knows;
  lists = note_component-Knows address;
}

module _ (X : Xml) (address : ℕ) where
  open X use {Element, children}

  module_of-Knows :
      (elt : Element) (u : ℕ) (r : Registry) → Knows r (declare_module_of X address elt u r).1
  unfolding declare_module_of
  module_of-Knows elt u r =
      let made : Registry = record r { objects = Map.insert r.objects address (new_module u) } in
      let added = add_module_metadata address (new_module u) made in
      Knows-trans (Knows-other r made refl refl refl) (
        Knows-trans (add_module_metadata-Knows address (new_module u) made)
          (components-keep X address Knows (steps address) u (children elt "component") added))

  -- However a <module> node is read, and even where the call throws: no component changes its module, and
  -- no interface or module that was known is replaced.
  pub declare_module-Knows :
      (elt : Element) (r : Registry) → Knows r (declare_module X address elt r).1
  unfolding declare_module
  declare_module-Knows elt r = go (uuid_of X elt)
    where
      go :
          (o : Result ℕ)
          → Knows r
              (rethrow {A = Unit {0}}
                (elim o [ err e ↦ (err e, r) | ok u ↦ declare_module_of X address elt u r ])).1
      go (err e) = Knows-refl r
      go (ok u) = rw (rethrow-state (declare_module_of X address elt u r)) (module_of-Knows elt u r)
