-- ===== src/Registry/Grows.antt =====
-- What src/Registry.cpp knows is never replaced by a later declaration.
use xpcf.Base.{
  ℕ, ◌≡◌, refl, arith, String, true, false, not, ◌&&◌, List, [], ◌∷◌, Option, none, some, All,
  nat_eq_iff, nat_keys, inl, inr, Bool-cases, Option-cases,
}
use xpcf.Map
use xpcf.Map.{Map, map_contains, lookup-insert, lookup-insert_self}
use xpcf.Exec.{Result, ok, err, Exec, continue}
use xpcf.Alias.{AliasType, component_type, interface_type, alias_exists}
use xpcf.Registry.{
  InterfaceMetadata, ModuleMetadata, Registry, add_module_metadata, add_interface_metadata,
  auto_alias_of, note_interface, map_component, name_component, ComponentMetadata,
  declare_component_interface, declare_component_interfaces, declare_module_component,
  declare_module_components, declare_module_metadata,
}

-- Every entry of one map stands in the other.
pub record Within {V : Type 0} (m n : Map ℕ V) : Type 0 where
  pub at : (k : ℕ) (v : V) → Map.lookup m k ≡ some v → Map.lookup n k ≡ some v

pub record Knows (r s : Registry) : Type 0 where
  pub components_of : Within r.component_module_uuid_map s.component_module_uuid_map
  pub interfaces_of : Within r.interfaces_map s.interfaces_map
  pub modules_of : Within r.modules_map s.modules_map

module _ {V : Type 0} where
  Within-refl : (m : Map ℕ V) → Within m m
  Within-refl m = record { at = λ k v h. h }

  -- An entry that is made only where none is.
  Within-insert :
      (m : Map ℕ V) (k : ℕ) (v : V) → map_contains m k ≡ false → Within m (Map.insert m k v)
  Within-insert m k v new = record {
    at = λ j w h. ground (arith, lookup-insert m k j v, nat_eq_iff k j, new, h);
  }

pub Knows-refl : (r : Registry) → Knows r r
Knows-refl r = record {
  components_of = Within-refl _;
  interfaces_of = Within-refl _;
  modules_of = Within-refl _;
}

pub Knows-trans : {r s t : Registry} → Knows r s → Knows s t → Knows r t
Knows-trans p q = record {
  components_of = record { at = λ k v h. q.components_of.at k v (p.components_of.at k v h) };
  interfaces_of = record { at = λ k v h. q.interfaces_of.at k v (p.interfaces_of.at k v h) };
  modules_of = record { at = λ k v h. q.modules_of.at k v (p.modules_of.at k v h) };
}

pub add_module_metadata-Knows :
    (address : ℕ) (m : ModuleMetadata) (r : Registry) → Knows r (add_module_metadata address m r)
unfolding add_module_metadata
add_module_metadata-Knows address m r = elim (Bool-cases (map_contains r.modules_map m.uuid)) [
  | inl h ↦ rw (h, add_module_metadata) (Knows-refl r)
  | inr h ↦
      rw (h, add_module_metadata)
        (record {
          components_of = Within-refl _;
          interfaces_of = Within-refl _;
          modules_of = Within-insert r.modules_map m.uuid address h;
        })
]

pub add_interface_metadata-Knows :
    (info : InterfaceMetadata) (r : Registry) → Knows r (add_interface_metadata info r)
unfolding add_interface_metadata
add_interface_metadata-Knows info r = elim (Bool-cases (map_contains r.interfaces_map info.uuid)) [
  | inl h ↦ rw (h, add_interface_metadata) (Knows-refl r)
  | inr h ↦
      rw (h, add_interface_metadata)
        (record {
          components_of = Within-refl _;
          interfaces_of = Within-insert r.interfaces_map info.uuid info h;
          modules_of = Within-refl _;
        })
]

pub auto_alias_of-Knows :
    (type : AliasType) (name : String) (uuid : ℕ) (r : Registry)
    → Knows r (auto_alias_of type name uuid r)
unfolding auto_alias_of
auto_alias_of-Knows type name uuid r =
    elim (Bool-cases (r.auto_alias && not (alias_exists type name r.aliases))) [
      | inl h ↦
          rw (h, auto_alias_of)
            (record {
              components_of = Within-refl _;
              interfaces_of = Within-refl _;
              modules_of = Within-refl _;
            })
      | inr h ↦ rw (h, auto_alias_of) (Knows-refl r)
    ]

pub note_interface-Knows : (address u i : ℕ) (r : Registry) → Knows r (note_interface address u i r)
unfolding note_interface
note_interface-Knows address u i r = elim (Option-cases (Map.lookup r.objects address)) [
  | inl e ↦ rw (e, note_interface) (Knows-refl r)
  | inr (m, e) ↦
      rw (e, note_interface)
        (record {
          components_of = Within-refl _;
          interfaces_of = Within-refl _;
          modules_of = Within-refl _;
        })
]

pub map_component-Knows : (u m : ℕ) (r : Registry) → Knows r (map_component u m r)
unfolding map_component
map_component-Knows u m r = elim (Bool-cases (map_contains r.component_module_uuid_map u)) [
  | inl h ↦ rw (h, map_component) (Knows-refl r)
  | inr h ↦
      rw (h, map_component)
        (record {
          components_of = Within-insert r.component_module_uuid_map u m h;
          interfaces_of = Within-refl _;
          modules_of = Within-refl _;
        })
]

name_component-Knows :
    (o : Option ComponentMetadata) (u : ℕ) (r : Registry) → Knows r (name_component o u r)
unfolding name_component
name_component-Knows none u r = Knows-refl r
name_component-Knows (some info) u r = auto_alias_of-Knows component_type info.name u r

continue-Knows :
    (r : Registry) (p : Result (Unit {0}) × Registry) (k : Exec Registry (Unit {0}))
    → Knows r p.1
    → ((s : Registry) → Knows s (k s).1)
    → Knows r (continue p (λ _. k)).1
continue-Knows r (ok a, s) k h next = Knows-trans h (next s)
continue-Knows r (err e, s) k h next = h

module _ (introspect : ModuleMetadata → ℕ → Result (List InterfaceMetadata)) where
  declare_component_interface-Knows :
      (address u : ℕ) (info : InterfaceMetadata) (r : Registry)
      → Knows r (declare_component_interface introspect address u info r)
  unfolding declare_component_interface
  declare_component_interface-Knows address u info r =
      let bound : Registry = record r { autobinds = (info.uuid, u) ∷ r.autobinds } in
      let first : Knows r bound = record {
        components_of = Within-refl _;
        interfaces_of = Within-refl _;
        modules_of = Within-refl _;
      } in
      Knows-trans first (
        Knows-trans (auto_alias_of-Knows interface_type info.name info.uuid bound) (
          Knows-trans (note_interface-Knows address u info.uuid _)
            (add_interface_metadata-Knows info _)))

  declare_component_interfaces-Knows :
      (address u : ℕ) (infos : List InterfaceMetadata) (r : Registry)
      → Knows r (declare_component_interfaces introspect address u infos r)
  unfolding declare_component_interfaces
  declare_component_interfaces-Knows address u [] r = Knows-refl r
  declare_component_interfaces-Knows address u (info ∷ infos) r =
      Knows-trans (declare_component_interface-Knows address u info r)
        (declare_component_interfaces-Knows address u infos _)

  -- The registry knows the component's module from then on.
  declare_module_component-Knows :
      (address : ℕ) (m : ModuleMetadata) (u : ℕ) (r : Registry)
      → Knows (map_component u m.uuid r) (declare_module_component introspect address m u r).1
  unfolding declare_module_component
  declare_module_component-Knows address m u r =
      go (introspect m u)
        (name_component-Knows (Map.lookup m.module_component_map u) u (map_component u m.uuid r))
    where
      go :
          (q : Result (List InterfaceMetadata)) {named : Registry}
          → Knows (map_component u m.uuid r) named
          → let end : Result (Unit {0}) × Registry = elim q [
            | err e ↦ (err e, named)
            | ok infos ↦ (ok tt, declare_component_interfaces introspect address u infos named)
          ] in
            Knows (map_component u m.uuid r) end.1
      go (err e) h = h
      go (ok infos) h = Knows-trans h (declare_component_interfaces-Knows address u infos _)

  declare_module_components-Knows :
      (address : ℕ) (m : ModuleMetadata) (us : List ℕ) (r : Registry)
      → Knows r (declare_module_components introspect address m us r).1
  unfolding declare_module_components
  declare_module_components-Knows address m [] r = Knows-refl r
  declare_module_components-Knows address m (u ∷ us) r =
      continue-Knows r (declare_module_component introspect address m u r) _
        (Knows-trans (map_component-Knows u m.uuid r)
          (declare_module_component-Knows address m u r))
        (declare_module_components-Knows address m us)

  -- Whether `declareModuleMetadata` returns or throws, what the registry knew stays: the module of a
  -- component, the metadata of an interface and that of a module are those declared first.
  pub declare_module_metadata-Knows :
      (pointer : Option ℕ) (r : Registry) → Knows r (declare_module_metadata introspect pointer r).1
  unfolding declare_module_metadata
  declare_module_metadata-Knows none r = Knows-refl r
  declare_module_metadata-Knows (some address) r =
      elim (Option-cases (Map.lookup r.objects address)) [
        | inl e ↦ rw (e, declare_module_metadata) (Knows-refl r)
        | inr (m, e) ↦
            rw (e, declare_module_metadata)
              (Knows-trans (add_module_metadata-Knows address m r)
                (declare_module_components-Knows address m m.components _))
      ]

  -- A component that is mapped stays so.
  Within-contains :
      (m n : Map ℕ ℕ) (k : ℕ) → Within m n → map_contains m k ≡ true → map_contains n k ≡ true
  Within-contains m n k w h = elim (Option-cases (Map.lookup m k)) [
    | inl e ↦ cc (rw e at h)
    | inr (v, e) ↦ rw (w.at k v e) refl
  ]

  map_component_lem :
      (u m : ℕ) (r : Registry)
      → map_contains (map_component u m r).component_module_uuid_map u ≡ true
  unfolding map_component
  map_component_lem u m r = elim (Bool-cases (map_contains r.component_module_uuid_map u)) [
    | inl h ↦ rw (h, map_component) h
    | inr h ↦ rw (h, map_component) (rw (lookup-insert_self r.component_module_uuid_map u m) refl)
  ]

  components-mapped :
      (address : ℕ) (m : ModuleMetadata) (us : List ℕ) (r : Registry)
      → (declare_module_components introspect address m us r).0 ≡ ok tt
      → All
          (λ u.
            map_contains
              (declare_module_components introspect address m us r).1.component_module_uuid_map
              u
            ≡ true)
          us
  unfolding declare_module_components
  components-mapped address m [] r h = tt
  components-mapped address m (u ∷ us) r h =
      go (declare_module_component introspect address m u r)
        (Within-contains _ _ u (declare_module_component-Knows address m u r).components_of
          (map_component_lem u m.uuid r))
        (λ s. declare_module_components-Knows address m us s)
        (λ s. components-mapped address m us s) h
    where
      go :
          (p : Result (Unit {0}) × Registry)
          → map_contains p.1.component_module_uuid_map u ≡ true
          → ((s : Registry) → Knows s (declare_module_components introspect address m us s).1)
          → ((s : Registry)
              → (declare_module_components introspect address m us s).0 ≡ ok tt
              → All
                  (λ w.
                    map_contains
                      (declare_module_components introspect address m us
                        s).1.component_module_uuid_map
                      w
                    ≡ true)
                  us)
          → (continue p (λ _. declare_module_components introspect address m us)).0 ≡ ok tt
          → All
              (λ w.
                map_contains
                  (continue p (λ _.
                    declare_module_components introspect address m us)).1.component_module_uuid_map
                  w
                ≡ true)
              (u ∷ us)
      go (ok a, s) here knows rest h =
          (Within-contains _ _ u (knows s).components_of here, rest s h)
      go (err e, s) here knows rest h = cc h

  -- Where `declareModuleMetadata` returns, every component of the module has a module from then on.
  pub components-declare_module_metadata :
      (address : ℕ) (m : ModuleMetadata) (r : Registry)
      → Map.lookup r.objects address ≡ some m
      → (declare_module_metadata introspect (some address) r).0 ≡ ok tt
      → All
          (λ u.
            map_contains
              (declare_module_metadata introspect (some address) r).1.component_module_uuid_map
              u
            ≡ true)
          m.components
  unfolding declare_module_metadata
  components-declare_module_metadata address m r e h =
      rw (e, declare_module_metadata)
        (components-mapped address m m.components (add_module_metadata address m r)
          (rw (e, declare_module_metadata) at h))
