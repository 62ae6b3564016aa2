-- ===== src/Registry/Nodes/Lists.antt =====
-- The invariant of a module whose components the XML of src/Registry.cpp declares.
use xpcf.Base.{
  ℕ, String, true, false, ◌≡◌, refl, none, some, nat_keys, nat_eq, nat_eq_iff, Bool-cases,
  Option-cases, inl, inr, not, ◌&&◌, subst,
}
use xpcf.Map
use xpcf.Map.{map_contains, lookup-insert, lookup-insert_self}
use xpcf.Alias.{AliasType, alias_exists}
use xpcf.Registry.{
  InterfaceMetadata, ComponentMetadata, ModuleMetadata, Registry, add_interface_metadata,
  auto_alias_of, note_interface, map_component, add_component, add_interface,
}
use xpcf.Registry.Nodes.{note_component}
use xpcf.Registry.Nodes.Keeps.{InterfaceSteps}

abbrev pub Has : ModuleMetadata → ℕ → Type 0
Has m c = map_contains m.module_component_map c ≡ true

insert-Has :
    {V : Type 0} (m : Map.Map ℕ V) (k c : ℕ) (v : V)
    → map_contains m c ≡ true
    → map_contains (Map.insert m k v) c ≡ true
insert-Has m k c v h = elim (Bool-cases (nat_eq k c)) [
  | inl e ↦ rw (map_contains, lookup-insert m k c v, e) refl
  | inr e ↦ rw (map_contains, lookup-insert m k c v, e) h
]

add_component-Has :
    (info : ComponentMetadata) (m : ModuleMetadata) (c : ℕ) → Has m c → Has (add_component info m) c
unfolding add_component
add_component-Has info m c h = elim (Bool-cases (map_contains m.module_component_map info.uuid)) [
  | inl e ↦ rw (e, add_component) h
  | inr e ↦ rw (e, add_component) (insert-Has m.module_component_map info.uuid c info h)
]

add_component-Has_new :
    (info : ComponentMetadata) (m : ModuleMetadata) → Has (add_component info m) info.uuid
unfolding add_component
add_component-Has_new info m = elim (Bool-cases (map_contains m.module_component_map info.uuid)) [
  | inl e ↦ rw (e, add_component) e
  | inr e ↦
      rw (e, add_component)
        (rw (map_contains, lookup-insert_self m.module_component_map info.uuid info) refl)
]

add_interface-Has : (u i : ℕ) (m : ModuleMetadata) (c : ℕ) → Has m c → Has (add_interface u i m) c
unfolding add_interface
add_interface-Has u i m c h = elim (Option-cases (Map.lookup m.module_component_map u)) [
  | inl e ↦ rw (e, add_interface) h
  | inr (info, e) ↦ rw (e, add_interface) (insert-Has m.module_component_map u c _ h)
]

-- The module `u` stands at the address, and has every component that was given to it since `r`.
pub record Lists (address u : ℕ) (r s : Registry) : Type 0 where
  pub object : ModuleMetadata
  pub known : Map.lookup s.modules_map u ≡ some address
  pub there : Map.lookup s.objects address ≡ some object
  pub lists :
      (c v : ℕ)
      → Map.lookup r.component_module_uuid_map c ≡ none
      → Map.lookup s.component_module_uuid_map c ≡ some v
      → (v ≡ u) × Has object c

module _ (address u : ℕ) (r : Registry) where
  Lists-other :
      (s t : Registry)
      → t.modules_map ≡ s.modules_map
      → t.objects ≡ s.objects
      → t.component_module_uuid_map ≡ s.component_module_uuid_map
      → Lists address u r s
      → Lists address u r t
  Lists-other s t e f g h = record {
    object = h.object;
    known = rw e h.known;
    there = rw f h.there;
    lists = λ c v new given. h.lists c v new (rw g at given);
  }

  pub note_interface-Lists :
      (c i : ℕ) (s : Registry)
      → Lists address u r s
      → Lists address u r (note_interface address c i s)
  unfolding note_interface
  note_interface-Lists c i s h =
      rw (h.there, note_interface)
        (record {
          object = add_interface c i h.object;
          known = h.known;
          there = lookup-insert_self s.objects address (add_interface c i h.object);
          lists = λ d v new given.
              let (is, has) = h.lists d v new given in (is, add_interface-Has c i h.object d has);
        })

  auto_alias_of-Lists :
      (type : AliasType) (name : String) (c : ℕ) (s : Registry)
      → Lists address u r s
      → Lists address u r (auto_alias_of type name c s)
  unfolding auto_alias_of
  auto_alias_of-Lists type name c s h =
      elim (Bool-cases (s.auto_alias && not (alias_exists type name s.aliases))) [
        | inl e ↦ rw (e, auto_alias_of) (Lists-other s _ refl refl refl h)
        | inr e ↦ rw (e, auto_alias_of) h
      ]

  add_interface_metadata-Lists :
      (info : InterfaceMetadata) (s : Registry)
      → Lists address u r s
      → Lists address u r (add_interface_metadata info s)
  unfolding add_interface_metadata
  add_interface_metadata-Lists info s h =
      elim (Bool-cases (map_contains s.interfaces_map info.uuid)) [
        | inl e ↦ rw (e, add_interface_metadata) h
        | inr e ↦ rw (e, add_interface_metadata) (Lists-other s _ refl refl refl h)
      ]

  pub interface_steps : InterfaceSteps address (λ s t. Lists address u r s → Lists address u r t)
  interface_steps = record {
    same = λ s h. h;
    then_ = λ s t v f g h. g (f h);
    notes = note_interface-Lists;
    binds = λ b s h. Lists-other s _ refl refl refl h;
    names = auto_alias_of-Lists;
    adds = add_interface_metadata-Lists;
  }

  -- A component that has no module is given to this one.
  abbrev given_to : ℕ → Registry → Registry
  given_to c s = record s { component_module_uuid_map = Map.insert s.component_module_uuid_map c u }

  -- As `Lists`, but for one component.
  pub record AllBut (c : ℕ) (s : Registry) : Type 0 where
    object : ModuleMetadata
    known : Map.lookup s.modules_map u ≡ some address
    there : Map.lookup s.objects address ≡ some object
    mine : Map.lookup s.component_module_uuid_map c ≡ some u
    others :
        (d v : ℕ)
        → nat_eq c d ≡ false
        → Map.lookup r.component_module_uuid_map d ≡ none
        → Map.lookup s.component_module_uuid_map d ≡ some v
        → (v ≡ u) × Has object d

  pub map_component-AllBut :
      (c : ℕ) (s : Registry)
      → map_contains s.component_module_uuid_map c ≡ false
      → Lists address u r s
      → AllBut c (map_component c u s)
  unfolding map_component
  map_component-AllBut c s new h =
      rw (new, map_component)
        (record {
          object = h.object;
          known = h.known;
          there = h.there;
          mine = lookup-insert_self s.component_module_uuid_map c u;
          others = λ d v other none_ given.
              h.lists d v none_
                (rw (lookup-insert s.component_module_uuid_map c d u, other) at given);
        })

  pub auto_alias_of-AllBut :
      (type : AliasType) (name : String) (b c : ℕ) (s : Registry)
      → AllBut c s
      → AllBut c (auto_alias_of type name b s)
  unfolding auto_alias_of
  auto_alias_of-AllBut type name b c s h =
      elim (Bool-cases (s.auto_alias && not (alias_exists type name s.aliases))) [
        | inl e ↦
            rw (e, auto_alias_of)
              (record {
                object = h.object;
                known = h.known;
                there = h.there;
                mine = h.mine;
                others = h.others;
              })
        | inr e ↦ rw (e, auto_alias_of) h
      ]

  pub note_component-Lists :
      (info : ComponentMetadata) (s : Registry)
      → AllBut info.uuid s
      → Lists address u r (note_component address info s)
  unfolding note_component
  note_component-Lists info s h =
      rw (h.there, note_component)
        (record {
          object = add_component info h.object;
          known = h.known;
          there = lookup-insert_self s.objects address (add_component info h.object);
          lists = λ d v new given. elim (Bool-cases (nat_eq info.uuid d)) [
            | inr e ↦
                let (is, has) = h.others d v e new given in
                (is, add_component-Has info h.object d has)
            | inl e ↦
                let same : info.uuid ≡ d = (nat_eq_iff info.uuid d).0 e in
                let mine : Map.lookup s.component_module_uuid_map d ≡ some u =
                  subst (λ k. Map.lookup s.component_module_uuid_map k ≡ some u) same h.mine in
                (
                  cc (mine, given),
                  subst (Has (add_component info h.object)) same
                      (add_component-Has_new info h.object),
                )
          ];
        })
