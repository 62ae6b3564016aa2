-- ===== src/Property/Maps/Laws.antt =====
-- What a map of properties of src/PropertyMap.cpp keeps, and what `setProperty` copies.
use xpcf.Base.{
  ℕ, true, false, ◌≡◌, refl, sym, none, some, [], ◌∷◌, ◌++◌, inl, inr, ◌==◌, string_keys, nat_keys,
  nat_eq, ==_self, if◌then◌else◌, Bool-cases, subst, Among, Among-snoc, Among-last, Option-cases,
}
use xpcf.Map
use xpcf.Map.{lookup-insert, map_contains}
use xpcf.Exec.{ok}
use xpcf.Property.{ErrorCode, success, type_of, same_type, same_type_self}
use xpcf.Property.Wrapper.{Wrapper}
use xpcf.Property.Variant.{denies_writing}
use xpcf.Property.Store.{Object, wrapper, Store, get_name, put, copy_to, not_copied}
use xpcf.Property.Maps.{add_property, at, set_property, set_property_to}

module _ {F D : Type 0} where
  -- Each property that is listed is found by its name.
  pub record IsIndexed (s : Store F D) (m : ℕ) : Type 0 where
    pub finds : (p : ℕ) → Among p (s.node m).collection → at m (get_name (s.property p)) s ≡ some p

  added-IsIndexed :
      (m p : ℕ) (s : Store F D)
      → IsIndexed s m
      → Map.lookup (s.node m).property_map (get_name (s.property p)) ≡ none
      → (q : ℕ) → Among q ((s.node m).collection ++ (p ∷ []))
      → Map.lookup
          (Map.insert (s.node m).property_map (get_name (s.property p)) p)
          (get_name (s.property q))
        ≡ some q
  unfolding at
  added-IsIndexed m p s h new q a =
      let name = get_name (s.property p) in
      let other = get_name (s.property q) in
      let look = lookup-insert (s.node m).property_map name other p in
      elim (Among-snoc q (s.node m).collection p a) [
        | inr e ↦
            let same : q ≡ p = e in
            subst
              (λ r.
                Map.lookup (Map.insert (s.node m).property_map name p) (get_name (s.property r))
                ≡ some r)
              (sym e) (rw (lookup-insert (s.node m).property_map name name p, ==_self name) refl)
        | inl old ↦ elim (Bool-cases (name == other)) [
          | inr e ↦ rw (look, e) (h.finds q old)
          | inl e ↦
              let there = h.finds q old in
              let gone : Map.lookup (s.node m).property_map other ≡ none =
                subst (λ n. Map.lookup (s.node m).property_map n ≡ none)
                  ((string_keys.equal_iff name other).0 e) new in
              cc (there, gone)
        ]
      ]

  -- `addProperty` keeps a map in order: each of its properties, the new one included if the call
  -- succeeds, is found by its name. It fails exactly where a property of that name is there.
  pub add_property-IsIndexed :
      (m p : ℕ) (s : Store F D)
      → IsIndexed s m
      → let (r, t) = add_property m p s in
        IsIndexed t m
        × (r ≡ (
            if map_contains (s.node m).property_map (get_name (s.property p))
            then ok ErrorCode.fail
            else ok success))
        × ((r ≡ ok success) → Among p (t.node m).collection)
  unfolding add_property at
  add_property-IsIndexed m p s h =
      elim (Option-cases (Map.lookup (s.node m).property_map (get_name (s.property p)))) [
        | inr (q, e) ↦ rw (e, add_property) (h, refl, λ x. cc x)
        | inl e ↦
            rw (e, add_property)
              (
                record {
                  finds = λ q a. rw (==_self m) (added-IsIndexed m p s h e q (rw (==_self m) at a));
                },
                refl,
                λ x. rw (==_self m) (Among-last (s.node m).collection p),
              )
      ]

module _ {F D : Type 0} (m p tmp : ℕ) (s : Store F D) (w v : Wrapper F D) where
  abbrev renamed : Object F D
  renamed = wrapper (record { name = w.name; access = w.access; value = v.value })

  copy_to-uncopied :
      s.property p ≡ wrapper w
      → s.property tmp ≡ wrapper v
      → nat_eq tmp p ≡ false
      → not_copied (type_of w.value) ≡ true
      → (w.name == "") ≡ false
      → copy_to p tmp s ≡ (ok ErrorCode.fail, put tmp renamed s)
  unfolding copy_to
  copy_to-uncopied hp ht ne u filled = rw (hp, ht, filled, ne, hp, u) refl

  -- The properties of a variable that `setProperty` reports as set and does not set: where the type is
  -- `int64_t`, `uint64_t` or double, the property takes the name and the access of the argument, and
  -- keeps its value.
  pub set_property-uncopied :
      s.property p ≡ wrapper w
      → at m w.name s ≡ some tmp
      → s.property tmp ≡ wrapper v
      → nat_eq tmp p ≡ false
      → denies_writing v.access ≡ false
      → type_of v.value ≡ type_of w.value
      → not_copied (type_of w.value) ≡ true
      → (w.name == "") ≡ false
      → set_property m (some p) s ≡ (ok success, put tmp renamed s)
  unfolding set_property set_property_to
  set_property-uncopied hp found ht ne writable t u filled =
      let copy = copy_to-uncopied hp ht ne u filled in
      let alike : same_type (type_of w.value) (type_of w.value) ≡ true =
        same_type_self (type_of w.value) in
      rw (hp, found, set_property) (rw (ht, writable, hp, t, alike, copy) refl)
