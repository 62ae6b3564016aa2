-- ===== src/Tests/Failures.antt =====
-- Runs of src/PropertyManager.cpp that fail, and the depth of a component.
use xpcf.Base.{
  Among, ℕ, ◌≡◌, ◌≢◌, refl, arith, none, some, [], ◌∷◌, string_keys, nat_keys, ◌<◌, nat_eq,
  if◌then◌else◌, inl, inr, pos, negsuc, subst, Bool-cases,
}
use xpcf.Map
use xpcf.Map.{Map}
use xpcf.Exec.{ok, err, configuration}
use xpcf.Alias.{alias_exists}
use xpcf.Property.{integer, structure, property_inout, structure_type}
use xpcf.Property.Numerals.{stoll, read_magnitude, skip_spaces}
use xpcf.Property.Store.{get}
use xpcf.Property.Maps.{at}
use xpcf.Manager.Configure.{configure, unnamed, configure_value}
use xpcf.Manager.Serialize.{serialize_map}
use xpcf.Manager.Errors.{Leaves, configure-Leaves}
use xpcf.Manager.Branches.{configure_value-integer, with_integer}
use xpcf.Manager.Ends.{Holds, Ends, serialize_map-Ends}
use xpcf.Tests.Dom.{Dom, platform, element, more, no_doms}
use xpcf.Tests.Manager.{before, no_aliases, old_file}

abbrev not_a_number : Dom
not_a_number = element "xpcf-configuration" [] none (
    more no_doms (
      element "properties" [] none (
        more no_doms (
          element "configure" (("component", "uuuuu") ∷ []) none (
            more no_doms (
              element "property" (("name", "size") ∷ ("type", "int") ∷ ("value", "ten") ∷ []) none
                no_doms))))))

configure-Leaves_example : Leaves configuration
unfolding configure alias_exists Map.lookup Map.insert Map.empty stoll at read_magnitude skip_spaces
configure-Leaves_example =
    configure-Leaves platform no_aliases (unnamed platform) 5 2 0 (some not_a_number) before refl

configure_value-integer_example : configure_value platform "12ab" 0 0 before ≡ (
  err configuration,
  with_integer 0
      (record { name = "size"; access = property_inout; value = integer (negsuc 41) })
      (pos 12)
      before,
)
unfolding stoll read_magnitude skip_spaces
configure_value-integer_example =
    configure_value-integer platform 0
      (record { name = "size"; access = property_inout; value = integer (negsuc 41) }) (negsuc 41)
      before "12ab" refl refl refl

-- The structure is deeper than the component.
abbrev rank : ℕ → ℕ
rank m = if nat_eq m 0 then 1 else 0

-- The only structure is 1, and 0 has it.
holds_one :
    (p i k : ℕ)
    → Among p (0 ∷ 1 ∷ 2 ∷ [])
    → get structure_type i (before.property p) ≡ ok (some (structure (some k)))
    → k ≡ 1
unfolding get
holds_one p i k (inl e) h =
    let no_structure : ok none ≡ ok (some (structure (some k))) =
      subst (λ q. get structure_type i (before.property q) ≡ ok (some (structure (some k)))) e h in
    cc
holds_one p i k (inr (inl e)) h =
    let no_structure : ok none ≡ ok (some (structure (some k))) =
      subst (λ q. get structure_type i (before.property q) ≡ ok (some (structure (some k)))) e h in
    cc
holds_one p i k (inr (inr (inl e))) h =
    let same : ok (some (structure (some 1))) ≡ ok (some (structure (some k))) =
      subst (λ q. get structure_type i (before.property q) ≡ ok (some (structure (some k)))) e h in
    cc
holds_one p i k (inr (inr (inr a))) h = absurd a

holds_nothing :
    (p i k : ℕ)
    → Among p (3 ∷ [])
    → get structure_type i (before.property p) ≢ ok (some (structure (some k)))
unfolding get
holds_nothing p i k (inl e) h =
    let no_structure : ok none ≡ ok (some (structure (some k))) =
      subst (λ q. get structure_type i (before.property q) ≡ ok (some (structure (some k)))) e h in
    cc
holds_nothing p i k (inr a) h = a

ranked : (m k : ℕ) → Holds platform before m k → rank k < rank m
ranked m k (p, i, a, h) = elim (Bool-cases (nat_eq m 0)) [
  | inl e ↦
      let listed : Among p (0 ∷ 1 ∷ 2 ∷ []) = rw e at a in
      rw (e, holds_one p i k listed h) (omega arith)
  | inr e ↦ let listed : Among p (3 ∷ []) = rw e at a in absurd (holds_nothing p i k listed h)
]

serialize_map-Ends_example : Ends (serialize_map platform before 2 0 old_file)
serialize_map-Ends_example =
    serialize_map-Ends platform before rank ranked 2 0 old_file (omega arith)
