-- ===== src/Map.antt =====
-- std::map, of which the modelled code only looks keys up, writes and erases them; the order of
-- the entries is never read. `mapContains` is that of interfaces/xpcf/core/helpers.h.
use xpcf.Base.{
  Bool, true, false, Key, ◌==◌, ==_self, ◌≡◌, refl, Option, none, some, List, [], ◌∷◌,
  if◌then◌else◌, arith,
}

pub record Map {ℓ κ} (K : Type ℓ) (V : Type κ) : Type (ℓ ⊔ κ) where
  entries : List (K × V)

abbrev pub is_some {ℓ} : {V : Type ℓ} → Option V → Bool
is_some none = false
is_some (some _) = true

module _ {ℓ κ} {K : Type ℓ} {V : Type κ} where
  unfoldable pub empty : Map K V
  empty = record { entries = [] }

module _ {ℓ κ} {K : Type ℓ} {V : Type κ} ⦃e : Key K⦄ where
  lookup_in : K → List (K × V) → Option V
  lookup_in k [] = none
  lookup_in k ((j, v) ∷ l) = if j == k then some v else lookup_in k l

  abbrev unless : Bool → K × V → List (K × V) → List (K × V)
  unless true entry rest = rest
  unless false entry rest = entry ∷ rest

  without : K → List (K × V) → List (K × V)
  without k [] = []
  without k (entry ∷ l) = unless (entry.0 == k) entry (without k l)

  -- `find`, and `at` where the key is there
  unfoldable pub lookup : Map K V → K → Option V
  unfolding lookup_in
  lookup m k = lookup_in k m.entries

  -- `m[k] = v`
  unfoldable pub insert : Map K V → K → V → Map K V
  unfolding without
  insert m k v = record { entries = (k, v) ∷ without k m.entries }

  unfoldable pub erase : Map K V → K → Map K V
  unfolding without
  erase m k = record { entries = without k m.entries }

  abbrev pub map_contains : Map K V → K → Bool
  map_contains m k = is_some (lookup m k)

  lookup_in-without :
      (k j : K) (l : List (K × V))
      → lookup_in j (without k l) ≡ (if k == j then none else lookup_in j l)
  unfolding lookup_in without
  lookup_in-without k j [] = ground arith
  lookup_in-without k j ((i, v) ∷ l) =
      ground (
        arith,
        lookup_in-without k j l,
        e.equal_iff i k,
        e.equal_iff i j,
        e.equal_iff k j,
        ==_self i,
      )

  pub lookup-erase :
      (m : Map K V) (k j : K) → lookup (erase m k) j ≡ (if k == j then none else lookup m j)
  unfolding lookup erase
  lookup-erase m k j = lookup_in-without k j m.entries

  pub lookup-insert :
      (m : Map K V) (k j : K) (v : V)
      → lookup (insert m k v) j ≡ (if k == j then some v else lookup m j)
  unfolding lookup insert lookup_in
  lookup-insert m k j v = ground (arith, lookup_in-without k j m.entries)

  pub lookup-insert_self : (m : Map K V) (k : K) (v : V) → lookup (insert m k v) k ≡ some v
  lookup-insert_self m k v = ground (arith, lookup-insert m k k v, ==_self k)

  pub lookup-empty : (k : K) → lookup (empty {K = K} {V = V}) k ≡ none
  unfolding lookup empty lookup_in
  lookup-empty k = refl

pub ruleset map_laws = (lookup-insert, lookup-erase, lookup-empty)
