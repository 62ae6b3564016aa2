-- ===== src/Tests/Manager.antt =====
-- Runs of src/PropertyManager.cpp on a component with a number, a vector of texts and a structure.
use xpcf.Base.{
  Among, ℕ, Option, String, ◌≡◌, refl, sym, arith, none, some, List, [], ◌∷◌, string_keys, nat_keys,
  nat_eq, if◌then◌else◌, ◌⊎◌, inl, inr, ℤ, pos, negsuc, subst, Bool-cases,
}
use xpcf.Map
use xpcf.Map.{Map}
use xpcf.Exec.{Result, ok, err}
use xpcf.Alias.{AliasContext, alias_exists}
use xpcf.Property.{
  Value, integer, ulong, charstr, structure, property_inout, charstr_type, success, ErrorCode,
}
use xpcf.Property.Numerals.{to_string_ℕ, to_string_ℤ, digits}
use xpcf.Property.Store.{get, Object, wrapper, sequence, Store}
use xpcf.Property.Maps.{at}
use xpcf.Manager.Configure.{configure, unnamed}
use xpcf.Manager.Serialize.{serialize_document, serialize_file}
use xpcf.Manager.RoundTrip.Shape.{SameShape, Towards}
use xpcf.Manager.RoundTrip.Below.{Below, here, down, IsWritable, AllWritable, structure_of}
use xpcf.Manager.RoundTrip.Whole.{configure-serialize_document}
use xpcf.Manager.Again.{configure-serialize_again}
use xpcf.Tests.Dom.{Dom, platform, laws, element, more, no_doms}

abbrev Obj : Type 0
Obj = Object (Unit {0}) (Unit {0})

abbrev pub object : String → Value (Unit {0}) (Unit {0}) → Obj
object n v = wrapper (record { name = n; access = property_inout; value = v })

abbrev texts : List String → List (Value (Unit {0}) (Unit {0}))
texts [] = []
texts (s ∷ ss) = charstr s ∷ texts ss

abbrev pub vector : String → List String → Obj
vector n ss =
    sequence (charstr "")
      (record { name = n; access = property_inout; type = charstr_type; values = texts ss })

-- The root 0 has the properties 0, 1 and 2; the structure 1 has the property 3.
abbrev component : ℤ → List String → ℕ → Store (Unit {0}) (Unit {0})
component z ss n = record {
  property = λ p.
      if nat_eq p 0
      then object "size" (integer z)
      else if nat_eq p 1
      then vector "names" ss
      else if nat_eq p 2
      then object "limits" (structure (some 1))
      else object "most" (ulong n);
  node = λ m.
      if nat_eq m 0
      then record {
        property_map = Map.insert (Map.insert (Map.insert Map.empty "size" 0) "names" 1) "limits" 2;
        collection = 0 ∷ 1 ∷ 2 ∷ [];
      }
      else record { property_map = Map.insert Map.empty "most" 3; collection = 3 ∷ [] };
}

abbrev pub before : Store (Unit {0}) (Unit {0})
before = component (negsuc 41) ("ab" ∷ "c" ∷ []) 7

abbrev after : Store (Unit {0}) (Unit {0})
after = component (pos 0) ("x" ∷ "y" ∷ []) 0

abbrev pub no_aliases : AliasContext
no_aliases = record {
  component_resolver_map = Map.empty;
  interface_resolver_map = Map.empty;
  module_resolver_map = Map.empty;
}

root-IsWritable : (p : ℕ) → Among p (0 ∷ 1 ∷ 2 ∷ []) → IsWritable before 0 p
unfolding at Map.lookup Map.insert Map.empty
root-IsWritable p (inl e) =
    subst (IsWritable before 0) (sym e) (record { named = refl; found = refl; holds = omega arith })
root-IsWritable p (inr (inl e)) =
    subst (IsWritable before 0) (sym e)
      (record { named = refl; found = refl; holds = (tt, ((refl, refl), ((refl, refl), tt))) })
root-IsWritable p (inr (inr (inl e))) =
    subst (IsWritable before 0) (sym e) (record { named = refl; found = refl; holds = tt })
root-IsWritable p (inr (inr (inr a))) = absurd a

pub limits-IsWritable : (p : ℕ) → Among p (3 ∷ []) → IsWritable before 1 p
unfolding at Map.lookup Map.insert Map.empty
limits-IsWritable p (inl e) =
    subst (IsWritable before 1) (sym e) (record { named = refl; found = refl; holds = omega arith })
limits-IsWritable p (inr a) = absurd a

limits_below : (k : ℕ) → Below before 1 k → k ≡ 1
limits_below k (here e) = e
limits_below k (down {l = l} p (inl e) s b) =
    let none_there : none ≡ some l = subst (λ q. structure_of (before.property q) ≡ some l) e s in
    cc
limits_below k (down p (inr a) s b) = absurd a

root_below : (k : ℕ) → Below before 0 k → (k ≡ 0) ⊎ (k ≡ 1)
root_below k (here e) = inl e
root_below k (down {l = l} p (inl e) s b) =
    let none_there : none ≡ some l = subst (λ q. structure_of (before.property q) ≡ some l) e s in
    cc
root_below k (down {l = l} p (inr (inl e)) s b) =
    let none_there : none ≡ some l = subst (λ q. structure_of (before.property q) ≡ some l) e s in
    cc
root_below k (down {l = l} p (inr (inr (inl e))) s b) =
    let same : some 1 ≡ some l = subst (λ q. structure_of (before.property q) ≡ some l) e s in
    let one : l ≡ 1 = cc in inr (limits_below k (subst (λ i. Below before i k) one b))
root_below k (down p (inr (inr (inr a))) s b) = absurd a

all_writable : AllWritable before 0
all_writable k p b a = elim (root_below k b) [
  | inl e ↦
      subst (λ i. IsWritable before i p) (sym e)
        (root-IsWritable p (subst (λ i. Among p (before.node i).collection) e a))
  | inr e ↦
      subst (λ i. IsWritable before i p) (sym e)
        (limits-IsWritable p (subst (λ i. Among p (before.node i).collection) e a))
]

same_shape : SameShape before after
same_shape = record {
  nodes = refl;
  objects = λ a. elim (Bool-cases (nat_eq a 0)) [
    | inl e ↦ rw e (refl, refl, refl)
    | inr e ↦ elim (Bool-cases (nat_eq a 1)) [
      | inl f ↦ rw (e, f) (refl, refl, refl, refl, refl)
      | inr f ↦ elim (Bool-cases (nat_eq a 2)) [
        | inl g ↦ rw (e, f, g) (refl, refl, refl)
        | inr g ↦ rw (e, f, g) (refl, refl, refl)
      ]
    ]
  ];
}

-- How the call ends, and what the file holds then.
abbrev saved : Result ErrorCode × Option Dom
unfolding serialize_file to_string_ℕ to_string_ℤ digits get
saved = serialize_file platform before 2 5 0 none

abbrev pub root_of_saved : Result Dom → Dom
root_of_saved (ok r) = r
root_of_saved (err e) = platform.new_element ""

was_saved : saved ≡ (ok success, saved.1)
unfolding saved
was_saved = refl

configure-serialize_document_example :
    (u : Store (Unit {0}) (Unit {0})) × (configure platform no_aliases
        (unnamed platform)
        5
        2
        0
        saved.1
        after
      ≡ (ok success, u))
    × Towards before after u
    × ((k q : ℕ)
        → Below before 0 k
        → Among q (before.node k).collection
        → u.property q ≡ before.property q)
unfolding saved alias_exists Map.lookup Map.empty
configure-serialize_document_example =
    configure-serialize_document platform laws before after no_aliases 2 5 0 saved.1 all_writable
      same_shape refl (λ root made. refl) was_saved

abbrev pub old_file : Dom
old_file =
    element "xpcf-configuration" [] none (more no_doms (element "properties" [] none no_doms))

abbrev saved_again : Result Dom
unfolding serialize_document to_string_ℕ to_string_ℤ digits get
saved_again = serialize_document platform before 2 5 0 (some old_file)

was_saved_again : saved_again ≡ ok (root_of_saved saved_again)
unfolding saved_again
was_saved_again = refl

configure-serialize_again_example :
    configure platform no_aliases (unnamed platform) 5 2 0 (some (root_of_saved saved_again)) after
    ≡ configure platform no_aliases (unnamed platform) 5 2 0 (some old_file) after
unfolding saved_again
configure-serialize_again_example =
    configure-serialize_again platform laws before after no_aliases (unnamed platform) 2 5 0 2 5 0
      old_file (root_of_saved saved_again) (element "properties" [] none no_doms) [] refl
      was_saved_again
