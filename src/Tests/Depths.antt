-- ===== src/Tests/Depths.antt =====
-- The depth of a document that src/PropertyManager.cpp reads.
use xpcf.Base.{
  ℕ, suc, ◌+◌, ◌≤◌, String, arith, some, none, List, [], ◌∷◌, ◌++◌, ◌⊎◌, inl, inr, Among,
  if◌then◌else◌, ◌==◌, string_keys, Bool-cases,
}
use xpcf.Manager.Configure.{configure_element}
use xpcf.Manager.Ends.{Ends}
use xpcf.Manager.Finishes.{Ranks, configure_element-Ends}
use xpcf.Tests.Dom.{Dom, Doms, element, more, no_doms, platform, children_in, dom_name}
use xpcf.Tests.Manager.{before}

mutual
  pub dom_size : Dom → ℕ
  dom_size (element n a t ds) = suc (doms_size ds)

  pub doms_size : Doms → ℕ
  doms_size no_doms = 0
  doms_size (more ds d) = doms_size ds + dom_size d

Among-append : {A : Type 0} (x : A) (xs ys : List A) → Among x (xs ++ ys) → Among x xs ⊎ Among x ys
Among-append x [] ys a = inr a
Among-append x (y ∷ xs) ys (inl e) = inl (inl e)
Among-append x (y ∷ xs) ys (inr a) = elim (Among-append x xs ys a) [
  | inl b ↦ inl (inr b)
  | inr b ↦ inr b
]

child_size :
    (k : String) (ds : Doms) (x : Dom) → Among x (children_in ds k) → dom_size x ≤ doms_size ds
unfolding dom_size doms_size
child_size k no_doms x a = absurd a
child_size k (more ds d) x a =
    elim (Among-append x (children_in ds k) (if dom_name d == k then d ∷ [] else []) a) [
      | inl b ↦ let less = child_size k ds x b in omega arith
      | inr b ↦ elim (Bool-cases (dom_name d == k)) [
        | inr e ↦ absurd (rw e at b)
        | inl e ↦ last (rw e at b)
      ]
    ]
  where
    last : Among x (d ∷ []) → dom_size x ≤ doms_size ds + dom_size d
    last (inl e) = rw e (omega arith)
    last (inr b) = absurd b

sizes : Ranks platform dom_size
unfolding dom_size
sizes (element n a t ds) x b = let less = child_size "property" ds x b in omega arith

abbrev nested : Dom
nested = element "property" (("name", "limits") ∷ ("type", "structure") ∷ []) none (
    more no_doms (
      element "property" (("name", "most") ∷ ("type", "ulong") ∷ ("value", "8") ∷ []) none no_doms))

abbrev configured : Dom
configured = element "configure" [] none (more no_doms nested)

configure_element-Ends_example : Ends (configure_element platform 4 configured (some 0) before).0
unfolding dom_size doms_size
configure_element-Ends_example =
    configure_element-Ends platform (λ t x. cc x) (λ t x. cc x) dom_size sizes 4 configured (some 0)
      before (omega arith)
