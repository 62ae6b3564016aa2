-- ===== src/Component/Queries.antt =====
-- Which pointer a component of src/ComponentBase.cpp gives for an interface.
use xpcf.Base.{
  ℕ, ◌≡◌, refl, ap, ◌∙◌, arith, Bool, not, ◌&&◌, List, [], ◌∷◌, Option, none, some, if◌then◌else◌,
  nat_eq, nat_eq_iff, nat_keys, inl, inr, Bool-cases,
}
use xpcf.Map.{map_contains, lookup-insert}
use xpcf.Exec.{Result, ok, err, or_throw, interface_not_implemented, injectable_declaration}
use xpcf.Component.{
  ObjectInterface, ComponentBase, declare_interface, query_interface, retrieve_injectable,
  inject_exists, declare_injectable, declare_named_injectable, declare_multi_injectable,
  add_component_ref, release_component_ref,
}
use xpcf.Component.Calls.{
  Call, declares_interface, declares_injectable, declares_named, declares_multi, adds_ref,
  releases_ref, after_all,
}

module _ {Any : Type 0} where
  -- The pointer of the first declaration of an interface.
  abbrev pub first_declared : ℕ → List (Call Any) → Option Any
  first_declared i [] = none
  first_declared i (declares_interface j o ∷ xs) =
      let later = first_declared i xs in if nat_eq j i then some o.component else later
  first_declared i (_ ∷ xs) = first_declared i xs

  abbrev pub earlier : Result Any → Option Any → Result Any
  earlier (ok a) later = ok a
  earlier (err e) later = or_throw later interface_not_implemented

  query-declare :
      (i j : ℕ) (o : ObjectInterface Any) (c : ComponentBase Any) (later : Option Any)
      → earlier (query_interface i (declare_interface j o c)) later
        ≡ earlier (query_interface i c) (if nat_eq j i then some o.component else later)
  unfolding query_interface declare_interface
  query-declare i j o c later = elim (Bool-cases (nat_eq j i)) [
    | inl e ↦
        let same : j ≡ i = (nat_eq_iff j i).0 e in
        let here : map_contains c.interfaces j ≡ map_contains c.interfaces i =
          ap (λ k. map_contains c.interfaces k) same in
        ground (arith, lookup-insert c.interfaces j i o, here, e)
    | inr e ↦ ground (arith, lookup-insert c.interfaces j i o, e)
  ]

  -- After any history of calls `queryInterface` gives the pointer that the component had for an
  -- interface, else the one of the first declaration of it in the history; without one it throws
  -- InterfaceNotImplementedException. Later declarations of the interface change nothing.
  pub query_interface-after_all :
      (i : ℕ) (xs : List (Call Any)) (c : ComponentBase Any)
      → query_interface i (after_all xs c) ≡ earlier (query_interface i c) (first_declared i xs)
  unfolding declare_injectable declare_named_injectable declare_multi_injectable add_component_ref
      release_component_ref query_interface
  query_interface-after_all i [] c = ground arith
  query_interface-after_all i (declares_interface j o ∷ xs) c =
      query_interface-after_all i xs (declare_interface j o c)
      ∙ query-declare i j o c (first_declared i xs)
  query_interface-after_all i (declares_injectable j a b ∷ xs) c =
      query_interface-after_all i xs (declare_injectable j a b c).1
      ∙ ap (λ q. earlier q (first_declared i xs)) (ground arith)
  query_interface-after_all i (declares_named j a n b ∷ xs) c =
      query_interface-after_all i xs (declare_named_injectable j a n b c).1
      ∙ ap (λ q. earlier q (first_declared i xs)) (ground arith)
  query_interface-after_all i (declares_multi j a b ∷ xs) c =
      query_interface-after_all i xs (declare_multi_injectable j a b c).1
      ∙ ap (λ q. earlier q (first_declared i xs)) (ground arith)
  query_interface-after_all i (adds_ref ∷ xs) c =
      query_interface-after_all i xs (add_component_ref c)
  query_interface-after_all i (releases_ref ∷ xs) c =
      query_interface-after_all i xs (release_component_ref c)

  -- `declareInjectable` throws exactly where an injectable of the interface was declared before, and
  -- then changes nothing; else `retrieveInjectable` gives the new one for the interface, and for each
  -- other interface what it gave before.
  pub retrieve_injectable-declare_injectable :
      (i j : ℕ) (a : Any) (optional : Bool) (c : ComponentBase Any)
      → let (r, d) = declare_injectable j a optional c in
        (r ≡ (if inject_exists j c then err injectable_declaration else ok tt))
        × (retrieve_injectable i d
            ≡ (if not (inject_exists j c) && nat_eq j i then ok a else retrieve_injectable i c))
  unfolding declare_injectable retrieve_injectable inject_exists
  retrieve_injectable-declare_injectable i j a optional c =
      elim (Bool-cases (map_contains c.injectables_map j)) [
        | inl h ↦ rw h (refl, refl)
        | inr h ↦ rw h (refl, ground (arith, lookup-insert c.injectables_map j i a))
      ]
