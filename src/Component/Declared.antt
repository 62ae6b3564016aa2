-- ===== src/Component/Declared.antt =====
-- What a component of src/ComponentBase.cpp has declared, after any history of calls.
use xpcf.Base.{
  ℕ, ◌+◌, ◌≡◌, refl, sym, ap, ◌∙◌, arith, String, Bool, true, false, not, ◌&&◌, List, [], ◌∷◌, none,
  some, nat_eq, nat_eq_iff, ◌==◌, string_keys, nat_keys, named_keys, named_eq_iff, inl, inr,
  Bool-cases,
}
use xpcf.Map
use xpcf.Map.{map_contains, lookup-insert}
use xpcf.Collection.{add}
use xpcf.Factory.Resolve.{Injectable}
use xpcf.Component.{
  ObjectInterface, ComponentBase, blank, construct, declare_interface, injectable_of,
  declare_injectable, declare_named_injectable, declare_multi_injectable, add_component_ref,
  release_component_ref,
}
use xpcf.Component.Calls.{
  Call, declares_interface, declares_injectable, declares_named, declares_multi, adds_ref,
  releases_ref, after, after_all,
}

abbrev pub one : Bool → ℕ
one true = 1
one false = 0

abbrev pub count {ℓ} : {A : Type ℓ} → (A → Bool) → List A → ℕ
count p [] = 0
count p (x ∷ xs) = one (p x) + count p xs

count-add :
    {A : Type 0} (p : A → Bool) (x : A) (xs : List A) → count p (add x xs) ≡ count p xs + one (p x)
unfolding add
count-add p x [] = omega arith
count-add p x (y ∷ xs) = omega (arith, count-add p x xs)

-- The injectables of one interface, by how they were declared.
abbrev pub is_single : ℕ → Injectable → Bool
is_single i injectable =
    not injectable.multi
    && nat_eq injectable.uuid i
    && elim injectable.name [ none ↦ true | some name ↦ false ]

abbrev pub is_named : ℕ → String → Injectable → Bool
is_named i name injectable =
    nat_eq injectable.uuid i && elim injectable.name [ none ↦ false | some other ↦ other == name ]

abbrev pub is_multi : ℕ → Injectable → Bool
is_multi i injectable = injectable.multi && nat_eq injectable.uuid i

module _ {Any : Type 0} where
  -- Each list has its maps' keys, each once.
  pub record Declared (c : ComponentBase Any) : Type 0 where
    pub interfaces_once :
        (i : ℕ) → count (λ j. nat_eq j i) c.interfaces_uuid ≡ one (map_contains c.interfaces i)
    pub single_once :
        (i : ℕ)
        → count (is_single i) c.injectables_collection ≡ one (map_contains c.injectables_map i)
    pub named_once :
        (i : ℕ) (name : String)
        → count (is_named i name) c.injectables_collection
          ≡ one (map_contains c.named_injectables_map (i, name))
    pub multi_once :
        (i : ℕ)
        → count (is_multi i) c.injectables_collection ≡ one (map_contains c.multi_injectables_map i)

  declare_interface-Declared :
      (j : ℕ) (o : ObjectInterface Any) (c : ComponentBase Any)
      → Declared c
      → Declared (declare_interface j o c)
  unfolding declare_interface
  declare_interface-Declared j o c d = elim (Bool-cases (map_contains c.interfaces j)) [
    | inl h ↦ rw (h, declare_interface) d
    | inr h ↦
        rw (h, declare_interface)
          (record {
            interfaces_once = λ i. ground (
              arith,
              count-add (λ k. nat_eq k i) j c.interfaces_uuid,
              d.interfaces_once i,
              lookup-insert c.interfaces j i o,
              nat_eq_iff j i,
              h,
            );
            single_once = d.single_once;
            named_once = d.named_once;
            multi_once = d.multi_once;
          })
  ]

  declare_injectable-Declared :
      (j : ℕ) (a : Any) (b : Bool) (c : ComponentBase Any)
      → Declared c
      → Declared (declare_injectable j a b c).1
  unfolding declare_injectable
  declare_injectable-Declared j a b c d = elim (Bool-cases (map_contains c.injectables_map j)) [
    | inl h ↦ rw (h, declare_injectable) d
    | inr h ↦
        let x = injectable_of j none false b in
        let old = c.injectables_collection in
        rw (h, declare_injectable)
          (record {
            interfaces_once = d.interfaces_once;
            single_once = λ i. ground (
              arith,
              count-add (is_single i) x old,
              d.single_once i,
              lookup-insert c.injectables_map j i a,
              nat_eq_iff j i,
              h,
            );
            named_once = λ i n. ground (arith, count-add (is_named i n) x old, d.named_once i n);
            multi_once = λ i. ground (arith, count-add (is_multi i) x old, d.multi_once i);
          })
  ]

  declare_multi_injectable-Declared :
      (j : ℕ) (a : Any) (b : Bool) (c : ComponentBase Any)
      → Declared c
      → Declared (declare_multi_injectable j a b c).1
  unfolding declare_multi_injectable
  declare_multi_injectable-Declared j a b c d =
      elim (Bool-cases (map_contains c.multi_injectables_map j)) [
        | inl h ↦ rw (h, declare_multi_injectable) d
        | inr h ↦
            let x = injectable_of j none true b in
            let old = c.injectables_collection in
            rw (h, declare_multi_injectable)
              (record {
                interfaces_once = d.interfaces_once;
                single_once = λ i. ground (arith, count-add (is_single i) x old, d.single_once i);
                named_once =
                    λ i n. ground (arith, count-add (is_named i n) x old, d.named_once i n);
                multi_once = λ i. ground (
                  arith,
                  count-add (is_multi i) x old,
                  d.multi_once i,
                  lookup-insert c.multi_injectables_map j i a,
                  nat_eq_iff j i,
                  h,
                );
              })
      ]

  declare_named_injectable-Declared :
      (j : ℕ) (a : Any) (m : String) (b : Bool) (c : ComponentBase Any)
      → Declared c
      → Declared (declare_named_injectable j a m b c).1
  unfolding declare_named_injectable
  declare_named_injectable-Declared j a m b c d =
      elim (Bool-cases (map_contains c.named_injectables_map (j, m))) [
        | inl h ↦ rw (h, declare_named_injectable) d
        | inr h ↦
            let x = injectable_of j (some m) false b in
            let old = c.injectables_collection in
            rw (h, declare_named_injectable)
              (record {
                interfaces_once = d.interfaces_once;
                single_once = λ i. ground (arith, count-add (is_single i) x old, d.single_once i);
                named_once = λ i n. elim (Bool-cases (nat_eq j i && (m == n))) [
                  | inl e ↦
                      let key : (j, m) ≡ (i, n) = (named_eq_iff (j, m) (i, n)).0 e in
                      let old_key : map_contains c.named_injectables_map (i, n) ≡ false =
                        ap (λ k. map_contains c.named_injectables_map k) (sym key) ∙ h in
                      ground (
                        arith,
                        count-add (is_named i n) x old,
                        d.named_once i n,
                        lookup-insert c.named_injectables_map (j, m) (i, n) a,
                        old_key,
                        e,
                      )
                  | inr e ↦ ground (
                    arith,
                    count-add (is_named i n) x old,
                    d.named_once i n,
                    lookup-insert c.named_injectables_map (j, m) (i, n) a,
                    e,
                  )
                ];
                multi_once = λ i. ground (arith, count-add (is_multi i) x old, d.multi_once i);
              })
      ]

  after-Declared : (x : Call Any) (c : ComponentBase Any) → Declared c → Declared (after x c)
  unfolding add_component_ref release_component_ref
  after-Declared (declares_interface i o) c d = declare_interface-Declared i o c d
  after-Declared (declares_injectable i a b) c d = declare_injectable-Declared i a b c d
  after-Declared (declares_named i a n b) c d = declare_named_injectable-Declared i a n b c d
  after-Declared (declares_multi i a b) c d = declare_multi_injectable-Declared i a b c d
  after-Declared adds_ref c d = record {
    interfaces_once = d.interfaces_once;
    single_once = d.single_once;
    named_once = d.named_once;
    multi_once = d.multi_once;
  }
  after-Declared releases_ref c d = record {
    interfaces_once = d.interfaces_once;
    single_once = d.single_once;
    named_once = d.named_once;
    multi_once = d.multi_once;
  }

  after_all-Declared :
      (xs : List (Call Any)) (c : ComponentBase Any) → Declared c → Declared (after_all xs c)
  after_all-Declared [] c d = d
  after_all-Declared (x ∷ xs) c d = after_all-Declared xs (after x c) (after-Declared x c d)

  -- Whatever is declared after the construction of a component, and whether or not it throws, the
  -- interfaces and the injectables that it lists are those that its maps know, each listed once.
  pub construct-Declared :
      (i j : ℕ) (o p : ObjectInterface Any) (xs : List (Call Any))
      → Declared (after_all xs (construct i o j p))
  unfolding construct Map.lookup Map.empty
  construct-Declared i j o p xs = after_all-Declared xs _ (
      declare_interface-Declared j p _ (
        declare_interface-Declared i o blank (record {
          interfaces_once = λ k. refl;
          single_once = λ k. refl;
          named_once = λ k n. refl;
          multi_once = λ k. refl;
        })))
