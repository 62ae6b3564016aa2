-- ===== src/Factory/Resolve/Multi.antt =====
-- How many components `Factory::resolveAll` of src/Factory.cpp returns.
use xpcf.Base.{ℕ, ◌+◌, ◌≡◌, refl, List, [], ◌∷◌, ◌++◌, some, length, length-append, arith, nat_keys}
use xpcf.Map
use xpcf.Exec.{Result, ok, err, continue}
use xpcf.Factory.{
  Scope, transient, singleton, BindInfos, BindContext, component_context, Ref, Factory,
}
use xpcf.Factory.Resolve.{
  Components, M, resolve_singleton, resolve_multi, resolve_multis, resolve_all_with, resolve_all,
  resolve_component,
}

-- How many of the bindings are of singleton scope.
abbrev pub weight : Scope → ℕ
weight transient = 0
weight singleton = 1

abbrev pub singletons : List BindInfos → ℕ
singletons [] = 0
singletons (b ∷ bs) = weight b.scope + singletons bs

module _ (C : Components) where
  open C use {Method}

  -- The reference count of a result, if it is one.
  abbrev Counts : Result (List Ref) → ℕ → Type 0
  Counts (ok rs) n = length rs ≡ n
  Counts (err e) n = Unit

  Counts-continue :
      {A : Type 0} (p : Result A × Factory Method) (k : A → M C (List Ref)) (n : ℕ)
      → ((a : A) (g : Factory Method) → p.0 ≡ ok a → Counts (k a g).0 n)
      → Counts (continue p k).0 n
  Counts-continue (ok a, g) k n h = h a g refl
  Counts-continue (err e, g) k n h = tt

  module _ (rc : BindInfos → List BindContext → M C Ref) where
    Counts-scoped :
        (s : Scope) (m n : M C (List Ref)) (f : Factory Method)
        → Counts (m f).0 1
        → Counts (n f).0 2
        → let chosen : M C (List Ref) = elim s [ transient ↦ m | singleton ↦ n ] in
          Counts (chosen f).0 (1 + weight s)
    Counts-scoped transient m n f h k = h
    Counts-scoped singleton m n f h k = k

    Counts-multi :
        (infos : BindInfos) (cs : List BindContext) (f : Factory Method)
        → Counts (resolve_multi C rc infos cs f).0 (1 + weight infos.scope)
    unfolding resolve_multi
    Counts-multi infos cs f =
        Counts-scoped infos.scope _ _ f (Counts-continue (rc infos cs f) _ 1 (λ r g _. refl)) (
          Counts-continue (resolve_singleton C rc infos cs f) _ 2
            (λ r g _. Counts-continue (rc infos cs g) _ 2 (λ s h _. refl)))

    Counts-append :
        (rs : List Ref) (n m : ℕ) (p : Result (List Ref) × Factory Method)
        → length rs ≡ n
        → Counts p.0 m
        → Counts (continue {S = Factory Method} p (λ others h. (ok (rs ++ others), h))).0 (n + m)
    Counts-append rs n m (ok others, g) h k = omega (arith, length-append rs others)
    Counts-append rs n m (err e, g) h k = tt

    Counts-multis :
        (binds : List BindInfos) (cs : List BindContext) (f : Factory Method)
        → Counts (resolve_multis C rc binds cs f).0 (length binds + singletons binds)
    unfolding resolve_multis
    Counts-multis [] cs f = refl
    Counts-multis (b ∷ bs) cs f =
        go (resolve_multi C rc b ((component_context, b) ∷ cs) f)
          (Counts-multi b ((component_context, b) ∷ cs) f)
          (Counts-multis bs ((component_context, b) ∷ cs))
      where
        go :
            (p : Result (List Ref) × Factory Method)
            → Counts p.0 (1 + weight b.scope)
            → ((g : Factory Method)
                → Counts
                    (resolve_multis C rc bs ((component_context, b) ∷ cs) g).0
                    (length bs + singletons bs))
            → Counts
                (continue p (λ refs g.
                  continue
                    (resolve_multis C rc bs ((component_context, b) ∷ cs) g)
                    (λ others h. (ok (refs ++ others), h)))).0
                (length (b ∷ bs) + singletons (b ∷ bs))
        go (err e, g) h ih = tt
        go (ok rs, g) h ih =
            let total : length (b ∷ bs) + singletons (b ∷ bs)
                ≡ (1 + weight b.scope) + (length bs + singletons bs) =
              omega arith in
            rw total (
              Counts-append rs (1 + weight b.scope) (length bs + singletons bs)
                (resolve_multis C rc bs ((component_context, b) ∷ cs) g) h (ih g))

  -- Where an interface has a list of bindings, `resolveAll` returns one component for each of them
  -- and one more for each that is of singleton scope: the shared object and then another one.
  pub length-resolve_all :
      (fuel i : ℕ) (f : Factory Method) (binds : List BindInfos) {rs : List Ref}
      → Map.lookup f.context.multi_bindings i ≡ some binds
      → (resolve_all C fuel i f).0 ≡ ok rs
      → length rs ≡ length binds + singletons binds
  unfolding resolve_all resolve_all_with
  length-resolve_all fuel i f binds {rs} e h =
      go (resolve_multis C (resolve_component C fuel) binds [] f).0
        (Counts-multis (resolve_component C fuel) binds [] f) (rw (e, resolve_all_with) at h)
    where
      go :
          (r : Result (List Ref))
          → Counts r (length binds + singletons binds)
          → r ≡ ok rs
          → length rs ≡ length binds + singletons binds
      go (ok ts) c h = ground (arith, h, c)
      go (err x) c h = cc h
