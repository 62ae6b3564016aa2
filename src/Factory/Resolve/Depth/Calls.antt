-- ===== src/Factory/Resolve/Depth/Calls.antt =====
-- The calls of src/Factory.cpp around `resolveComponent` end where it does for lower ranks.
use xpcf.Base.{
  ℕ, ◌≡◌, ◌≢◌, ◌<◌, refl, arith, String, List, [], ◌∷◌, ◌++◌, Option, none, some, All, string_keys,
  nat_keys, named_keys, inl, inr, Option-cases, Bool-cases,
}
use xpcf.Map
use xpcf.Exec.{Result, ok, err, no_fuel, continue, ◌>>=◌, pure}
use xpcf.Factory.{BindInfos, BindContext, component_context, Ref, Factory}
use xpcf.Factory.Lookup.{resolve_bind, resolve_bind_named}
use xpcf.Factory.Lookup.Sources.{
  Source, NamedSource, resolve_bind-Source, resolve_bind_named-NamedSource,
}
use xpcf.Factory.Resolve.{
  Injectable, Components, M, resolve_singleton, resolve_core, resolve_named_singleton,
  resolve_infos, resolve_with, resolve_named_infos, resolve_named_with, resolve_multi,
  resolve_multis, resolve_all_with, resolve_injectable, implement_all, inject_refs, inject_one,
  inject_each, inject_with, emit, notify,
}
use xpcf.Factory.Resolve.Extends.{Grows}
use xpcf.Factory.Resolve.Nested.{
  resolve_singleton-Grows, resolve_with-Grows, resolve_named_with-Grows, resolve_multi-Grows,
  resolve_multis-Grows, resolve_injectable-Grows, inject_one-Grows, inject_each-Grows,
}
use xpcf.Factory.Resolve.Depth.{
  Below, ok-Ends, Source-back, NamedSource-back, resolve_bind-marked, resolve_bind_named-marked,
}
use xpcf.Factory.Resolve.Depth.Steady.{
  Steady, Steady-continue, absorb-Ends, after, scoped-Steady, choose-Steady,
}

module _ (C : Components) (f : Factory C.Method) (rank : ℕ → ℕ) (r : ℕ)
    (rc : BindInfos → List BindContext → M C Ref)
    (rc-Grows : (b : BindInfos) (cs : List BindContext) → Grows (rc b cs))
    (rc-Steady : (b : BindInfos) (cs : List BindContext)
      → rank b.component_uuid < r
      → Steady f (rc b cs)) where
  -- What is made is entered into a table.
  kept-Steady :
      (b : BindInfos) (cs : List BindContext) (k : Ref → Factory C.Method → Factory C.Method)
      → rank b.component_uuid < r
      → Steady f (λ g. continue (rc b cs g) (λ ref h. (ok ref, k ref h)))
  kept-Steady b cs k low g x =
      Steady-continue f (rc b cs g) _ (after f (rc b cs) (rc-Grows b cs) g x)
        (rc-Steady b cs low g x) (λ ref h y. ok-Ends ref)

  singleton-Steady :
      (b : BindInfos) (cs : List BindContext)
      → rank b.component_uuid < r
      → Steady f (resolve_singleton C rc b cs)
  unfolding resolve_singleton
  singleton-Steady b cs low g x =
      elim (Option-cases (Map.lookup g.singleton_instances b.component_uuid)) [
        | inl e ↦ rw (e, resolve_singleton) (kept-Steady b cs _ low g x)
        | inr (ref, e) ↦ rw (e, resolve_singleton) (ok-Ends ref)
      ]

  core-Steady :
      (b : BindInfos) (cs : List BindContext)
      → rank b.component_uuid < r
      → Steady f (resolve_core C rc b cs)
  unfolding resolve_core
  core-Steady b cs low g x = elim (Option-cases (Map.lookup g.core_instances b.component_uuid)) [
    | inl e ↦ rw (e, resolve_core) (kept-Steady b cs _ low g x)
    | inr (ref, e) ↦ rw (e, resolve_core) (ok-Ends ref)
  ]

  named_singleton-Steady :
      (name : String) (b : BindInfos) (cs : List BindContext)
      → rank b.component_uuid < r
      → Steady f (resolve_named_singleton C rc name b cs)
  unfolding resolve_named_singleton
  named_singleton-Steady name b cs low g x =
      elim (Option-cases (Map.lookup g.named_singleton_instances (b.component_uuid, name))) [
        | inl e ↦ rw (e, resolve_named_singleton) (kept-Steady b cs _ low g x)
        | inr (ref, e) ↦ rw (e, resolve_named_singleton) (ok-Ends ref)
      ]

  infos-Steady :
      (b : BindInfos) (cs : List BindContext)
      → rank b.component_uuid < r
      → Steady f (resolve_infos C rc b cs)
  unfolding resolve_infos
  infos-Steady b cs low =
      scoped-Steady f b.scope _ _ (rc-Steady b cs low)
        (choose-Steady f _ _ _ (core-Steady b cs low) (singleton-Steady b cs low))

  named_infos-Steady :
      (name : String) (b : BindInfos) (cs : List BindContext)
      → rank b.component_uuid < r
      → Steady f (resolve_named_infos C rc name b cs)
  unfolding resolve_named_infos
  named_infos-Steady name b cs low =
      scoped-Steady f b.scope _ _ (rc-Steady b cs low) (named_singleton-Steady name b cs low)

  -- A binding that was found, and what is done with it.
  bound-Steady :
      (q : Result BindInfos) (k : BindInfos → M C Ref)
      → q ≢ err no_fuel
      → ((b : BindInfos) → q ≡ ok b → Steady f (k b))
      → Steady f {A = Ref} (λ g. elim q [ err e ↦ (err e, g) | ok b ↦ k b g ])
  bound-Steady (ok b) k marked h g x = h b refl g x
  bound-Steady (err e) k marked h g x = λ q. marked (ground (arith, q))

  pub resolve_with-Steady :
      (i : ℕ) (cs : List BindContext)
      → ((b : BindInfos) → Source f i b → rank b.component_uuid < r)
      → Steady f (resolve_with C rc i cs)
  unfolding resolve_with
  resolve_with-Steady i cs low g x =
      bound-Steady (resolve_bind g i cs) (λ b. resolve_infos C rc b ((component_context, b) ∷ cs))
        (resolve_bind-marked g i cs)
        (λ b e. infos-Steady b _ (low b (Source-back x (resolve_bind-Source g i cs e)))) g x

  named_with-Steady :
      (i : ℕ) (name : String) (cs : List BindContext)
      → ((b : BindInfos) → NamedSource f i name b → rank b.component_uuid < r)
      → Steady f (resolve_named_with C rc i name cs)
  unfolding resolve_named_with
  named_with-Steady i name cs low g x =
      bound-Steady (resolve_bind_named g i name cs)
        (λ b. resolve_named_infos C rc name b ((component_context, b) ∷ cs))
        (resolve_bind_named-marked g i name cs)
        (λ b e.
          named_infos-Steady name b _
            (low b (NamedSource-back x (resolve_bind_named-NamedSource g i name cs e))))
        g x

  one-Steady : (m : M C Ref) → Grows m → Steady f m → Steady f (do ref ← m; pure (ref ∷ []))
  one-Steady m grows h g x =
      Steady-continue f (m g) _ (after f m grows g x) (h g x) (λ ref k y. ok-Ends (ref ∷ []))

  multi-Steady :
      (b : BindInfos) (cs : List BindContext)
      → rank b.component_uuid < r
      → Steady f (resolve_multi C rc b cs)
  unfolding resolve_multi
  multi-Steady b cs low =
      scoped-Steady f b.scope _ _ (one-Steady (rc b cs) (rc-Grows b cs) (rc-Steady b cs low))
        (λ g x.
          Steady-continue f (resolve_singleton C rc b cs g) _
            (after f (resolve_singleton C rc b cs) (resolve_singleton-Grows C rc rc-Grows b cs) g x)
            (singleton-Steady b cs low g x)
            (λ shared h y.
              Steady-continue f (rc b cs h) _ (after f (rc b cs) (rc-Grows b cs) h y)
                (rc-Steady b cs low h y) (λ ref k z. ok-Ends (shared ∷ ref ∷ []))))

  multis-Steady :
      (bs : List BindInfos) (cs : List BindContext)
      → All (λ b. rank b.component_uuid < r) bs
      → Steady f (resolve_multis C rc bs cs)
  unfolding resolve_multis
  multis-Steady [] cs low g x = ok-Ends []
  multis-Steady (b ∷ bs) cs (low, rest) g x =
      Steady-continue f (resolve_multi C rc b _ g) _
        (after f (resolve_multi C rc b _) (resolve_multi-Grows C rc rc-Grows b _) g x)
        (multi-Steady b _ low g x)
        (λ refs h y.
          Steady-continue f (resolve_multis C rc bs _ h) _
            (after f (resolve_multis C rc bs _) (resolve_multis-Grows C rc rc-Grows bs _) h y)
            (multis-Steady bs _ rest h y) (λ others k z. ok-Ends (refs ++ others)))

  pub resolve_all_with-Steady :
      (i : ℕ) (cs : List BindContext)
      → ((b : BindInfos) → Source f i b → rank b.component_uuid < r)
      → ((bs : List BindInfos)
          → Map.lookup f.context.multi_bindings i ≡ some bs
          → All (λ b. rank b.component_uuid < r) bs)
      → Steady f (resolve_all_with C rc i cs)
  unfolding resolve_all_with
  resolve_all_with-Steady i cs low listed g x =
      elim (Option-cases (Map.lookup g.context.multi_bindings i)) [
        | inl e ↦
            rw (e, resolve_all_with)
              (one-Steady (resolve_with C rc i cs) (resolve_with-Grows C rc rc-Grows i cs)
                (resolve_with-Steady i cs low) g x)
        | inr (bs, e) ↦
            rw (e, resolve_all_with) (multis-Steady bs cs (listed bs (rw x.same_context at e)) g x)
      ]

  injectable-Steady :
      (i : Injectable) (cs : List BindContext)
      → Below f rank r i
      → Steady f (resolve_injectable C rc i cs)
  unfolding resolve_injectable
  injectable-Steady i cs low =
      choose-Steady f i.multi _ _ (resolve_all_with-Steady i.uuid cs low.one low.listed)
        (go i.name refl)
    where
      go :
          (o : Option String)
          → i.name ≡ o
          → Steady f (elim o [
            | some name ↦ (do ref ← resolve_named_with C rc i.uuid name cs; pure (ref ∷ []))
            | none ↦ (do ref ← resolve_with C rc i.uuid cs; pure (ref ∷ []))
          ])
      go none e =
          one-Steady (resolve_with C rc i.uuid cs) (resolve_with-Grows C rc rc-Grows i.uuid cs)
            (resolve_with-Steady i.uuid cs low.one)
      go (some name) e =
          one-Steady (resolve_named_with C rc i.uuid name cs)
            (resolve_named_with-Grows C rc rc-Grows i.uuid name cs)
            (named_with-Steady i.uuid name cs (λ b s. low.named name b e s))

  refs-Steady : (ref : Ref) (i : Injectable) (rs : List Ref) → Steady f (inject_refs C ref i rs)
  unfolding inject_refs emit
  refs-Steady ref i rs g x = elim (Bool-cases (implement_all C i.uuid rs)) [
    | inl c ↦ rw c (ok-Ends tt)
    | inr c ↦ rw c (λ q. cc q)
  ]

  one_injected-Steady :
      (ref : Ref) (cs : List BindContext) (i : Injectable)
      → Below f rank r i
      → Steady f (inject_one C rc ref cs i)
  unfolding inject_one
  one_injected-Steady ref cs i low g x = absorb-Ends i.optional _ (
      Steady-continue f (resolve_injectable C rc i cs g) _
        (after f (resolve_injectable C rc i cs) (resolve_injectable-Grows C rc rc-Grows i cs) g x)
        (injectable-Steady i cs low g x) (λ refs. refs-Steady ref i refs))

  each-Steady :
      (ref : Ref) (cs : List BindContext) (is : List Injectable)
      → All (Below f rank r) is
      → Steady f (inject_each C rc ref cs is)
  unfolding inject_each
  each-Steady ref cs [] low g x = ok-Ends tt
  each-Steady ref cs (i ∷ is) (low, rest) g x =
      Steady-continue f (inject_one C rc ref cs i g) _
        (after f (inject_one C rc ref cs i) (inject_one-Grows C rc rc-Grows ref cs i) g x)
        (one_injected-Steady ref cs i low g x) (λ _. each-Steady ref cs is rest)

  pub inject-Steady :
      (ref : Ref) (cs : List BindContext)
      → C.after_injection ref.class_uuid ≢ err no_fuel
      → All (Below f rank r) (C.injectables ref.class_uuid)
      → Steady f (inject_with C rc ref cs)
  unfolding inject_with notify
  inject-Steady ref cs notified low g x =
      Steady-continue f (inject_each C rc ref cs (C.injectables ref.class_uuid) g) _
        (after f (inject_each C rc ref cs (C.injectables ref.class_uuid))
          (inject_each-Grows C rc rc-Grows ref cs (C.injectables ref.class_uuid)) g x)
        (each-Steady ref cs (C.injectables ref.class_uuid) low g x) (λ _ h y. notified)
