-- ===== src/Factory/Resolve/Nested.antt =====
-- The calls of src/Factory.cpp around `resolveComponent` keep what is shared if it does.
use xpcf.Base.{
  ℕ, String, Bool, true, false, List, [], ◌∷◌, Option, none, some, if◌then◌else◌, string_keys,
  nat_keys, named_keys, inl, inr, Option-cases,
}
use xpcf.Map
use xpcf.Map.{Map, lookup-insert}
use xpcf.Exec.{Result, ok, err, ◌>>=◌, pure}
use xpcf.Factory.{Scope, transient, singleton, BindInfos, BindContext, component_context, Ref}
use xpcf.Factory.Lookup.{resolve_bind, resolve_bind_named}
use xpcf.Factory.Resolve.{
  Injectable, Components, M, resolve_singleton, resolve_core, resolve_named_singleton,
  resolve_infos, resolve_with, resolve_named_infos, resolve_named_with, resolve_multi,
  resolve_multis, resolve_all_with, resolve_injectable, inject_one, inject_each, inject_with,
}
use xpcf.Factory.Resolve.Extends.{
  Extends-refl, Kept-insert, Extends-continue, Grows, Grows-continue,
}
use xpcf.Factory.Resolve.Steps.{notify-Grows, inject_refs-Grows}

module _ (C : Components) where
  open C use {
    Method, call, from_module, implements, injectables, configurable, configure, config_path,
  }

  module _ (rc : BindInfos → List BindContext → M C Ref)
      (rc-Grows : (infos : BindInfos) (cs : List BindContext) → Grows (rc infos cs)) where
    pub resolve_singleton-Grows :
        (infos : BindInfos) (cs : List BindContext) → Grows (resolve_singleton C rc infos cs)
    unfolding resolve_singleton
    resolve_singleton-Grows infos cs f =
        elim (Option-cases (Map.lookup f.singleton_instances infos.component_uuid)) [
          | inr (r, e) ↦ rw (e, resolve_singleton) (Extends-refl f)
          | inl e ↦
              rw (e, resolve_singleton)
                (Extends-continue f (rc infos cs f) _ (rc-Grows infos cs f) (λ r g x. record {
                  same_context = x.same_context;
                  same_core = x.same_core;
                  singletons = Kept-insert infos.component_uuid r e x.singletons;
                  named_singletons = x.named_singletons;
                  cores = x.cores;
                  ids = x.ids;
                  methods = x.methods;
                }))
        ]

    pub resolve_core-Grows :
        (infos : BindInfos) (cs : List BindContext) → Grows (resolve_core C rc infos cs)
    unfolding resolve_core
    resolve_core-Grows infos cs f =
        elim (Option-cases (Map.lookup f.core_instances infos.component_uuid)) [
          | inr (r, e) ↦ rw (e, resolve_core) (Extends-refl f)
          | inl e ↦
              rw (e, resolve_core)
                (Extends-continue f (rc infos cs f) _ (rc-Grows infos cs f) (λ r g x. record {
                  same_context = x.same_context;
                  same_core = x.same_core;
                  singletons = x.singletons;
                  named_singletons = x.named_singletons;
                  cores = Kept-insert infos.component_uuid r e x.cores;
                  ids = x.ids;
                  methods = x.methods;
                }))
        ]

    pub resolve_named_singleton-Grows :
        (name : String) (infos : BindInfos) (cs : List BindContext)
        → Grows (resolve_named_singleton C rc name infos cs)
    unfolding resolve_named_singleton
    resolve_named_singleton-Grows name infos cs f =
        elim (Option-cases (Map.lookup f.named_singleton_instances (infos.component_uuid, name))) [
          | inr (r, e) ↦ rw (e, resolve_named_singleton) (Extends-refl f)
          | inl e ↦
              rw (e, resolve_named_singleton)
                (Extends-continue f (rc infos cs f) _ (rc-Grows infos cs f) (λ r g x. record {
                  same_context = x.same_context;
                  same_core = x.same_core;
                  singletons = x.singletons;
                  named_singletons =
                      Kept-insert (infos.component_uuid, name) r e x.named_singletons;
                  cores = x.cores;
                  ids = x.ids;
                  methods = x.methods;
                }))
        ]

    scoped-Grows :
        {A : Type 0} (s : Scope) (m n : M C A)
        → Grows m
        → Grows n
        → Grows (elim s [ transient ↦ m | singleton ↦ n ])
    scoped-Grows transient m n hm hn = hm
    scoped-Grows singleton m n hm hn = hn

    choose-Grows :
        {A : Type 0} (b : Bool) (m n : M C A) → Grows m → Grows n → Grows (if b then m else n)
    choose-Grows true m n hm hn = hm
    choose-Grows false m n hm hn = hn

    pub resolve_infos-Grows :
        (infos : BindInfos) (cs : List BindContext) → Grows (resolve_infos C rc infos cs)
    unfolding resolve_infos
    resolve_infos-Grows infos cs =
        scoped-Grows infos.scope _ _ (rc-Grows infos cs)
          (choose-Grows _ _ _ (resolve_core-Grows infos cs) (resolve_singleton-Grows infos cs))

    bound-Grows :
        (r : Result BindInfos) (k : BindInfos → M C Ref)
        → ((infos : BindInfos) → Grows (k infos))
        → Grows {Method = Method} {A = Ref}
            (λ f. elim r [ err e ↦ (err e, f) | ok infos ↦ k infos f ])
    bound-Grows (ok infos) k h f = h infos f
    bound-Grows (err e) k h f = Extends-refl f

    pub resolve_with-Grows : (i : ℕ) (cs : List BindContext) → Grows (resolve_with C rc i cs)
    unfolding resolve_with
    resolve_with-Grows i cs f =
        bound-Grows (resolve_bind f i cs)
          (λ infos. resolve_infos C rc infos ((component_context, infos) ∷ cs))
          (λ infos. resolve_infos-Grows infos ((component_context, infos) ∷ cs)) f

    pub resolve_named_infos-Grows :
        (name : String) (infos : BindInfos) (cs : List BindContext)
        → Grows (resolve_named_infos C rc name infos cs)
    unfolding resolve_named_infos
    resolve_named_infos-Grows name infos cs =
        scoped-Grows infos.scope _ _ (rc-Grows infos cs)
          (resolve_named_singleton-Grows name infos cs)

    pub resolve_named_with-Grows :
        (i : ℕ) (name : String) (cs : List BindContext) → Grows (resolve_named_with C rc i name cs)
    unfolding resolve_named_with
    resolve_named_with-Grows i name cs f =
        bound-Grows (resolve_bind_named f i name cs)
          (λ infos. resolve_named_infos C rc name infos ((component_context, infos) ∷ cs))
          (λ infos. resolve_named_infos-Grows name infos ((component_context, infos) ∷ cs)) f

    one-Grows : (m : M C Ref) → Grows m → Grows (do ref ← m; pure (ref ∷ []))
    one-Grows m h f = Grows-continue f (m f) _ (h f) (λ _ g. Extends-refl g)

    pub resolve_multi-Grows :
        (infos : BindInfos) (cs : List BindContext) → Grows (resolve_multi C rc infos cs)
    unfolding resolve_multi
    resolve_multi-Grows infos cs =
        scoped-Grows infos.scope _ _ (one-Grows (rc infos cs) (rc-Grows infos cs)) (λ f.
          Grows-continue f (resolve_singleton C rc infos cs f) _
            (resolve_singleton-Grows infos cs f)
            (λ _ g.
              Grows-continue g (rc infos cs g) _ (rc-Grows infos cs g) (λ _ h. Extends-refl h)))

    pub resolve_multis-Grows :
        (binds : List BindInfos) (cs : List BindContext) → Grows (resolve_multis C rc binds cs)
    unfolding resolve_multis
    resolve_multis-Grows [] cs f = Extends-refl f
    resolve_multis-Grows (infos ∷ rest) cs f =
        Grows-continue f (resolve_multi C rc infos _ f) _ (resolve_multi-Grows infos _ f) (λ _ g.
          Grows-continue g (resolve_multis C rc rest _ g) _ (resolve_multis-Grows rest _ g)
            (λ _ h. Extends-refl h))

    pub resolve_all_with-Grows :
        (i : ℕ) (cs : List BindContext) → Grows (resolve_all_with C rc i cs)
    unfolding resolve_all_with
    resolve_all_with-Grows i cs f = elim (Option-cases (Map.lookup f.context.multi_bindings i)) [
      | inl e ↦
          rw (e, resolve_all_with) (one-Grows (resolve_with C rc i cs) (resolve_with-Grows i cs) f)
      | inr (binds, e) ↦ rw (e, resolve_all_with) (resolve_multis-Grows binds cs f)
    ]

    pub resolve_injectable-Grows :
        (i : Injectable) (cs : List BindContext) → Grows (resolve_injectable C rc i cs)
    unfolding resolve_injectable
    resolve_injectable-Grows i cs =
        choose-Grows i.multi _ _ (resolve_all_with-Grows i.uuid cs) (go i.name)
      where
        go :
            (o : Option String)
            → Grows (elim o [
              | some name ↦ (do ref ← resolve_named_with C rc i.uuid name cs; pure (ref ∷ []))
              | none ↦ (do ref ← resolve_with C rc i.uuid cs; pure (ref ∷ []))
            ])
        go none = one-Grows (resolve_with C rc i.uuid cs) (resolve_with-Grows i.uuid cs)
        go (some name) =
            one-Grows (resolve_named_with C rc i.uuid name cs)
              (resolve_named_with-Grows i.uuid name cs)

    pub inject_one-Grows :
        (ref : Ref) (cs : List BindContext) (i : Injectable) → Grows (inject_one C rc ref cs i)
    unfolding inject_one
    inject_one-Grows ref cs i f =
        Grows-continue f (resolve_injectable C rc i cs f) _ (resolve_injectable-Grows i cs f)
          (λ refs. inject_refs-Grows C ref i refs)

    pub inject_each-Grows :
        (ref : Ref) (cs : List BindContext) (is : List Injectable)
        → Grows (inject_each C rc ref cs is)
    unfolding inject_each
    inject_each-Grows ref cs [] f = Extends-refl f
    inject_each-Grows ref cs (i ∷ is) f =
        Grows-continue f (inject_one C rc ref cs i f) _ (inject_one-Grows ref cs i f)
          (λ _. inject_each-Grows ref cs is)

    pub inject_with-Grows : (ref : Ref) (cs : List BindContext) → Grows (inject_with C rc ref cs)
    unfolding inject_with
    inject_with-Grows ref cs f =
        Grows-continue f (inject_each C rc ref cs (injectables ref.class_uuid) f) _
          (inject_each-Grows ref cs (injectables ref.class_uuid) f) (λ _. notify-Grows C ref)
