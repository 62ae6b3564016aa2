-- ===== src/Factory/Resolve/Shared.antt =====
-- Singletons and transient components of src/Factory.cpp over a history of resolutions.
use xpcf.Base.{
  ℕ, zero, suc, String, false, ◌≡◌, ◌∙◌, List, [], ◌∷◌, none, some, ◌<◌, nat_eq, nat_keys, arith,
  inl, inr, Option-cases, Bool-cases,
}
use xpcf.Map
use xpcf.Map.{Map, lookup-insert_self}
use xpcf.Exec.{Result, ok, err, continue}
use xpcf.Factory.{transient, singleton, BindInfos, BindContext, component_context, Ref, Factory}
use xpcf.Factory.Lookup.{resolve_bind}
use xpcf.Factory.Lookup.Visible.{resolve_bind-cong}
use xpcf.Factory.Resolve.{
  Components, M, make, call_core, create, resolve_singleton, resolve_infos, resolve_with,
  resolve_component, resolve, resolve_named, resolve_all, inject_with, configure_component,
}
use xpcf.Factory.Resolve.Extends.{Extends, Extends-refl, Extends-trans}
use xpcf.Factory.Resolve.Nested.{inject_with-Grows}
use xpcf.Factory.Resolve.Steps.{configure_component-Grows}
use xpcf.Factory.Resolve.Stable.{
  resolve_component-Grows, resolve-Extends, resolve_named-Extends, resolve_all-Extends,
}

-- What a client asks of the factory, in order; whatever is thrown, it goes on.
pub data Request : Type 0 where
  resolves : ℕ → Request
  resolves_named : ℕ → String → Request
  resolves_all : ℕ → Request

module _ (C : Components) where
  open C use {Method}

  pub after : ℕ → Request → Factory Method → Factory Method
  after fuel (resolves i) f = (resolve C fuel i f).1
  after fuel (resolves_named i name) f = (resolve_named C fuel i name f).1
  after fuel (resolves_all i) f = (resolve_all C fuel i f).1

  unfoldable pub after_all : ℕ → List Request → Factory Method → Factory Method
  unfolding after
  after_all fuel [] f = f
  after_all fuel (r ∷ rs) f = after_all fuel rs (after fuel r f)

  after-Extends : (fuel : ℕ) (r : Request) (f : Factory Method) → Extends f (after fuel r f)
  unfolding after
  after-Extends fuel (resolves i) f = resolve-Extends C fuel i f
  after-Extends fuel (resolves_named i name) f = resolve_named-Extends C fuel i name f
  after-Extends fuel (resolves_all i) f = resolve_all-Extends C fuel i f

  pub after_all-Extends :
      (fuel : ℕ) (rs : List Request) (f : Factory Method) → Extends f (after_all fuel rs f)
  unfolding after_all
  after_all-Extends fuel [] f = Extends-refl f
  after_all-Extends fuel (r ∷ rs) f =
      Extends-trans (after-Extends fuel r f) (after_all-Extends fuel rs (after fuel r f))

  -- The interface is bound to that component, shared and not by a core binding.
  pub record SharedBind (f : Factory Method) (i component : ℕ) : Type 0 where
    pub infos : BindInfos
    pub bound : resolve_bind f i [] ≡ ok infos
    pub shared : infos.scope ≡ singleton
    pub not_core : nat_eq infos.binding_range_mask 0 ≡ false
    pub to_component : infos.component_uuid ≡ component

  stored :
      (p : Result Ref × Factory Method) (u : ℕ) {r : Ref}
      → let q : Result Ref × Factory Method = continue p (λ ref g.
        (ok ref, record g { singleton_instances = Map.insert g.singleton_instances u ref })) in
        q.0 ≡ ok r → Map.lookup q.1.singleton_instances u ≡ some r
  stored (ok a, g) u h = ground (arith, lookup-insert_self g.singleton_instances u a)
  stored (err e, g) u h = cc

  singleton_entry :
      (rc : BindInfos → List BindContext → M C Ref) (infos : BindInfos) (cs : List BindContext)
      (f : Factory Method) {r : Ref}
      → (resolve_singleton C rc infos cs f).0 ≡ ok r
      → Map.lookup (resolve_singleton C rc infos cs f).1.singleton_instances infos.component_uuid
        ≡ some r
  unfolding resolve_singleton
  singleton_entry rc infos cs f h =
      elim (Option-cases (Map.lookup f.singleton_instances infos.component_uuid)) [
        | inl e ↦
            rw (e, resolve_singleton)
              (stored (rc infos cs f) infos.component_uuid (rw (e, resolve_singleton) at h))
        | inr (s, e) ↦
            rw (e, resolve_singleton) (e ∙ (ground (arith, rw (e, resolve_singleton) at h)))
      ]

  -- What a shared binding makes of `resolve`.
  shared_lem :
      (fuel i component : ℕ) (f : Factory Method) (b : SharedBind f i component)
      → resolve C fuel i f
        ≡ resolve_singleton C
            (resolve_component C fuel)
            b.infos
            ((component_context, b.infos) ∷ [])
            f
  unfolding resolve resolve_with resolve_infos
  shared_lem fuel i component f b = ground (arith, b.bound, b.shared, b.not_core)

  known_lem :
      (fuel i component : ℕ) (f : Factory Method) (b : SharedBind f i component) {r : Ref}
      → Map.lookup f.singleton_instances component ≡ some r
      → resolve C fuel i f ≡ (ok r, f)
  unfolding resolve_singleton
  known_lem fuel i component f b h =
      shared_lem fuel i component f b ∙ rw (b.to_component, h, resolve_singleton)

  SharedBind-Extends :
      {f g : Factory Method} {i component : ℕ}
      → Extends f g
      → SharedBind f i component
      → SharedBind g i component
  SharedBind-Extends {f} {g} {i} x b = record {
    infos = b.infos;
    bound = resolve_bind-cong f g i [] x.same_context x.same_core ∙ b.bound;
    shared = b.shared;
    not_core = b.not_core;
    to_component = b.to_component;
  }

  -- `resolve` without a name makes a singleton once: where an interface is bound to a component as a
  -- singleton, not from the core, and such a call has returned an object, every later call of `resolve`
  -- without a name, for any interface that is bound to the component in this way, returns that same
  -- object and changes nothing. In between, anything may have been resolved, with a name, by
  -- `resolveAll` or without, and may have ended in any way.
  pub singleton_shared :
      (fuel later i j component : ℕ) (rs : List Request) (f : Factory Method) {r : Ref}
      → SharedBind f i component
      → SharedBind f j component
      → (resolve C fuel i f).0 ≡ ok r
      → let g = after_all later rs (resolve C fuel i f).1 in resolve C later j g ≡ (ok r, g)
  singleton_shared fuel later i j component rs f {r} b d h =
      known_lem later j component _ (SharedBind-Extends grown d)
        (grown_after.singletons.at component entry)
    where
      grown_after : Extends (resolve C fuel i f).1 (after_all later rs (resolve C fuel i f).1)
      grown_after = after_all-Extends later rs (resolve C fuel i f).1

      grown : Extends f (after_all later rs (resolve C fuel i f).1)
      grown = Extends-trans (resolve-Extends C fuel i f) grown_after

      entry : Map.lookup (resolve C fuel i f).1.singleton_instances component ≡ some r
      entry =
          let e = shared_lem fuel i component f b in
          let h' = singleton_entry (resolve_component C fuel) b.infos _ f (rw e at h) in
          rw (e, ← b.to_component) h'

  -- A result that is an object made at that moment.
  abbrev Fresh : Factory Method → Result Ref × Factory Method → Type 0
  Fresh f (ok r, g) = (r.id ≡ f.next_id) × (f.next_id < g.next_id)
  Fresh f (err e, g) = Unit

  Fresh-make : (r : Result ℕ) (f : Factory Method) → Fresh f (make C r f)
  unfolding make
  Fresh-make (ok u) f = omega arith
  Fresh-make (err e) f = tt

  Fresh-call_core : (u : ℕ) (f : Factory Method) → Fresh f (call_core C u f)
  unfolding call_core
  Fresh-call_core u f = elim (Option-cases (Map.lookup f.core_factory_methods u)) [
    | inl e ↦ rw (e, call_core) tt
    | inr (some method, e) ↦ rw (e, call_core) (Fresh-make (C.call method) f)
    | inr (none, e) ↦ rw (e, call_core) tt
  ]

  Fresh-create : (infos : BindInfos) (f : Factory Method) → Fresh f (create C infos f)
  unfolding create
  Fresh-create infos f = elim (Bool-cases (nat_eq infos.binding_range_mask 0)) [
    | inl c ↦ rw c (Fresh-call_core infos.component_uuid f)
    | inr c ↦ elim (Option-cases (Map.lookup f.context.factory_methods infos.component_uuid)) [
      | inl e ↦ rw (c, e, create) (Fresh-make (C.from_module infos.component_uuid) f)
      | inr (method, e) ↦ rw (c, e, create) (Fresh-make (C.call method) f)
    ]
  ]

  Fresh-later :
      {A : Type 0} (f : Factory Method) (r : Ref) (p : Result A × Factory Method) (k : A → M C Ref)
      → (r.id ≡ f.next_id) × (f.next_id < p.1.next_id)
      → ((a : A) (g : Factory Method)
          → (r.id ≡ f.next_id) × (f.next_id < g.next_id)
          → Fresh f (k a g))
      → Fresh f (continue p k)
  Fresh-later f r (ok a, g) k h next = next a g h
  Fresh-later f r (err e, g) k h next = tt

  Fresh-component :
      (fuel : ℕ) (infos : BindInfos) (cs : List BindContext) (f : Factory Method)
      → Fresh f (resolve_component C fuel infos cs f)
  unfolding resolve_component
  Fresh-component zero infos cs f = tt
  Fresh-component (suc fuel) infos cs f = go (create C infos f) (Fresh-create infos f)
    where
      go :
          (p : Result Ref × Factory Method)
          → Fresh f p
          → Fresh f (
              continue p (λ ref g.
                continue
                  (inject_with C (resolve_component C fuel) ref cs g)
                  (λ _ h. continue (configure_component C infos ref h) (λ _ k. (ok ref, k)))))
      go (err e, g) h = tt
      go (ok r, g) h =
          let x =
            inject_with-Grows C (resolve_component C fuel) (resolve_component-Grows C fuel) r cs
              g in
          Fresh-later f r (inject_with C (resolve_component C fuel) r cs g) _ (omega arith)
            (λ _ k h'.
              let y = configure_component-Grows C infos r k in
              Fresh-later f r (configure_component C infos r k) _ (omega arith) (λ _ l h''. h''))

  -- What a transient binding makes of `resolve`.
  transient_lem :
      (fuel i : ℕ) (f : Factory Method) (infos : BindInfos)
      → resolve_bind f i [] ≡ ok infos
      → infos.scope ≡ transient
      → resolve C fuel i f ≡ resolve_component C fuel infos ((component_context, infos) ∷ []) f
  unfolding resolve resolve_with resolve_infos
  transient_lem fuel i f infos b t = ground (arith, b, t)

  -- A transient component is a new object at each resolution: two resolutions of an interface that is
  -- bound with transient scope return different objects, whatever has been resolved in between.
  pub transient_fresh :
      (fuel later i : ℕ) (rs : List Request) (f : Factory Method) (infos : BindInfos) {r s : Ref}
      → resolve_bind f i [] ≡ ok infos
      → infos.scope ≡ transient
      → (resolve C fuel i f).0 ≡ ok r
      → (resolve C later i (after_all later rs (resolve C fuel i f).1)).0 ≡ ok s
      → r.id < s.id
  transient_fresh fuel later i rs f infos {r} {s} b t hr hs =
      let g = (resolve C fuel i f).1 in
      let h = after_all later rs g in
      let x = after_all-Extends later rs g in
      let y = Extends-trans (resolve-Extends C fuel i f) x in
      let b' = resolve_bind-cong f h i [] y.same_context y.same_core ∙ b in
      let first = made fuel f (transient_lem fuel i f infos b t) hr in
      let second = made later h (transient_lem later i h infos b' t) hs in
      omega (arith, first, second, x.ids)
    where
      made :
          (n : ℕ) (k : Factory Method) {q : Ref}
          → resolve C n i k ≡ resolve_component C n infos ((component_context, infos) ∷ []) k
          → (resolve C n i k).0 ≡ ok q
          → (q.id ≡ k.next_id) × (k.next_id < (resolve C n i k).1.next_id)
      made n k e h =
          let fresh = Fresh-component n infos ((component_context, infos) ∷ []) k in
          from (resolve C n i k) (rw (← e) at fresh) h
        where
          from :
              (p : Result Ref × Factory Method) {q : Ref}
              → Fresh k p
              → p.0 ≡ ok q
              → (q.id ≡ k.next_id) × (k.next_id < p.1.next_id)
          from (ok a, l) w h = ground (arith, w, h)
          from (err x, l) w h = cc h
