-- ===== src/Factory/Resolve/Depth/Enough.antt =====
-- Resolutions of src/Factory.cpp end, if no component depends on itself.
use xpcf.Base.{
  ℕ, zero, suc, ◌≡◌, ◌≢◌, ◌<◌, arith, Bool, true, false, List, [], some, string_keys, All, nat_keys,
  inl, inr, Option-cases, Bool-cases,
}
use xpcf.Map
use xpcf.Exec.{Result, ok, err, no_fuel, continue, configuration}
use xpcf.Factory.{BindInfos, BindContext, Ref, Factory, Event}
use xpcf.Factory.Lookup.Sources.{Source}
use xpcf.Factory.Resolve.{
  Components, M, create, inject_with, configure_component, resolve_component, resolve, resolve_all,
  emit,
}
use xpcf.Factory.Resolve.Extends.{Extends, Extends-refl, Extends-trans, Grows}
use xpcf.Factory.Resolve.Steps.{create-Grows, configure_component-Grows}
use xpcf.Factory.Resolve.Nested.{inject_with-Grows}
use xpcf.Factory.Resolve.Stable.{resolve_component-Grows}
use xpcf.Factory.Resolve.Depth.{Marked, Ranked, Ends, ok-Ends, Made, create-Made}
use xpcf.Factory.Resolve.Depth.Steady.{Steady, Steady-continue}
use xpcf.Factory.Resolve.Depth.Calls.{resolve_with-Steady, resolve_all_with-Steady, inject-Steady}

module _ (C : Components) (marked : Marked C) (f : Factory C.Method) (rank : ℕ → ℕ)
    (ranked : Ranked C f rank) where
  configure_end-Ends :
      (q : Result Bool) (e : Event) (g : Factory C.Method)
      → q ≢ err no_fuel
      → let end : Result (Unit {0}) × Factory C.Method = elim q [
        | err x ↦ (err x, g)
        | ok false ↦ (err configuration, g)
        | ok true ↦ emit C e g
      ] in
        Ends end
  unfolding emit
  configure_end-Ends (err x) e g h = λ q. h (ground (arith, q))
  configure_end-Ends (ok false) e g h = λ q. cc q
  configure_end-Ends (ok true) e g h = λ q. cc q

  configure-Steady : (b : BindInfos) (ref : Ref) → Steady f (configure_component C b ref)
  unfolding configure_component
  configure-Steady b ref g x = elim (Bool-cases (C.configurable ref.class_uuid)) [
    | inr c ↦ rw c (ok-Ends tt)
    | inl c ↦ elim (Option-cases (C.config_path b.component_uuid)) [
      | inl e ↦ rw (c, e) (ok-Ends tt)
      | inr (path, e) ↦
          rw (c, e)
            (configure_end-Ends (C.configure ref.class_uuid path _) _ g
              (marked.of_configure _ path _))
    ]
  ]

  -- The rest of `resolveComponent`, after `createComponent`.
  component-Ends :
      (rc : BindInfos → List BindContext → M C Ref)
      → ((d : BindInfos) (ds : List BindContext) → Grows (rc d ds))
      → (b : BindInfos) (cs : List BindContext)
      → ((d : BindInfos) (ds : List BindContext)
          → rank d.component_uuid < rank b.component_uuid
          → Steady f (rc d ds))
      → (p : Result Ref × Factory C.Method) → Extends f p.1
      → Made C marked f b.component_uuid p.0
      → Ends (
          continue p (λ ref g.
            continue
              (inject_with C rc ref cs g)
              (λ _ h. continue (configure_component C b ref h) (λ _ k. (ok ref, k)))))
  component-Ends rc grows b cs lower (err e, h) y made = λ q. made (ground (arith, q))
  component-Ends rc grows b cs lower (ok ref, h) y made =
      Steady-continue f (inject_with C rc ref cs h) _
        (Extends-trans y (inject_with-Grows C rc grows ref cs h))
        (inject-Steady C f rank (rank b.component_uuid) rc grows lower ref cs
          (marked.of_injection ref.class_uuid) (ranked.below b.component_uuid ref.class_uuid made) h
          y)
        (λ _ k z.
          Steady-continue f (configure_component C b ref k) _
            (Extends-trans z (configure_component-Grows C b ref k)) (configure-Steady b ref k z)
            (λ _ l w. ok-Ends ref))

  pub resolve_component-Steady :
      (fuel : ℕ) (b : BindInfos) (cs : List BindContext)
      → rank b.component_uuid < fuel
      → Steady f (resolve_component C fuel b cs)
  unfolding resolve_component
  resolve_component-Steady zero b cs low g x = absurd (omega arith)
  resolve_component-Steady (suc fuel) b cs low g x =
      component-Ends (resolve_component C fuel) (resolve_component-Grows C fuel) b cs
        (λ d ds lower. resolve_component-Steady fuel d ds (omega arith)) (create C b g)
        (Extends-trans x (create-Grows C b g)) (create-Made C marked f g b x)

  -- A resolution ends, with a component or an exception of the program, if the components can be
  -- ranked so that what a component may be injected with has a lower rank, and the number that counts
  -- the nested calls down is greater than the rank of what the interface may resolve to.
  pub resolve-Ends :
      (fuel i : ℕ)
      → ((b : BindInfos) → Source f i b → rank b.component_uuid < fuel)
      → (resolve C fuel i f).0 ≢ err no_fuel
  unfolding resolve
  resolve-Ends fuel i low =
      resolve_with-Steady C f rank fuel (resolve_component C fuel) (resolve_component-Grows C fuel)
        (resolve_component-Steady fuel) i [] low f (Extends-refl f)

  -- In the same way `resolveAll` ends.
  pub resolve_all-Ends :
      (fuel i : ℕ)
      → ((b : BindInfos) → Source f i b → rank b.component_uuid < fuel)
      → ((bs : List BindInfos)
          → Map.lookup f.context.multi_bindings i ≡ some bs
          → All (λ b. rank b.component_uuid < fuel) bs)
      → (resolve_all C fuel i f).0 ≢ err no_fuel
  unfolding resolve_all
  resolve_all-Ends fuel i low listed =
      resolve_all_with-Steady C f rank fuel (resolve_component C fuel)
        (resolve_component-Grows C fuel) (λ b cs. resolve_component-Steady fuel b cs) i [] low
        listed f (Extends-refl f)
