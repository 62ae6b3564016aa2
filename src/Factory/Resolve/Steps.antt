-- ===== src/Factory/Resolve/Steps.antt =====
-- The steps of `resolveComponent` in src/Factory.cpp that resolve nothing keep what is shared.
use xpcf.Base.{
  ℕ, Bool, true, false, List, none, some, ◌+◌, nat_eq, nat_eq_iff, string_keys, nat_keys,
  named_keys, arith, inl, inr, Bool-cases, Option-cases,
}
use xpcf.Map
use xpcf.Map.{Map, lookup-insert}
use xpcf.Exec.{Result, ok, err, configuration}
use xpcf.Factory.{BindInfos, Ref, Event, Factory}
use xpcf.Factory.Resolve.{
  Injectable, Components, make, emit, notify, call_core, create, configure_component, implement_all,
  inject_refs,
}
use xpcf.Factory.Resolve.Extends.{Extends, Extends-refl, Grows, Extends-fields}

module _ (C : Components) where
  open C use {
    Method, call, from_module, implements, injectables, configurable, configure, config_path,
  }

  pub make-Grows : (r : Result ℕ) → Grows (make C r)
  unfolding make
  make-Grows (err e) f = Extends-refl f
  make-Grows (ok u) f =
      Extends-fields f f.core_factory_methods (f.next_id + 1) _ (omega arith) (λ k m h. h)

  pub emit-Grows : (e : Event) → Grows (emit C e)
  unfolding emit
  emit-Grows e f = Extends-fields f f.core_factory_methods f.next_id _ (omega arith) (λ k m h. h)

  pub notify-Grows : (ref : Ref) → Grows (notify C ref)
  unfolding notify
  notify-Grows ref f =
      Extends-fields f f.core_factory_methods f.next_id _ (omega arith) (λ k m h. h)

  pub call_core-Grows : (u : ℕ) → Grows (call_core C u)
  unfolding call_core
  call_core-Grows u f = elim (Option-cases (Map.lookup f.core_factory_methods u)) [
    | inl e ↦
        rw (e, call_core)
          (Extends-fields f _ f.next_id f.events (omega arith) (λ k m h.
            ground (arith, lookup-insert f.core_factory_methods u k none, nat_eq_iff u k, h)))
    | inr (some method, e) ↦ rw (e, call_core) (make-Grows (call method) f)
    | inr (none, e) ↦ rw (e, call_core) (Extends-refl f)
  ]

  pub create-Grows : (infos : BindInfos) → Grows (create C infos)
  unfolding create
  create-Grows infos f = elim (Bool-cases (nat_eq infos.binding_range_mask 0)) [
    | inl c ↦ rw c (call_core-Grows infos.component_uuid f)
    | inr c ↦ elim (Option-cases (Map.lookup f.context.factory_methods infos.component_uuid)) [
      | inl e ↦ rw (c, e) (make-Grows (from_module infos.component_uuid) f)
      | inr (method, e) ↦ rw (c, e) (make-Grows (call method) f)
    ]
  ]

  configure_end-Grows :
      (r : Result Bool) (e : Event) (f : Factory Method)
      → let end : Result (Unit {0}) × Factory Method = elim r [
        | err x ↦ (err x, f)
        | ok false ↦ (err configuration, f)
        | ok true ↦ emit C e f
      ] in
        Extends f end.1
  configure_end-Grows (err x) e f = Extends-refl f
  configure_end-Grows (ok false) e f = Extends-refl f
  configure_end-Grows (ok true) e f = emit-Grows e f

  pub configure_component-Grows :
      (infos : BindInfos) (ref : Ref) → Grows (configure_component C infos ref)
  unfolding configure_component
  configure_component-Grows infos ref f = elim (Bool-cases (configurable ref.class_uuid)) [
    | inr c ↦ rw c (Extends-refl f)
    | inl c ↦ elim (Option-cases (config_path infos.component_uuid)) [
      | inl e ↦ rw (c, e) (Extends-refl f)
      | inr (path, e) ↦ rw (c, e) (configure_end-Grows (configure ref.class_uuid path _) _ f)
    ]
  ]

  pub inject_refs-Grows :
      (ref : Ref) (i : Injectable) (rs : List Ref) → Grows (inject_refs C ref i rs)
  unfolding inject_refs
  inject_refs-Grows ref i rs f = elim (Bool-cases (implement_all C i.uuid rs)) [
    | inl c ↦ rw c (emit-Grows _ f)
    | inr c ↦ rw c (Extends-refl f)
  ]
