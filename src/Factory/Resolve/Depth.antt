-- ===== src/Factory/Resolve/Depth.antt =====
-- How deep the calls of src/Factory.cpp nest: a component may be ranked above all that it can be
-- injected with.
pub mod Steady
pub mod Calls
pub mod Enough
use xpcf.Base.{
  ℕ, zero, suc, ◌≡◌, ◌≢◌, ◌<◌, refl, sym, ◌∙◌, ap, arith, String, Bool, true, false, List, [], ◌∷◌,
  Option, none, some, nat_eq, All, string_keys, nat_keys, named_keys, inl, inr, Bool-cases,
  Option-cases,
}
use xpcf.Map
use xpcf.Map.{Map}
use xpcf.Exec.{Result, ok, err, Exec, no_fuel, continue, or_throw, injectable_not_found}
use xpcf.Factory.{BindInfos, BindContext, Ref, Factory}
use xpcf.Factory.Lookup.{resolve_bind, resolve_bind_named, back_has}
use xpcf.Factory.Lookup.Visible.{resolve_bind_lem, resolve_bind_named_lem}
use xpcf.Factory.Lookup.Sources.{
  Source, by_specific, by_default, by_auto, by_core, NamedSource, by_specific_name, by_name,
  by_interface,
}
use xpcf.Factory.Resolve.{Injectable, Components, M, make, call_core, create}
use xpcf.Factory.Resolve.Extends.{Extends}

-- No call of the components' code throws what the model throws in place of going on.
pub record Marked (C : Components) : Type 0 where
  pub of_call : (m : C.Method) → C.call m ≢ err no_fuel
  pub of_module : (u : ℕ) → C.from_module u ≢ err no_fuel
  pub of_configure :
      (u : ℕ) (path : String) (name : Option String) → C.configure u path name ≢ err no_fuel
  pub of_injection : (u : ℕ) → C.after_injection u ≢ err no_fuel

-- The bindings that an injectable may resolve to are of rank less than r.
pub record Below {Method : Type 0} (f : Factory Method) (rank : ℕ → ℕ) (r : ℕ) (i : Injectable)
    : Type 0 where
  pub one : (b : BindInfos) → Source f i.uuid b → rank b.component_uuid < r
  pub named :
      (name : String) (b : BindInfos)
      → i.name ≡ some name
      → NamedSource f i.uuid name b
      → rank b.component_uuid < r
  pub listed :
      (bs : List BindInfos)
      → Map.lookup f.context.multi_bindings i.uuid ≡ some bs
      → All (λ b. rank b.component_uuid < r) bs

-- The class of an object that the factory may make for a component.
pub data Makes (C : Components) (f : Factory C.Method) (component u : ℕ) : Type 0 where
  by_core_method :
      (m : C.Method)
      → Map.lookup f.core_factory_methods component ≡ some (some m)
      → C.call m ≡ ok u
      → Makes C f component u
  by_method :
      (m : C.Method)
      → Map.lookup f.context.factory_methods component ≡ some m
      → C.call m ≡ ok u
      → Makes C f component u
  by_module :
      Map.lookup f.context.factory_methods component ≡ none
      → C.from_module component ≡ ok u
      → Makes C f component u

-- What a component is injected with has a lower rank than the component.
pub record Ranked (C : Components) (f : Factory C.Method) (rank : ℕ → ℕ) : Type 0 where
  pub below :
      (component u : ℕ)
      → Makes C f component u
      → All (Below f rank (rank component)) (C.injectables u)

-- The call does not end for want of fuel.
abbrev pub Ends : {A S : Type 0} → Result A × S → Type 0
Ends p = p.0 ≢ err no_fuel

pub ok-Ends : {A : Type 0} (a : A) → ok a ≢ err no_fuel
ok-Ends a q = cc q

module _ {Method : Type 0} {f g : Factory Method} (x : Extends f g) where
  pub Source-back : {i : ℕ} {b : BindInfos} → Source g i b → Source f i b
  Source-back (by_specific c h) = by_specific c (rw x.same_context at h)
  Source-back (by_default h) = by_default (rw x.same_context at h)
  Source-back (by_auto h) = by_auto (rw x.same_context at h)
  Source-back (by_core h) = by_core (rw x.same_core at h)

  pub NamedSource-back :
      {i : ℕ} {name : String} {b : BindInfos} → NamedSource g i name b → NamedSource f i name b
  NamedSource-back (by_specific_name c h) = by_specific_name c (rw x.same_context at h)
  NamedSource-back (by_name h) = by_name (rw x.same_context at h)
  NamedSource-back (by_interface s) = by_interface (Source-back s)

module _ {Method : Type 0} (f : Factory Method) where
  or_throw-marked : (o : Option BindInfos) → or_throw o injectable_not_found ≢ err no_fuel
  or_throw-marked none q = cc q
  or_throw-marked (some b) q = cc q

  pub resolve_bind-marked : (i : ℕ) (cs : List BindContext) → resolve_bind f i cs ≢ err no_fuel
  resolve_bind-marked i cs = rw (resolve_bind_lem f i cs) (or_throw-marked _)

  pub resolve_bind_named-marked :
      (i : ℕ) (name : String) (cs : List BindContext) → resolve_bind_named f i name cs ≢ err no_fuel
  resolve_bind_named-marked i name cs q =
      ground (arith, resolve_bind_named_lem f i name cs, resolve_bind-marked i cs, q)

module _ (C : Components) (marked : Marked C) where
  -- What a successful `createComponent` made, and that it does not run out.
  abbrev pub Made : Factory C.Method → ℕ → Result Ref → Type 0
  Made f component (ok r) = Makes C f component r.class_uuid
  Made f component (err e) = e ≢ no_fuel

  make-Made :
      (f g : Factory C.Method) (component : ℕ) (r : Result ℕ)
      → ((u : ℕ) → r ≡ ok u → Makes C f component u)
      → r ≢ err no_fuel
      → Made f component (make C r g).0
  unfolding make
  make-Made f g component (ok u) h n = h u refl
  make-Made f g component (err e) h n = λ q. n (ap err q)

  call_core-Made :
      (f g : Factory C.Method) (component : ℕ)
      → Extends f g
      → Made f component (call_core C component g).0
  unfolding call_core
  call_core-Made f g component x =
      elim (Option-cases (Map.lookup g.core_factory_methods component)) [
        | inl e ↦ rw (e, call_core) (λ q. cc q)
        | inr (none, e) ↦ rw (e, call_core) (λ q. cc q)
        | inr (some m, e) ↦
            rw (e, call_core)
              (make-Made f g component (C.call m)
                (λ u h. by_core_method m (x.methods component m e) h) (marked.of_call m))
      ]

  pub create-Made :
      (f g : Factory C.Method) (b : BindInfos)
      → Extends f g
      → Made f b.component_uuid (create C b g).0
  unfolding create
  create-Made f g b x = elim (Bool-cases (nat_eq b.binding_range_mask 0)) [
    | inl c ↦ rw c (call_core-Made f g b.component_uuid x)
    | inr c ↦ elim (Option-cases (Map.lookup g.context.factory_methods b.component_uuid)) [
      | inl e ↦
          rw (c, e)
            (make-Made f g b.component_uuid (C.from_module b.component_uuid)
              (λ u h. by_module (rw x.same_context at e) h) (marked.of_module _))
      | inr (m, e) ↦
          rw (c, e)
            (make-Made f g b.component_uuid (C.call m)
              (λ u h. by_method m (rw x.same_context at e) h) (marked.of_call m))
    ]
  ]
