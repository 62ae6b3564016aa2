-- ===== src/Factory/Resolve.antt =====
-- `resolve`, `resolveAll`, `resolveComponent` and `inject` of src/Factory.cpp: components are made,
-- injected with what their injectables resolve to, and configured. The calls nest as deep as the
-- components depend on one another, which a number bounds here.
pub mod Extends
pub mod Steps
pub mod Nested
pub mod Stable
pub mod Shared
pub mod Multi
pub mod Catch
pub mod Bound
pub mod Depth
use xpcf.Base.{
  ℕ, zero, suc, String, Bool, true, false, not, ◌&&◌, List, [], ◌∷◌, ◌++◌, Option, none, some, ◌+◌,
  if◌then◌else◌, nat_eq, ◌==◌, string_keys, nat_keys, named_keys,
}
use xpcf.Map
use xpcf.Map.{Map, map_contains}
use xpcf.Exec.{
  Result, ok, err, Error, Exec, pure, throw, lift, or_throw, ◌>>=◌, ◌>>◌, continue, is_xpcf,
  configuration, injectable_not_found, bad_function_call, interface_not_implemented, no_fuel,
}
use xpcf.Factory.{
  Scope, transient, singleton, BindInfos, BindContext, component_context, FactoryContext, Ref,
  Event, created, injected, on_injected, configured, Factory, range_core,
}
use xpcf.Factory.Lookup.{resolve_bind, resolve_bind_named}

-- `InjectableMetadata` and `Injector`: what a component wants to be injected with.
pub record Injectable : Type 0 where
  pub uuid : ℕ
  pub name : Option String
  pub optional : Bool
  pub multi : Bool

-- What the factory asks of the components' code, of the modules and of the property manager. The
-- components of one class declare the same interfaces and injectables.
pub record Components : Type 1 where
  -- a create function, and the class of the object that a call of it makes
  pub Method : Type 0
  pub call : Method → Result ℕ
  -- resolveFromModule: the class of the object that the component's module makes
  pub from_module : ℕ → Result ℕ
  pub implements : ℕ → ℕ → Bool
  pub injectables : ℕ → List Injectable
  -- implements<IConfigurable>, and what configure returns: whether it is _SUCCESS
  pub configurable : ℕ → Bool
  pub configure : ℕ → String → Option String → Result Bool
  -- getConfigPath, `none` for an empty path
  pub config_path : ℕ → Option String
  -- onInjected, which a class may override: how it ends
  pub after_injection : ℕ → Result (Unit {0})

-- The two `catch` clauses of `inject`.
pub absorb : Bool → Result (Unit {0}) → Result (Unit {0})
absorb optional (ok _) = ok tt
absorb optional (err injectable_not_found) = if optional then ok tt else err injectable_not_found
absorb optional (err e) =
    if is_xpcf e then (if optional then ok tt else err configuration) else err e

module _ (C : Components) where
  open C use {
    Method, call, from_module, implements, injectables, configurable, configure, config_path,
    after_injection,
  }

  abbrev pub M : Type 0 → Type 0
  M A = Exec (Factory Method) A

  -- The object that a create function returns; each call makes another one.
  pub make : Result ℕ → M Ref
  make r f = elim r [
    | err e ↦ (err e, f)
    | ok class_uuid ↦
        let ref : Ref = record { id = f.next_id; class_uuid = class_uuid } in
        (ok ref, record f { next_id = f.next_id + 1; events = created ref ∷ f.events })
  ]

  pub emit : Event → M (Unit {0})
  emit e f = (ok tt, record f { events = e ∷ f.events })

  -- `component->onInjected()`, outside of the `try` of `inject`
  pub notify : Ref → M (Unit {0})
  notify ref f = (after_injection ref.class_uuid, record f { events = on_injected ref ∷ f.events })

  -- A look into `m_coreFactoryMethods` by `operator[]`, which enters an empty function where the key
  -- is missing, and the call of what is there.
  pub call_core : ℕ → M Ref
  unfolding make
  call_core component_uuid f = elim (Map.lookup f.core_factory_methods component_uuid) [
    | some (some method) ↦ make (call method) f
    | some none ↦ (err bad_function_call, f)
    | none ↦ (
      err bad_function_call,
      record f { core_factory_methods = Map.insert f.core_factory_methods component_uuid none },
    )
  ]

  -- The choice of `createComponent` in `resolveComponent`, and its call.
  pub create : BindInfos → M Ref
  unfolding call_core
  create infos f =
      if nat_eq infos.binding_range_mask range_core
      then call_core infos.component_uuid f
      else elim (Map.lookup f.context.factory_methods infos.component_uuid) [
        | some method ↦ make (call method) f
        | none ↦ make (from_module infos.component_uuid) f
      ]

  -- The end of `resolveComponent`.
  pub configure_component : BindInfos → Ref → M (Unit {0})
  unfolding emit
  configure_component infos ref f =
      if not (configurable ref.class_uuid)
      then (ok tt, f)
      else elim (config_path infos.component_uuid) [
        | none ↦ (ok tt, f)
        | some path ↦
            let name : Option String =
              if infos.properties == "" then none else some infos.properties in
            elim (configure ref.class_uuid path name) [
              | err e ↦ (err e, f)
              | ok false ↦ (err configuration, f)
              | ok true ↦ emit (configured ref path name) f
            ]
      ]

  -- `injectable->inject`: each reference is bound to the interface, which throws where the component
  -- does not implement it.
  pub implement_all : ℕ → List Ref → Bool
  implement_all uuid [] = true
  implement_all uuid (r ∷ rs) = implements r.class_uuid uuid && implement_all uuid rs

  pub inject_refs : Ref → Injectable → List Ref → M (Unit {0})
  unfolding emit implement_all
  inject_refs ref injectable rs f =
      if implement_all injectable.uuid rs
      then emit (injected ref injectable.uuid rs) f
      else (err interface_not_implemented, f)

  -- The functions below take `resolveComponent` as an argument.
  module _ (resolve_component : BindInfos → List BindContext → M Ref) where
    -- A singleton is made when it is first asked for.
    pub resolve_singleton : BindInfos → List BindContext → M Ref
    resolve_singleton infos cs f = elim (Map.lookup f.singleton_instances infos.component_uuid) [
      | some ref ↦ (ok ref, f)
      | none ↦ continue (resolve_component infos cs f) (λ ref g. (
        ok ref,
        record g {
          singleton_instances = Map.insert g.singleton_instances infos.component_uuid ref;
        },
      ))
    ]

    pub resolve_core : BindInfos → List BindContext → M Ref
    resolve_core infos cs f = elim (Map.lookup f.core_instances infos.component_uuid) [
      | some ref ↦ (ok ref, f)
      | none ↦ continue (resolve_component infos cs f) (λ ref g. (
        ok ref,
        record g { core_instances = Map.insert g.core_instances infos.component_uuid ref },
      ))
    ]

    pub resolve_named_singleton : String → BindInfos → List BindContext → M Ref
    resolve_named_singleton name infos cs f =
        elim (Map.lookup f.named_singleton_instances (infos.component_uuid, name)) [
          | some ref ↦ (ok ref, f)
          | none ↦ continue (resolve_component infos cs f) (λ ref g. (
            ok ref,
            record g {
              named_singleton_instances =
                  Map.insert g.named_singleton_instances (infos.component_uuid, name) ref;
            },
          ))
        ]

    -- What `resolve` does with the binding, in the contexts with the component's own in front.
    pub resolve_infos : BindInfos → List BindContext → M Ref
    unfolding resolve_singleton resolve_core
    resolve_infos infos cs = elim infos.scope [
      | transient ↦ resolve_component infos cs
      | singleton ↦
          if nat_eq infos.binding_range_mask range_core
          then resolve_core infos cs
          else resolve_singleton infos cs
    ]

    pub resolve_with : ℕ → List BindContext → M Ref
    unfolding resolve_infos
    resolve_with interface_uuid cs f = elim (resolve_bind f interface_uuid cs) [
      | err e ↦ (err e, f)
      | ok infos ↦ resolve_infos infos ((component_context, infos) ∷ cs) f
    ]

    pub resolve_named_infos : String → BindInfos → List BindContext → M Ref
    unfolding resolve_named_singleton
    resolve_named_infos name infos cs = elim infos.scope [
      | transient ↦ resolve_component infos cs
      | singleton ↦ resolve_named_singleton name infos cs
    ]

    pub resolve_named_with : ℕ → String → List BindContext → M Ref
    unfolding resolve_named_infos
    resolve_named_with interface_uuid name cs f =
        elim (resolve_bind_named f interface_uuid name cs) [
          | err e ↦ (err e, f)
          | ok infos ↦ resolve_named_infos name infos ((component_context, infos) ∷ cs) f
        ]

    -- One turn of the loop of `resolveAll`: the singleton is added, and a component made besides.
    pub resolve_multi : BindInfos → List BindContext → M (List Ref)
    unfolding resolve_singleton
    resolve_multi infos cs = elim infos.scope [
      | transient ↦ (do ref ← resolve_component infos cs; pure (ref ∷ []))
      | singleton ↦ (do
        shared ← resolve_singleton infos cs
        ref ← resolve_component infos cs
        pure (shared ∷ ref ∷ []))
    ]

    -- The loop; `push_front` adds each binding to the contexts of those after it.
    pub resolve_multis : List BindInfos → List BindContext → M (List Ref)
    unfolding resolve_multi
    resolve_multis [] cs f = (ok [], f)
    resolve_multis (infos ∷ rest) cs f =
        continue (resolve_multi infos ((component_context, infos) ∷ cs) f) (λ refs g.
          continue (resolve_multis rest ((component_context, infos) ∷ cs) g)
            (λ others h. (ok (refs ++ others), h)))

    pub resolve_all_with : ℕ → List BindContext → M (List Ref)
    unfolding resolve_with resolve_multis
    resolve_all_with interface_uuid cs f =
        elim (Map.lookup f.context.multi_bindings interface_uuid) [
          | none ↦ (do ref ← resolve_with interface_uuid cs; pure (ref ∷ [])) f
          | some binds ↦ resolve_multis binds cs f
        ]

    -- `resolve` or `resolveAll` for one injectable.
    pub resolve_injectable : Injectable → List BindContext → M (List Ref)
    unfolding resolve_with resolve_named_with resolve_all_with
    resolve_injectable injectable cs =
        if injectable.multi then resolve_all_with injectable.uuid cs else elim injectable.name [
          | some name ↦ (do ref ← resolve_named_with injectable.uuid name cs; pure (ref ∷ []))
          | none ↦ (do ref ← resolve_with injectable.uuid cs; pure (ref ∷ []))
        ]

    pub inject_one : Ref → List BindContext → Injectable → M (Unit {0})
    unfolding resolve_injectable inject_refs absorb
    inject_one ref cs injectable f =
        let (r, g) =
          continue (resolve_injectable injectable cs f) (λ refs. inject_refs ref injectable refs) in
        (absorb injectable.optional r, g)

    pub inject_each : Ref → List BindContext → List Injectable → M (Unit {0})
    unfolding inject_one
    inject_each ref cs [] f = (ok tt, f)
    inject_each ref cs (i ∷ is) f = continue (inject_one ref cs i f) (λ _. inject_each ref cs is)

    unfoldable pub inject_with : Ref → List BindContext → M (Unit {0})
    unfolding inject_each notify
    inject_with ref cs = do inject_each ref cs (injectables ref.class_uuid); notify ref

  unfoldable pub resolve_component : ℕ → BindInfos → List BindContext → M Ref
  unfolding create inject_with configure_component
  resolve_component zero infos cs f = (err no_fuel, f)
  resolve_component (suc fuel) infos cs f = continue (create infos f) (λ ref g.
      continue (inject_with (resolve_component fuel) ref cs g)
        (λ _ h. continue (configure_component infos ref h) (λ _ k. (ok ref, k))))

  -- The public `resolve(interfaceUUID)`.
  unfoldable pub resolve : ℕ → ℕ → M Ref
  unfolding resolve_component resolve_with
  resolve fuel interface_uuid = resolve_with (resolve_component fuel) interface_uuid []

  unfoldable pub resolve_named : ℕ → ℕ → String → M Ref
  unfolding resolve_component resolve_named_with
  resolve_named fuel interface_uuid name =
      resolve_named_with (resolve_component fuel) interface_uuid name []

  unfoldable pub resolve_all : ℕ → ℕ → M (List Ref)
  unfolding resolve_component resolve_all_with
  resolve_all fuel interface_uuid = resolve_all_with (resolve_component fuel) interface_uuid []
