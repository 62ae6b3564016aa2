-- ===== src/Tests/Resolution.antt =====
-- src/Factory.cpp: bindings, their resolution, and the components that are made.
use xpcf.Base.{
  ℕ, ◌≡◌, refl, ◌<◌, true, false, Bool, List, [], ◌∷◌, none, nat_eq, length, nat_keys, named_keys,
  if◌then◌else◌, ◌⊎◌,
}
use xpcf.Map
use xpcf.Map.{map_contains}
use xpcf.Exec.{ok, err, injectable_not_found}
use xpcf.Factory.{
  Scope, transient, singleton, BindInfos, BindContext, component_context, FactoryContext, Factory,
  Ref, clear_context,
}
use xpcf.Factory.Bind.Laws.{
  Declaration, autobinds, binds, declare_all, Disjoint, declare_all-Disjoint,
}
use xpcf.Factory.Lookup.{resolve_bind, resolve_bind_named}
use xpcf.Factory.Lookup.Visible.{resolve_bind_lem, resolve_bind_named_lem}
use xpcf.Factory.Resolve.{
  Components, Injectable, resolve, resolve_all, inject_with, resolve_component,
}
use xpcf.Factory.Resolve.Extends.{Extends}
use xpcf.Factory.Resolve.Stable.{resolve-Extends}
use xpcf.Factory.Resolve.Shared.{
  SharedBind, singleton_shared, transient_fresh, after_all, resolves, resolves_all,
}
use xpcf.Factory.Resolve.Multi.{length-resolve_all}
use xpcf.Factory.Resolve.Catch.{Escapes, inject-Escapes}

abbrev pub wants : ℕ → Bool → Injectable
wants interface_uuid optional = record {
  uuid = interface_uuid;
  name = none;
  optional = optional;
  multi = false;
}

-- Components of class 10 want interface 1, those of class 30 may have interface 9; no component
-- implements interface 4.
abbrev pub injectables_of : ℕ → List Injectable
injectables_of u =
    if nat_eq u 10 then wants 1 false ∷ [] else if nat_eq u 30 then wants 9 true ∷ [] else []

abbrev pub toy : Components
toy = record {
  Method = ℕ;
  call = λ m. ok m;
  from_module = λ u. ok u;
  implements = λ u i. if nat_eq i 4 then false else true;
  injectables = injectables_of;
  configurable = λ u. false;
  configure = λ u path name. ok true;
  config_path = λ u. none;
  after_injection = λ u. ok tt;
}

abbrev pub infos : ℕ → Scope → BindInfos
infos u s = record { component_uuid = u; scope = s; binding_range_mask = 8; properties = "" }

abbrev pub no_bindings : FactoryContext ℕ
no_bindings = record {
  auto_bindings = Map.empty;
  default_bindings = Map.empty;
  multi_bindings = Map.empty;
  named_bindings = Map.empty;
  factory_methods = Map.empty;
  specific_bindings = Map.empty;
  specific_named_bindings = Map.empty;
}

-- Interfaces 1 and 3 share component 20, interface 2 is component 10, interface 5 has two components.
abbrev pub bindings : FactoryContext ℕ
bindings = record no_bindings {
  default_bindings =
      Map.insert (Map.insert (Map.insert Map.empty 1 (infos 20 singleton)) 2 (infos 10 transient)) 3
        (infos 20 singleton);
  multi_bindings = Map.insert Map.empty 5 (infos 20 singleton ∷ infos 30 transient ∷ []);
  specific_bindings = Map.insert Map.empty 10 (Map.insert Map.empty 1 (infos 30 transient));
}

abbrev pub factory : Factory ℕ
factory = record {
  context = bindings;
  singleton_instances = Map.empty;
  named_singleton_instances = Map.empty;
  core_bindings = Map.empty;
  core_instances = Map.empty;
  core_factory_methods = Map.empty;
  next_id = 0;
  events = [];
}

abbrev ref : ℕ → ℕ → Ref
ref i u = record { id = i; class_uuid = u }

resolve_transient : (resolve toy 5 2 factory).0 ≡ ok (ref 0 10)
unfolding resolve Map.insert Map.lookup Map.empty resolve_bind
resolve_transient = refl

resolve_singleton_run : (resolve toy 5 1 factory).0 ≡ ok (ref 0 20)
unfolding resolve Map.insert Map.lookup Map.empty resolve_bind
resolve_singleton_run = refl

resolve_all_run : (resolve_all toy 5 5 factory).0 ≡ ok (ref 0 20 ∷ ref 1 20 ∷ ref 2 30 ∷ [])
unfolding resolve_all Map.insert Map.lookup Map.empty resolve_bind
resolve_all_run = refl

-- Interface 2 resolves to component 10, which has a binding of its own for interface 1.
abbrev inside : List BindContext
inside = (component_context, infos 10 transient) ∷ []

abbrev declarations : List (Declaration ℕ)
declarations = autobinds 1 40 ∷ binds 1 (infos 20 singleton) ∷ autobinds 1 50 ∷ []

declare_all-Disjoint_example : Disjoint (declare_all declarations (clear_context bindings))
declare_all-Disjoint_example = declare_all-Disjoint declarations bindings

-- Inside component 10 its specific binding is the nearest.
resolve_bind_lem_example : resolve_bind factory 1 inside ≡ ok (infos 30 transient)
unfolding Map.insert Map.lookup Map.empty
resolve_bind_lem_example = resolve_bind_lem factory 1 inside

resolve_bind_named_lem_example : resolve_bind_named factory 3 "left" [] ≡ ok (infos 20 singleton)
unfolding resolve_bind Map.insert Map.lookup Map.empty
resolve_bind_named_lem_example = resolve_bind_named_lem factory 3 "left" []

resolve-Extends_example : Extends factory (resolve toy 5 2 factory).1
resolve-Extends_example = resolve-Extends toy 5 2 factory

shared_bind :
    (i : ℕ) → resolve_bind factory i [] ≡ ok (infos 20 singleton) → SharedBind toy factory i 20
shared_bind i e = record {
  infos = infos 20 singleton;
  bound = e;
  shared = refl;
  not_core = refl;
  to_component = refl;
}

bound_1 : resolve_bind factory 1 [] ≡ ok (infos 20 singleton)
unfolding resolve_bind Map.insert Map.lookup Map.empty
bound_1 = refl

bound_2 : resolve_bind factory 2 [] ≡ ok (infos 10 transient)
unfolding resolve_bind Map.insert Map.lookup Map.empty
bound_2 = refl

bound_3 : resolve_bind factory 3 [] ≡ ok (infos 20 singleton)
unfolding resolve_bind Map.insert Map.lookup Map.empty
bound_3 = refl

-- Interface 3 gives the object of interface 1, also after interface 2 was resolved.
singleton_shared_example :
    let g = after_all toy 5 (resolves 2 ∷ resolves_all 5 ∷ []) (resolve toy 5 1 factory).1 in
    resolve toy 5 3 g ≡ (ok (ref 0 20), g)
singleton_shared_example =
    singleton_shared toy 5 5 1 3 20 (resolves 2 ∷ resolves_all 5 ∷ []) factory
      (shared_bind 1 bound_1) (shared_bind 3 bound_3) resolve_singleton_run

resolve_again :
    (resolve toy 5 2 (after_all toy 5 (resolves 1 ∷ []) (resolve toy 5 2 factory).1)).0
    ≡ ok (ref 3 10)
unfolding resolve after_all Map.insert Map.lookup Map.empty resolve_bind
resolve_again = refl

transient_fresh_example : 0 < 3
transient_fresh_example =
    transient_fresh toy 5 5 2 (resolves 1 ∷ []) factory (infos 10 transient) bound_2 refl
      resolve_transient resolve_again

length-resolve_all_example : length (ref 0 20 ∷ ref 1 20 ∷ ref 2 30 ∷ []) ≡ 3
unfolding Map.insert Map.lookup Map.empty
length-resolve_all_example =
    length-resolve_all toy 5 5 factory (infos 20 singleton ∷ infos 30 transient ∷ []) refl
      resolve_all_run

-- Interface 1 of component 10 has no binding here.
abbrev empty_factory : Factory ℕ
empty_factory = record factory { context = no_bindings }

inject_run :
    (inject_with toy (resolve_component toy 5) (ref 0 10) [] empty_factory).0
    ≡ err injectable_not_found
unfolding inject_with resolve_component Map.insert Map.lookup Map.empty resolve_bind
inject_run = refl

inject-Escapes_example :
    Escapes false injectable_not_found ⊎ (toy.after_injection 10 ≡ err injectable_not_found)
inject-Escapes_example =
    inject-Escapes toy (resolve_component toy 5) (ref 0 10) [] empty_factory inject_run
