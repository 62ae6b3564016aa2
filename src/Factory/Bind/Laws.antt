-- ===== src/Factory/Bind/Laws.antt =====
-- What the declarations of src/Factory.cpp do to a resolution outside every context, and the
-- invariant of the tables of default and automatic bindings.
use xpcf.Base.{
  ℕ, String, true, false, ◌&&◌, ◌≡◌, List, [], ◌∷◌, none, some, if◌then◌else◌, arith, ◌==◌,
  nat_keys, named_keys, nat_eq_iff,
}
use xpcf.Map
use xpcf.Map.{Map, map_contains, lookup-insert, lookup-erase, lookup-empty, is_some}
use xpcf.Exec.{ok}
use xpcf.Factory.{transient, range_all, BindInfos, FactoryContext, Factory, clear_context}
use xpcf.Factory.Bind.{
  autobind, bind, bind_named, bind_specific, bind_specific_named, set_factory_method, inner,
}
use xpcf.Factory.Lookup.{resolve_bind, specific}

-- The binding that `autobind` makes.
abbrev pub auto_infos : ℕ → BindInfos
auto_infos component = record {
  component_uuid = component;
  scope = transient;
  binding_range_mask = range_all;
  properties = "";
}

module _ {Method : Type 0} where
  -- A declaration made on a factory.
  abbrev pub on_context :
      (FactoryContext Method → FactoryContext Method) → Factory Method → Factory Method
  on_context op f = record f { context = op f.context }

  -- After `bind` the interface resolves to what was bound, whatever was declared before, and every
  -- other interface resolves as before.
  pub resolve_bind-bind :
      (f : Factory Method) (i j : ℕ) (infos : BindInfos)
      → resolve_bind (on_context (bind i infos) f) j []
        ≡ (if i == j then ok infos else resolve_bind f j [])
  unfolding resolve_bind bind
  resolve_bind-bind f i j infos = ground (
    arith,
    lookup-insert f.context.default_bindings i j infos,
    lookup-erase f.context.auto_bindings i j,
  )

  -- After `autobind` the interface resolves to its default binding if it has one, and else to the
  -- component that was given; every other interface resolves as before.
  pub resolve_bind-autobind :
      (f : Factory Method) (i j component : ℕ)
      → resolve_bind (on_context (autobind i component) f) j [] ≡ (
          if i == j
          then (elim (Map.lookup f.context.default_bindings j) [
            | some infos ↦ ok infos
            | none ↦ ok (auto_infos component)
          ])
          else resolve_bind f j [])
  unfolding resolve_bind autobind
  resolve_bind-autobind f i j component =
      ground
        (arith, lookup-insert f.context.auto_bindings i j (auto_infos component), nat_eq_iff i j)

  -- The order of an explicit declaration and an automatic one for the same interface does not
  -- matter: every interface resolves alike after both.
  pub bind-autobind_comm :
      (f : Factory Method) (i j component : ℕ) (infos : BindInfos)
      → resolve_bind (on_context (bind i infos) (on_context (autobind i component) f)) j []
        ≡ resolve_bind (on_context (autobind i component) (on_context (bind i infos) f)) j []
  unfolding bind
  bind-autobind_comm f i j component infos = ground (
    arith,
    resolve_bind-bind (on_context (autobind i component) f) i j infos,
    resolve_bind-autobind f i j component,
    resolve_bind-autobind (on_context (bind i infos) f) i j component,
    resolve_bind-bind f i j infos,
    lookup-insert f.context.default_bindings i j infos,
  )

  -- A specific declaration is found under its component and its interface, and the specific
  -- bindings of all other pairs are as before.
  pub specific-bind_specific :
      (c : FactoryContext Method) (target t i j : ℕ) (infos : BindInfos)
      → specific (bind_specific target i infos c).specific_bindings t j
        ≡ (if (target == t) && (i == j) then some infos else specific c.specific_bindings t j)
  unfolding bind_specific
  specific-bind_specific c target t i j infos = ground (
    arith,
    lookup-insert c.specific_bindings target t
        (Map.insert (inner c.specific_bindings target) i infos),
    lookup-insert (inner c.specific_bindings target) i j infos,
    lookup-empty {K = ℕ} {V = BindInfos} j,
    nat_eq_iff target t,
  )

-- The declarations that a client or a configuration file makes, in order.
pub data Declaration (Method : Type 0) : Type 0 where
  autobinds : ℕ → ℕ → Declaration Method
  binds : ℕ → BindInfos → Declaration Method
  binds_named : String → ℕ → BindInfos → Declaration Method
  binds_specific : ℕ → ℕ → BindInfos → Declaration Method
  binds_specific_named : ℕ → String → ℕ → BindInfos → Declaration Method
  -- one of the four above with a `factoryFunc`
  sets_method : Method → BindInfos → Declaration Method

module _ {Method : Type 0} where
  declare : Declaration Method → FactoryContext Method → FactoryContext Method
  declare (autobinds i component) = autobind i component
  declare (binds i infos) = bind i infos
  declare (binds_named name i infos) = bind_named name i infos
  declare (binds_specific target i infos) = bind_specific target i infos
  declare (binds_specific_named target name i infos) = bind_specific_named target name i infos
  declare (sets_method method infos) = set_factory_method method infos

  pub declare_all : List (Declaration Method) → FactoryContext Method → FactoryContext Method
  unfolding declare
  declare_all [] c = c
  declare_all (d ∷ ds) c = declare_all ds (declare d c)

  -- No interface has an automatic binding beside a default one.
  abbrev pub Disjoint : FactoryContext Method → Type 0
  Disjoint c =
      (i : ℕ) → map_contains c.default_bindings i ≡ true → map_contains c.auto_bindings i ≡ false

  declare-Disjoint :
      (d : Declaration Method) (c : FactoryContext Method) → Disjoint c → Disjoint (declare d c)
  unfolding declare autobind bind bind_named bind_specific bind_specific_named set_factory_method
  declare-Disjoint (autobinds j component) c v i =
      let h = v i in
      ground (arith, lookup-insert c.auto_bindings j i (auto_infos component), nat_eq_iff j i)
  declare-Disjoint (binds j infos) c v i =
      let h = v i in
      ground (
        arith,
        lookup-insert c.default_bindings j i infos,
        lookup-erase c.auto_bindings j i,
        nat_eq_iff j i,
      )
  declare-Disjoint (binds_named name j infos) c v i = v i
  declare-Disjoint (binds_specific target j infos) c v i = v i
  declare-Disjoint (binds_specific_named target name j infos) c v i = v i
  declare-Disjoint (sets_method method infos) c v i = v i

  declare_all-keeps :
      (ds : List (Declaration Method)) (c : FactoryContext Method)
      → Disjoint c
      → Disjoint (declare_all ds c)
  unfolding declare_all
  declare_all-keeps [] c v = v
  declare_all-keeps (d ∷ ds) c v = declare_all-keeps ds (declare d c) (declare-Disjoint d c v)

  -- After any sequence of declarations on a cleared context, no interface has an automatic binding
  -- beside a default one.
  pub declare_all-Disjoint :
      (ds : List (Declaration Method)) (c : FactoryContext Method)
      → Disjoint (declare_all ds (clear_context c))
  unfolding clear_context
  declare_all-Disjoint ds c = declare_all-keeps ds (clear_context c) (λ i _. rw lookup-empty)
