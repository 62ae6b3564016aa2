-- ===== src/Factory/Resolve/Bound.antt =====
-- What the create functions given to `bind` and `bindCore` of src/Factory.cpp are for.
use xpcf.Base.{ℕ, ◌≡◌, refl, arith, false, none, some, [], nat_eq, string_keys, nat_keys}
use xpcf.Map
use xpcf.Map.{lookup-insert, lookup-insert_self, lookup-erase}
use xpcf.Exec.{ok}
use xpcf.Factory.{Scope, Factory, range_core}
use xpcf.Factory.Bind.{bind, set_factory_method}
use xpcf.Factory.Bind.Laws.{on_context}
use xpcf.Factory.Bind.Overloads.{bind_infos, bind_method, bind_instance_method, bind_core}
use xpcf.Factory.Lookup.{resolve_bind}
use xpcf.Factory.Resolve.{Components, make, call_core, create}

module _ (C : Components) where
  -- After `bind` with a create function and any range but the core one, the interface resolves to the
  -- component that was given, and the component is made by that function, and not by its module.
  pub create-bind_instance_method :
      (f : Factory C.Method) (i u mask : ℕ) (m : C.Method) (scope : Scope)
      → nat_eq mask range_core ≡ false
      → let g = on_context (bind_instance_method i u m scope mask) f in
        (resolve_bind g i [] ≡ ok (bind_infos u scope mask))
        × (create C (bind_infos u scope mask) g ≡ make C (C.call m) g)
  unfolding bind_instance_method bind_method set_factory_method bind create resolve_bind
  create-bind_instance_method f i u mask m scope h =
      let made = lookup-insert_self f.context.factory_methods u m in
      (
        ground (arith, lookup-insert_self f.context.default_bindings i (bind_infos u scope mask)),
        rw (h, made) refl,
      )

  -- After `bindCore` the component is made by its class's create function, and the interface resolves
  -- to it unless a default or an automatic binding says otherwise.
  pub create-bind_core :
      (f : Factory C.Method) (i u : ℕ) (m : C.Method) (scope : Scope)
      → Map.lookup f.context.default_bindings i ≡ none
      → Map.lookup f.context.auto_bindings i ≡ none
      → let g = bind_core i u scope m f in
        (resolve_bind g i [] ≡ ok (bind_infos u scope range_core))
        × (create C (bind_infos u scope range_core) g ≡ make C (C.call m) g)
  unfolding bind_core create call_core resolve_bind
  create-bind_core f i u m scope no_default no_auto =
      let made = lookup-insert_self f.core_factory_methods u (some m) in
      (
        ground (
          arith,
          lookup-insert_self f.core_bindings i (bind_infos u scope range_core),
          no_default,
          no_auto,
        ),
        rw (call_core, made) refl,
      )
