-- ===== src/Factory/Bind.antt =====
-- The operations of src/Factory.cpp that declare bindings from a `FactoryBindInfos`; the overloads
-- that build one, or set a create function, are a child's.
pub mod Laws
pub mod Overloads
use xpcf.Base.{ℕ, String, Option, none, some, if◌then◌else◌, nat_keys, named_keys}
use xpcf.Map
use xpcf.Map.{Map, map_contains}
use xpcf.Factory.{Scope, transient, BindInfos, FactoryContext, range_all}

-- The map at a key, as `operator[]` gives it: a missing one is made empty.
abbrev pub inner : {K V : Type 0} → Map ℕ (Map K V) → ℕ → Map K V
inner m k = elim (Map.lookup m k) [ none ↦ Map.empty | some t ↦ t ]

module _ {Method : Type 0} where
  unfoldable pub autobind : ℕ → ℕ → FactoryContext Method → FactoryContext Method
  autobind interface_uuid instance_uuid c =
      if map_contains c.default_bindings interface_uuid then c else record c {
        auto_bindings = Map.insert c.auto_bindings interface_uuid (record {
          component_uuid = instance_uuid;
          scope = transient;
          binding_range_mask = range_all;
          properties = "";
        });
      }

  -- `bind(interfaceUUID, bindInfos)`
  unfoldable pub bind : ℕ → BindInfos → FactoryContext Method → FactoryContext Method
  bind interface_uuid infos c = record c {
    auto_bindings =
        if map_contains c.auto_bindings interface_uuid
        then Map.erase c.auto_bindings interface_uuid
        else c.auto_bindings;
    default_bindings = Map.insert c.default_bindings interface_uuid infos;
  }

  -- `bind(name, interfaceUUID, bindInfos)`
  unfoldable pub bind_named : String → ℕ → BindInfos → FactoryContext Method → FactoryContext Method
  bind_named name interface_uuid infos c = record c {
    named_bindings = Map.insert c.named_bindings (interface_uuid, name) infos;
  }

  -- `bind(targetComponentUUID, interfaceUUID, bindInfos)`
  unfoldable pub bind_specific : ℕ → ℕ → BindInfos → FactoryContext Method → FactoryContext Method
  bind_specific target interface_uuid infos c = record c {
    specific_bindings =
        Map.insert c.specific_bindings target
          (Map.insert (inner c.specific_bindings target) interface_uuid infos);
  }

  -- `bind(targetComponentUUID, name, interfaceUUID, bindInfos)`
  unfoldable pub bind_specific_named :
      ℕ → String → ℕ → BindInfos → FactoryContext Method → FactoryContext Method
  bind_specific_named target name interface_uuid infos c = record c {
    specific_named_bindings =
        Map.insert c.specific_named_bindings target
          (Map.insert (inner c.specific_named_bindings target) (interface_uuid, name) infos);
  }

  -- The assignment that ends each `bind` that takes a `factoryFunc`.
  unfoldable pub set_factory_method :
      Method → BindInfos → FactoryContext Method → FactoryContext Method
  set_factory_method method infos c = record c {
    factory_methods = Map.insert c.factory_methods infos.component_uuid method;
  }
