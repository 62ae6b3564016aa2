-- ===== src/Factory/Bind/Overloads.antt =====
-- The overloads of `bind` of src/Factory.cpp that build the `FactoryBindInfos` or set a create
-- function, and `bindCore`.
use xpcf.Base.{ℕ, String, some, nat_keys, named_keys}
use xpcf.Map
use xpcf.Map.{lookup-insert}
use xpcf.Factory.{Scope, BindInfos, FactoryContext, Factory, range_core}
use xpcf.Factory.Bind.{bind, bind_named, bind_specific, bind_specific_named, set_factory_method}

-- `FactoryBindInfos{instanceUUID, scope, bindingRangeMask, ""}`
abbrev pub bind_infos : ℕ → Scope → ℕ → BindInfos
bind_infos instance_uuid scope mask = record {
  component_uuid = instance_uuid;
  scope = scope;
  binding_range_mask = mask;
  properties = "";
}

module _ {Method : Type 0} where
  unfoldable pub bind_instance : ℕ → ℕ → Scope → ℕ → FactoryContext Method → FactoryContext Method
  unfolding bind
  bind_instance interface_uuid instance_uuid scope mask =
      bind interface_uuid (bind_infos instance_uuid scope mask)

  unfoldable pub bind_named_instance :
      String → ℕ → ℕ → Scope → ℕ → FactoryContext Method → FactoryContext Method
  unfolding bind_named
  bind_named_instance name interface_uuid instance_uuid scope mask =
      bind_named name interface_uuid (bind_infos instance_uuid scope mask)

  unfoldable pub bind_specific_instance :
      ℕ → ℕ → ℕ → Scope → ℕ → FactoryContext Method → FactoryContext Method
  unfolding bind_specific
  bind_specific_instance target interface_uuid instance_uuid scope mask =
      bind_specific target interface_uuid (bind_infos instance_uuid scope mask)

  unfoldable pub bind_specific_named_instance :
      ℕ → String → ℕ → ℕ → Scope → ℕ → FactoryContext Method → FactoryContext Method
  unfolding bind_specific_named
  bind_specific_named_instance target name interface_uuid instance_uuid scope mask =
      bind_specific_named target name interface_uuid (bind_infos instance_uuid scope mask)

  unfoldable pub bind_method :
      ℕ → Method → BindInfos → FactoryContext Method → FactoryContext Method
  unfolding bind set_factory_method
  bind_method interface_uuid factory_func infos c =
      set_factory_method factory_func infos (bind interface_uuid infos c)

  unfoldable pub bind_instance_method :
      ℕ → ℕ → Method → Scope → ℕ → FactoryContext Method → FactoryContext Method
  unfolding bind_method
  bind_instance_method interface_uuid instance_uuid factory_func scope mask =
      bind_method interface_uuid factory_func (bind_infos instance_uuid scope mask)

  unfoldable pub bind_named_method :
      String → ℕ → Method → BindInfos → FactoryContext Method → FactoryContext Method
  unfolding bind_named set_factory_method
  bind_named_method name interface_uuid factory_func infos c =
      set_factory_method factory_func infos (bind_named name interface_uuid infos c)

  unfoldable pub bind_named_instance_method :
      String → ℕ → ℕ → Method → Scope → ℕ → FactoryContext Method → FactoryContext Method
  unfolding bind_named_method
  bind_named_instance_method name interface_uuid instance_uuid factory_func scope mask =
      bind_named_method name interface_uuid factory_func (bind_infos instance_uuid scope mask)

  unfoldable pub bind_specific_method :
      ℕ → ℕ → Method → BindInfos → FactoryContext Method → FactoryContext Method
  unfolding bind_specific set_factory_method
  bind_specific_method target interface_uuid factory_func infos c =
      set_factory_method factory_func infos (bind_specific target interface_uuid infos c)

  unfoldable pub bind_specific_instance_method :
      ℕ → ℕ → Method → ℕ → Scope → ℕ → FactoryContext Method → FactoryContext Method
  unfolding bind_specific_method
  bind_specific_instance_method target interface_uuid factory_func instance_uuid scope mask =
      bind_specific_method target interface_uuid factory_func (bind_infos instance_uuid scope mask)

  unfoldable pub bind_specific_named_method :
      ℕ → String → ℕ → Method → BindInfos → FactoryContext Method → FactoryContext Method
  unfolding bind_specific_named set_factory_method
  bind_specific_named_method target name interface_uuid factory_func infos c =
      set_factory_method factory_func infos (bind_specific_named target name interface_uuid infos c)

  unfoldable pub bind_specific_named_instance_method :
      ℕ → String → ℕ → Method → ℕ → Scope → ℕ → FactoryContext Method → FactoryContext Method
  unfolding bind_specific_named_method
  bind_specific_named_instance_method target name interface_uuid factory_func instance_uuid scope
        mask =
      bind_specific_named_method target name interface_uuid factory_func
        (bind_infos instance_uuid scope mask)

  -- `bindCore<I, C, scope>`: the uuids of the interface and of the class, and the class's create
  -- function.
  unfoldable pub bind_core : ℕ → ℕ → Scope → Method → Factory Method → Factory Method
  bind_core interface_uuid component_uuid scope factory_func f = record f {
    core_bindings =
        Map.insert f.core_bindings interface_uuid (bind_infos component_uuid scope range_core);
    core_factory_methods = Map.insert f.core_factory_methods component_uuid (some factory_func);
  }
