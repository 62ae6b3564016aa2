-- ===== src/Factory/Nodes.antt =====
-- The <factory> nodes of a configuration file, `declareFactory` of src/Factory.cpp and what it calls.
-- The catch clauses keep the exception's kind: an `xpcf::Exception` becomes a ConfigurationException.
pub mod Log
pub mod Replay
pub mod Effects
use Prim.Native.Nat.{bit_or}
use xpcf.Base.{
  ℕ, String, Bool, List, [], ◌∷◌, ◌++◌, Option, none, some, if◌then◌else◌, string_keys, nat_keys,
}
use xpcf.Map
use xpcf.Map.{Map}
use xpcf.Exec.{
  Result, ok, err, check, exception, configuration, out_of_range, logic_error, Exec, or_throw, lift,
  rethrow, continue, ◌>>=◌, ◌>>◌, process_xml_node,
}
use xpcf.Xml.{Xml}
use xpcf.Alias.{
  AliasContext, interface_type, component_type, alias_exists, resolve_interface_alias,
  resolve_component_alias,
}
use xpcf.Factory.{
  Scope, transient, singleton, BindInfos, FactoryContext, range_explicit, range_with_parents,
  range_named, range_default, range_all,
}
use xpcf.Factory.Bind.{bind, bind_named, bind_specific, bind_specific_named}

-- `scopeConvertMap` and `bindingRangeConvertMap`
unfoldable pub scope_convert : Map String Scope
scope_convert = Map.insert (Map.insert Map.empty "Transient" transient) "Singleton" singleton

unfoldable pub binding_range_convert : Map String ℕ
binding_range_convert =
    Map.insert
      (Map.insert
        (Map.insert (Map.insert (Map.insert Map.empty "all" range_all) "default" range_default)
          "explicit" range_explicit)
        "named" range_named)
      "withparents" range_with_parents

-- The loop over the names of the ranges; `at` throws for an unknown one.
unfoldable pub read_ranges : List String → ℕ → Result ℕ
unfolding binding_range_convert
read_ranges [] mask = ok mask
read_ranges (range ∷ ranges) mask = elim (Map.lookup binding_range_convert range) [
  | none ↦ err out_of_range
  | some bit ↦ read_ranges ranges (bit_or mask bit)
]

abbrev pub with_range : BindInfos → ℕ → BindInfos
with_range infos bit = record infos { binding_range_mask = bit_or infos.binding_range_mask bit }

module _ {Method : Type 0} where
  -- The list of the bindings of an interface; `operator[]` makes a missing one.
  abbrev pub binds_of : FactoryContext Method → ℕ → List BindInfos
  binds_of c interface_uuid = elim (Map.lookup c.multi_bindings interface_uuid) [
    | none ↦ []
    | some bs ↦ bs
  ]

  abbrev pub set_binds : ℕ → List BindInfos → FactoryContext Method → FactoryContext Method
  set_binds interface_uuid bs c = record c {
    multi_bindings = Map.insert c.multi_bindings interface_uuid bs;
  }

module _ (X : Xml) (aliases : AliasContext) where
  open X use {Element, attribute, children, to_uuid, split}

  -- The uuid of a text: an alias, or else a uuid written out.
  unfoldable pub interface_of : String → Result ℕ
  interface_of text =
      if alias_exists interface_type text aliases
      then resolve_interface_alias text aliases
      else or_throw (to_uuid text) configuration

  unfoldable pub component_of : String → Result ℕ
  component_of text =
      if alias_exists component_type text aliases
      then resolve_component_alias text aliases
      else or_throw (to_uuid text) configuration

  -- What `getComponentBindingInfos` does with the attributes `to`, `scope`, `properties`, `range`.
  pub infos_of : Option String → Option String → Option String → Option String → Result BindInfos
  unfolding component_of scope_convert read_ranges
  infos_of to scope properties range = check (or_throw to logic_error) (λ text.
      check (component_of text) (λ component.
        check
          (elim scope [
            | none ↦ ok transient
            | some type ↦ or_throw (Map.lookup scope_convert type) out_of_range
          ])
          (λ s.
            check (elim range [ none ↦ ok 0 | some names ↦ read_ranges (split names) 0 ])
              (λ mask. ok (record {
                component_uuid = component;
                scope = s;
                binding_range_mask = mask;
                properties = elim properties [ none ↦ "" | some name ↦ name ];
              })))))

  unfoldable pub get_component_binding_infos : Element → Result BindInfos
  unfolding infos_of
  get_component_binding_infos elt =
      infos_of (attribute elt "to") (attribute elt "scope") (attribute elt "properties")
        (attribute elt "range")

  module _ {Method : Type 0} where
    pub declare_single_bind : ℕ → Element → Exec (FactoryContext Method) (Unit {0})
    unfolding get_component_binding_infos
    declare_single_bind interface_uuid elt c = elim (get_component_binding_infos elt) [
      | err e ↦ (err e, c)
      | ok infos ↦ elim (attribute elt "name") [
        | none ↦ (ok tt, bind interface_uuid (with_range infos range_default) c)
        | some name ↦ (ok tt, bind_named name interface_uuid (with_range infos range_named) c)
      ]
    ]

    -- One turn of the loop over the <component> nodes.
    pub add_bind : ℕ → Element → Exec (FactoryContext Method) (Unit {0})
    unfolding get_component_binding_infos
    add_bind interface_uuid elt c = elim (get_component_binding_infos elt) [
      | err e ↦ (err e, c)
      | ok infos ↦ (
        ok tt,
        set_binds interface_uuid
            (binds_of c interface_uuid ++ (with_range infos range_default ∷ [])) c,
      )
    ]

    pub declare_multi_bind : ℕ → Element → Exec (FactoryContext Method) (Unit {0})
    unfolding add_bind
    declare_multi_bind interface_uuid elt c =
        process_xml_node (add_bind interface_uuid) (children elt "component")
          (set_binds interface_uuid (binds_of c interface_uuid) c)

    -- The two steps of `declareBind`, by whether there is an attribute `to` and a <component> node.
    pub bind_targets :
        Option String → List Element → ℕ → Element → Exec (FactoryContext Method) (Unit {0})
    unfolding declare_single_bind declare_multi_bind
    bind_targets none [] interface_uuid elt = lift (err exception)
    bind_targets (some to) [] interface_uuid elt = declare_single_bind interface_uuid elt
    bind_targets none (x ∷ xs) interface_uuid elt = declare_multi_bind interface_uuid elt
    bind_targets (some to) (x ∷ xs) interface_uuid elt = do
      declare_single_bind interface_uuid elt
      declare_multi_bind interface_uuid elt

    pub declare_bind : Element → Exec (FactoryContext Method) (Unit {0})
    unfolding bind_targets interface_of
    declare_bind elt c = rethrow (elim (attribute elt "interface") [
      | none ↦ (err exception, c)
      | some text ↦ elim (interface_of text) [
        | err e ↦ (err e, c)
        | ok interface_uuid ↦
            bind_targets (attribute elt "to") (children elt "component") interface_uuid elt c
      ]
    ])

    -- The end of `declareSpecificBind`.
    pub bind_target : ℕ → ℕ → Element → Exec (FactoryContext Method) (Unit {0})
    unfolding get_component_binding_infos
    bind_target target interface_uuid elt c = elim (get_component_binding_infos elt) [
      | err e ↦ (err e, c)
      | ok infos ↦ elim (attribute elt "name") [
        | none ↦ (ok tt, bind_specific target interface_uuid (with_range infos range_explicit) c)
        | some name ↦ (
          ok tt,
          bind_specific_named target name interface_uuid (with_range infos range_explicit) c,
        )
      ]
    ]

    pub declare_specific_bind : ℕ → Element → Exec (FactoryContext Method) (Unit {0})
    unfolding bind_target interface_of
    declare_specific_bind target elt c = rethrow (elim (attribute elt "interface") [
      | none ↦ (err exception, c)
      | some text ↦ elim (attribute elt "to") [
        | none ↦ (err exception, c)
        | some to ↦ elim (interface_of text) [
          | err e ↦ (err e, c)
          | ok interface_uuid ↦ bind_target target interface_uuid elt c
        ]
      ]
    ])

    pub declare_bindings : Element → Exec (FactoryContext Method) (Unit {0})
    unfolding declare_bind
    declare_bindings elt c = rethrow (process_xml_node declare_bind (children elt "bind") c)

    pub declare_inject : Element → Exec (FactoryContext Method) (Unit {0})
    unfolding declare_specific_bind component_of
    declare_inject elt c = rethrow (elim (attribute elt "to") [
      | none ↦ (err exception, c)
      | some text ↦ elim (component_of text) [
        | err e ↦ (err e, c)
        | ok target ↦ process_xml_node (declare_specific_bind target) (children elt "bind") c
      ]
    ])

    pub declare_injects : Element → Exec (FactoryContext Method) (Unit {0})
    unfolding declare_inject
    declare_injects elt c = rethrow (process_xml_node declare_inject (children elt "inject") c)

    unfoldable pub declare_factory : Element → Exec (FactoryContext Method) (Unit {0})
    unfolding declare_bindings declare_injects
    declare_factory elt c = rethrow (
        continue (process_xml_node declare_bindings (children elt "bindings") c)
          (λ _. process_xml_node declare_injects (children elt "injects")))
