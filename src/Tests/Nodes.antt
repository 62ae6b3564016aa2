-- ===== src/Tests/Nodes.antt =====
-- src/Factory.cpp: the <factory> node of a configuration file.
use xpcf.Base.{ℕ, ◌≡◌, refl, List, [], ◌∷◌, none, string_keys, nat_keys}
use xpcf.Map
use xpcf.Exec.{err, out_of_range, process_xml_node}
use xpcf.Alias.{AliasContext, alias_exists}
use xpcf.Factory.{Scope, transient, singleton, BindInfos}
use xpcf.Factory.Nodes.{
  binds_of, declare_factory, get_component_binding_infos, interface_of, component_of, scope_convert,
  binding_range_convert, read_ranges,
}
use xpcf.Factory.Nodes.Log.{Decl, defaults, opens, adds, specific_names}
use xpcf.Factory.Nodes.Effects.{declare_factory-tables}
use xpcf.Tests.Document.{Node, Nodes, node, end, more, document}
use xpcf.Tests.Resolution.{bindings}

abbrev pub no_aliases : AliasContext
no_aliases = record {
  component_resolver_map = Map.empty;
  interface_resolver_map = Map.empty;
  module_resolver_map = Map.empty;
}

abbrev component : Node
component = node "component" (("to", "u4") ∷ ("range", "explicit|withparents") ∷ []) end

abbrev bind_nodes : Nodes
bind_nodes =
    more (node "bind" (("interface", "u1") ∷ ("to", "u2") ∷ ("scope", "Singleton") ∷ []) end)
      (more (node "bind" (("interface", "u5") ∷ []) (more component end)) end)

abbrev inject_nodes : Nodes
inject_nodes =
    more
      (node "inject" (("to", "u2") ∷ [])
        (more (node "bind" (("interface", "u1") ∷ ("to", "u6") ∷ ("name", "left") ∷ []) end) end))
      end

abbrev factory_node : Node
factory_node =
    node "factory" []
      (more (node "injects" [] inject_nodes) (more (node "bindings" [] bind_nodes) end))

abbrev infos : ℕ → Scope → ℕ → BindInfos
infos u s mask = record {
  component_uuid = u;
  scope = s;
  binding_range_mask = mask;
  properties = "";
}

abbrev spelled : List Decl
spelled =
    defaults 1 (infos 2 singleton 8)
    ∷ opens 5
    ∷ adds 5 (infos 4 transient 11)
    ∷ specific_names 2 "left" 1 (infos 6 transient 1)
    ∷ []

declare_factory-tables_example :
    let d = (declare_factory document no_aliases factory_node bindings).1 in
    (Map.lookup d.default_bindings 5 ≡ none)
    × (binds_of d 5 ≡ infos 20 singleton 8 ∷ infos 30 transient 8 ∷ infos 4 transient 11 ∷ [])
unfolding get_component_binding_infos interface_of component_of scope_convert binding_range_convert
    read_ranges alias_exists Map.lookup Map.insert Map.empty
declare_factory-tables_example = declare_factory-tables document no_aliases factory_node bindings 5

-- The scope as the README spells it is not known.
abbrev lower_case : Node
lower_case = node "factory" [] (
    more
      (node "bindings" [] (
        more (node "bind" (("interface", "u1") ∷ ("to", "u2") ∷ ("scope", "singleton") ∷ []) end)
          end))
      end)

lower_case_run : (declare_factory document no_aliases lower_case bindings).0 ≡ err out_of_range
unfolding declare_factory process_xml_node get_component_binding_infos interface_of component_of
    scope_convert Map.lookup Map.insert Map.empty alias_exists
lower_case_run = refl
