-- ===== src/Tests/Aliases.antt =====
-- src/AliasManager.cpp.
use xpcf.Base.{◌≡◌, refl, [], ◌∷◌}
use xpcf.Map
use xpcf.Exec.{ok, err, configuration, process_xml_node}
use xpcf.Alias.{
  component_type, AliasContext, declare_explicit_alias, declare_aliases, resolve_component_alias,
}
use xpcf.Alias.Laws.{resolve_as}
use xpcf.Alias.Nodes.{declare_aliases_lem}
use xpcf.Tests.Document.{document, Node, node, end, more}

abbrev no_aliases : AliasContext
no_aliases = record {
  component_resolver_map = Map.empty;
  interface_resolver_map = Map.empty;
  module_resolver_map = Map.empty;
}

-- The second node replaces the first, and the third has no uuid.
abbrev aliases : Node
aliases = node "aliases" [] (
    more (node "alias" (("name", "a") ∷ ("type", "component") ∷ ("uuid", "u1") ∷ []) end) (
      more (node "alias" (("name", "a") ∷ ("type", "component") ∷ ("uuid", "u2") ∷ []) end)
        (more (node "alias" (("name", "b") ∷ ("type", "component") ∷ []) end) end)))

aliases_run :
    let (r, c) = declare_aliases document aliases no_aliases in
    (r ≡ err configuration) × (resolve_component_alias "a" c ≡ ok 2)
unfolding declare_aliases declare_explicit_alias resolve_component_alias process_xml_node Map.insert
    Map.lookup Map.empty
aliases_run = (refl, refl)

abbrev some_aliases : AliasContext
some_aliases = (declare_explicit_alias component_type "a" 7 no_aliases).1

declare_aliases_lem_example :
    let (r, c) = declare_aliases document aliases no_aliases in
    (r ≡ err configuration) × (resolve_as component_type "a" c ≡ ok 2)
declare_aliases_lem_example = declare_aliases_lem document aliases component_type "a" no_aliases
