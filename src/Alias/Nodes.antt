-- ===== src/Alias/Nodes.antt =====
-- The <aliases> nodes of a configuration file, `declareAliases` of src/AliasManager.cpp, against the
-- list of the declarations that the nodes spell.
use xpcf.Base.{
  ℕ, String, Bool, true, false, ◌&&◌, ◌≡◌, refl, Option, none, some, if◌then◌else◌, arith, ◌==◌,
  string_keys, List, [], ◌∷◌, ◌∙◌,
}
use xpcf.Map
use xpcf.Map.{map_laws}
use xpcf.Exec.{
  Result, ok, err, exception, configuration, continue, rethrow, process_xml_node, lift, or_throw,
  ◌>>=◌,
}
use xpcf.Xml.{Xml}
use xpcf.Alias.{
  AliasType, interface_type, component_type, module_type, AliasContext, declare_explicit_alias,
  alias_type_convert, declare_alias_body, declare_alias_node, declare_aliases,
}
use xpcf.Alias.Laws.{same_type, resolve_as, resolve_as-declare_explicit_alias}

abbrev pub Entry : Type 0
Entry = AliasType × String × ℕ

abbrev pub type_named : String → Option AliasType
type_named s =
    if "module" == s
    then some module_type
    else if "component" == s
    then some component_type
    else if "interface" == s
    then some interface_type
    else none

-- The uuid that the last declaration of a name gives.
abbrev pub last_declared : AliasType → String → List Entry → Option ℕ
last_declared t name [] = none
last_declared t name ((u, other, uuid) ∷ es) = elim (last_declared t name es) [
  | some later ↦ some later
  | none ↦ if same_type u t && (other == name) then some uuid else none
]

abbrev pub or_else : Option ℕ → Result ℕ → Result ℕ
or_else (some uuid) r = ok uuid
or_else none r = r

type_convert_lem : (s : String) → Map.lookup alias_type_convert s ≡ type_named s
unfolding alias_type_convert
type_convert_lem s = simp map_laws

module _ (X : Xml) where
  open X use {Element, attribute, children, to_uuid}

  -- The declaration that the attributes spell, if they do.
  abbrev pub entry_of : Option String → Option String → Option String → Option Entry
  entry_of (some name) (some type_str) (some uuid_str) = elim (type_named type_str) [
    | none ↦ none
    | some type ↦ elim (to_uuid uuid_str) [ none ↦ none | some uuid ↦ some (type, name, uuid) ]
  ]
  entry_of _ _ _ = none

  abbrev pub entry : Element → Option Entry
  entry elt = entry_of (attribute elt "name") (attribute elt "type") (attribute elt "uuid")

  -- The nodes up to the first that is not well formed.
  abbrev pub valid_prefix : List Element → List Entry
  valid_prefix [] = []
  valid_prefix (x ∷ xs) = elim (entry x) [ none ↦ [] | some e ↦ e ∷ valid_prefix xs ]

  abbrev pub all_valid : List Element → Bool
  all_valid [] = true
  all_valid (x ∷ xs) = elim (entry x) [ none ↦ false | some e ↦ all_valid xs ]

  abbrev applied : Option Entry → AliasContext → Result (Unit {0}) × AliasContext
  applied none c = (err configuration, c)
  applied (some (t, name, uuid)) c = (ok tt, (declare_explicit_alias t name uuid c).1)

  body_steps :
      (name : String) (t : Option AliasType) (u : Option ℕ) (c : AliasContext)
      → rethrow (
          (do
            type ← lift (or_throw t exception)
            uuid ← lift (or_throw u configuration)
            declare_explicit_alias type name uuid)
            c)
        ≡ applied
            (elim t [
              | none ↦ none
              | some type ↦ elim u [ none ↦ none | some uuid ↦ some (type, name, uuid) ]
            ])
            c
  body_steps name none u c = refl
  body_steps name (some t) none c = refl
  body_steps name (some t) (some u) c =
      let done = (resolve_as-declare_explicit_alias t t name name u c).0 in ground (arith, done)

  body_lem :
      (n t u : Option String) (c : AliasContext)
      → rethrow (declare_alias_body X n t u c) ≡ applied (entry_of n t u) c
  unfolding declare_alias_body
  body_lem none t u c = refl
  body_lem (some n) none u c = refl
  body_lem (some n) (some t) none c = refl
  body_lem (some n) (some t) (some u) c =
      rw type_convert_lem (body_steps n (type_named t) (to_uuid u) c)

  node_lem : (elt : Element) (c : AliasContext) → declare_alias_node X elt c ≡ applied (entry elt) c
  unfolding declare_alias_node
  node_lem elt c = body_lem (attribute elt "name") (attribute elt "type") (attribute elt "uuid") c

  abbrev outcome : Bool → Result (Unit {0})
  outcome true = ok tt
  outcome false = err configuration

  -- One step of `last_declared`, seen from the resolution after it.
  or_else-step :
      (later : Option ℕ) (b : Bool) (uuid : ℕ) (r : Result ℕ)
      → or_else later (if b then ok uuid else r)
        ≡ or_else (elim later [ some l ↦ some l | none ↦ if b then some uuid else none ]) r
  or_else-step none true uuid r = refl
  or_else-step none false uuid r = refl
  or_else-step (some l) b uuid r = refl

  nodes_lem :
      (u : AliasType) (name : String) (xs : List Element) (c : AliasContext)
      → let (r, c') = process_xml_node (declare_alias_node X) xs c in
        (r ≡ outcome (all_valid xs))
        × (resolve_as u name c'
            ≡ or_else (last_declared u name (valid_prefix xs)) (resolve_as u name c))
  unfolding process_xml_node
  nodes_lem u name [] c = (refl, refl)
  nodes_lem u name (x ∷ xs) c = rw node_lem (step (entry x) (nodes_lem u name xs))
    where
      step :
          (o : Option Entry)
          → ((d : AliasContext)
              → let (r, c') = process_xml_node (declare_alias_node X) xs d in
                (r ≡ outcome (all_valid xs))
                × (resolve_as u name c'
                    ≡ or_else (last_declared u name (valid_prefix xs)) (resolve_as u name d)))
          → let (r, c') =
              continue (applied o c) (λ _. process_xml_node (declare_alias_node X) xs) in
            (r ≡ outcome (elim o [ none ↦ false | some _ ↦ all_valid xs ]))
            × (resolve_as u name c'
                ≡ or_else
                    (last_declared u name (elim o [ none ↦ [] | some e ↦ e ∷ valid_prefix xs ]))
                    (resolve_as u name c))
      step none ih = (refl, refl)
      step (some (t, other, uuid)) ih =
          let d = (declare_explicit_alias t other uuid c).1 in
          let now = (resolve_as-declare_explicit_alias t u other name uuid c).1 in
          (
            (ih d).0,
            (ih d).1
                ∙ rw now (
                    or_else-step (last_declared u name (valid_prefix xs))
                      (same_type t u && (other == name)) uuid (resolve_as u name c)),
          )

  -- `declareAliases` returns exactly where every <alias> node is well formed (a name, a type of the
  -- three, a uuid that parses), and throws a configuration error otherwise. Either way each name
  -- resolves to the last uuid that the nodes before the first malformed one give it for that type,
  -- and as before where they give none.
  pub declare_aliases_lem :
      (elt : Element) (u : AliasType) (name : String) (c : AliasContext)
      → let nodes = children elt "alias" in
        let (r, c') = declare_aliases X elt c in
        (r ≡ (if all_valid nodes then ok tt else err configuration))
        × (resolve_as u name c'
            ≡ or_else (last_declared u name (valid_prefix nodes)) (resolve_as u name c))
  unfolding declare_aliases
  declare_aliases_lem elt u name c =
      finish (process_xml_node (declare_alias_node X) (children elt "alias") c)
        (all_valid (children elt "alias")) (nodes_lem u name (children elt "alias") c)
    where
      finish :
          (p : Result (Unit {0}) × AliasContext) (b : Bool) {r : Result ℕ}
          → (p.0 ≡ outcome b) × (resolve_as u name p.1 ≡ r)
          → ((rethrow p).0 ≡ (if b then ok tt else err configuration))
            × (resolve_as u name (rethrow p).1 ≡ r)
      finish (ok tt, d) true h = (refl, h.1)
      finish (ok tt, d) false h = (cc h.0, h.1)
      finish (err e, d) true h = (cc h.0, h.1)
      finish (err e, d) false h = (ground (arith, h.0), h.1)
