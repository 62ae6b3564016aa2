-- ===== src/Factory/Lookup.antt =====
-- `Factory::resolveBind` of src/Factory.cpp: which component an interface stands for, in the
-- contexts of the components that are being built (the innermost first).
pub mod Visible
pub mod Sources
use xpcf.Base.{
  ℕ, String, Bool, true, false, not, ◌&&◌, List, [], ◌∷◌, Option, none, some, if◌then◌else◌, nat_eq,
  nat_keys, named_keys, Key,
}
use xpcf.Map
use xpcf.Map.{Map}
use xpcf.Exec.{Result, ok, err, injectable_not_found, or_throw}
use xpcf.Factory.{
  BindInfos, BindContext, component_context, FactoryContext, Factory, has_range, range_explicit,
  range_with_parents, range_named, range_default, range_all,
}

-- How the loop over the contexts ends: by a `return`, by a `throw`, or at its end or a `break`.
pub data Scan : Type 0 where
  found : BindInfos → Scan
  refused : Scan
  left : Scan

-- The outermost context, `contextLevels.back()`.
abbrev pub back : List BindContext → Option BindInfos
back [] = none
back ((t, v) ∷ []) = some v
back (c ∷ d ∷ cs) = back (d ∷ cs)

-- `contextLevels.empty() || contextLevels.back().second.bindingRangeMask & bits`
abbrev pub back_has : List BindContext → ℕ → Bool
back_has cs bits = elim (back cs) [ none ↦ true | some v ↦ has_range v.binding_range_mask bits ]

-- Where a key stands in the bindings of one component.
abbrev pub specific : {K : Type 0} ⦃e : Key K⦄ → Map ℕ (Map K BindInfos) → ℕ → K → Option BindInfos
specific m component key = elim (Map.lookup m component) [
  | none ↦ none
  | some bindings ↦ Map.lookup bindings key
]

module _ {Method : Type 0} (f : Factory Method) where
  abbrev core : ℕ → Option BindInfos
  core interface_uuid = Map.lookup f.core_bindings interface_uuid

  scan : ℕ → List BindContext → Scan
  scan interface_uuid [] = left
  scan interface_uuid ((component_context, v) ∷ rest) =
      elim (specific f.context.specific_bindings v.component_uuid interface_uuid) [
        | some infos ↦ found infos
        | none ↦
            if nat_eq v.binding_range_mask range_explicit
            then (elim (core interface_uuid) [ some infos ↦ found infos | none ↦ refused ])
            else if not (has_range v.binding_range_mask range_with_parents)
            then left
            else scan interface_uuid rest
      ]
  scan interface_uuid ((_, v) ∷ rest) = scan interface_uuid rest

  -- What follows the loop: the default bindings, the automatic ones and the core ones.
  resolve_default : ℕ → List BindContext → Result BindInfos
  resolve_default interface_uuid cs =
      elim (if back_has cs 24 then Map.lookup f.context.default_bindings interface_uuid else none) [
        | some infos ↦ ok infos
        | none ↦
            elim (if back_has cs range_all
              then Map.lookup f.context.auto_bindings interface_uuid
              else none) [
                | some infos ↦ ok infos
                | none ↦ or_throw (core interface_uuid) injectable_not_found
              ]
      ]

  unfoldable pub resolve_bind : ℕ → List BindContext → Result BindInfos
  unfolding scan resolve_default
  resolve_bind interface_uuid cs = elim (scan interface_uuid cs) [
    | found infos ↦ ok infos
    | refused ↦ err injectable_not_found
    | left ↦ resolve_default interface_uuid cs
  ]

  scan_named : ℕ × String → List BindContext → Scan
  scan_named key [] = left
  scan_named key ((component_context, v) ∷ rest) =
      elim (specific f.context.specific_named_bindings v.component_uuid key) [
        | some infos ↦ found infos
        | none ↦
            if nat_eq v.binding_range_mask range_explicit
            then refused
            else if not (has_range v.binding_range_mask range_with_parents)
            then left
            else scan_named key rest
      ]
  scan_named key ((_, v) ∷ rest) = scan_named key rest

  -- What follows the loop of the named overload.
  resolve_named_default : ℕ → String → List BindContext → Result BindInfos
  unfolding resolve_bind
  resolve_named_default interface_uuid name cs =
      elim (if back_has cs 28
        then Map.lookup f.context.named_bindings (interface_uuid, name)
        else none) [
          | some infos ↦ ok infos
          | none ↦
              if not (back_has cs 24)
              then err injectable_not_found
              else resolve_bind interface_uuid cs
        ]

  unfoldable pub resolve_bind_named : ℕ → String → List BindContext → Result BindInfos
  unfolding scan_named resolve_named_default
  resolve_bind_named interface_uuid name cs = elim (scan_named (interface_uuid, name) cs) [
    | found infos ↦ ok infos
    | refused ↦ err injectable_not_found
    | left ↦ resolve_named_default interface_uuid name cs
  ]

  -- `getComponentUUID`
  unfoldable pub get_component_uuid : ℕ → Result ℕ
  unfolding resolve_bind
  get_component_uuid interface_uuid = elim (resolve_bind interface_uuid []) [
    | ok infos ↦ ok infos.component_uuid
    | err e ↦ err e
  ]
