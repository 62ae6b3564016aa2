-- ===== src/Manager/Configure.antt =====
-- `configureValue`, `configureProperty`, `configureElement` and `configure` of
-- src/PropertyManager.cpp: values of an XML document are written to the properties of a component.
-- Messages and log lines are left out. `fuel` bounds the depth of nested structures.
use xpcf.Base.{
  ℕ, zero, suc, String, Bool, true, false, not, ◌&&◌, Option, none, some, List, [], ◌∷◌,
  if◌then◌else◌, string_keys, nat_eq, ◌==◌,
}
use xpcf.Exec.{
  Result, ok, err, Exec, pure, continue, rethrow, configuration, logic_error, invalid_argument,
  runtime_error, no_fuel, or_throw,
}
use xpcf.Map.{is_some}
use xpcf.Alias.{AliasContext, component_type, alias_exists, resolve_component_alias}
use xpcf.Property.{
  PropertyType, integer_type, uinteger_type, long_type, ulong_type, charstr_type, unicodestr_type,
  float_type, double_type, structure_type, none_type, ErrorCode, success, error_invalid_argument,
  error_null_pointer, error_type, Value, integer, uinteger, long, ulong, charstr, floating, double,
  structure, same_type,
}
use xpcf.Property.Numerals.{Read, codes, stoll, stoull, to_int32, to_uint32}
use xpcf.Property.Store.{Store, get_type, get, set_at}
use xpcf.Property.Maps.{at}
use xpcf.Manager.Platform.{Platform}

abbrev pub is_empty : List ℕ → Bool
is_empty [] = true
is_empty (_ ∷ _) = false

abbrev pub or_empty : Option String → String
or_empty none = ""
or_empty (some s) = s

abbrev pub first {ℓ} : {A : Type ℓ} → List A → Option A
first [] = none
first (x ∷ _) = some x

-- `catch (const std::invalid_argument &)`
abbrev pub bad_value : {S A : Type 0} → Result A × S → Result A × S
bad_value (err invalid_argument, s) = (err configuration, s)
bad_value (r, s) = (r, s)

-- Elements are worked on while the result is `_SUCCESS`.
abbrev pub if_success : {S : Type 0} → ErrorCode → Exec S ErrorCode → Exec S ErrorCode
if_success success more = more
if_success c more = pure c

unfoldable pub while_success : {S A : Type 0} → (A → Exec S ErrorCode) → List A → Exec S ErrorCode
while_success f [] s = (ok success, s)
while_success f (x ∷ xs) s = continue (f x s) (λ c. if_success c (while_success f xs))

module _ {F D : Type 0} (P : Platform F D) where
  open P use {xml, get_text, stof, stod}
  open xml use {Element, attribute, children, to_uuid}

  -- One case of the switch: the conversion, and the setter. The result is what was left unread.
  abbrev pub convert :
      {A : Type 0} → Result (Read A) → (A → Value F D) → ℕ → ℕ → Exec (Store F D) (Option (List ℕ))
  convert (ok r) f a i s = continue (set_at a i (f r.value) s) (λ _. pure (some r.rest))
  convert (err e) f a i s = (err e, s)

  -- The switch of `configureValue`; `none` is its default case. A text leaves `processedValue` at 0.
  unfoldable pub convert_value : PropertyType → String → ℕ → ℕ → Exec (Store F D) (Option (List ℕ))
  convert_value integer_type t a i = convert (stoll t) (λ z. integer (to_int32 z)) a i
  convert_value uinteger_type t a i = convert (stoull t) (λ n. uinteger (to_uint32 n)) a i
  convert_value long_type t a i = convert (stoll t) long a i
  convert_value ulong_type t a i = convert (stoull t) ulong a i
  convert_value float_type t a i = convert (stof t) floating a i
  convert_value double_type t a i = convert (stod t) double a i
  convert_value charstr_type t a i =
      λ s. continue (set_at a i (charstr t) s) (λ _. pure (some (codes t)))
  convert_value unicodestr_type t a i = pure (some (codes t))
  convert_value none_type t a i = pure none
  convert_value structure_type t a i = pure none

  abbrev pub all_read : ℕ → Option (List ℕ) → Exec (Store F D) ErrorCode
  all_read a none s = (ok error_type, s)
  all_read a (some rest) s =
      if not (is_empty rest) && not (same_type (get_type (s.property a)) charstr_type)
      then (err configuration, s)
      else (ok success, s)

  unfoldable pub configure_value : String → ℕ → ℕ → Exec (Store F D) ErrorCode
  unfolding convert_value
  configure_value value_str a i s =
      if value_str == ""
      then (err configuration, s)
      else bad_value
          (continue (convert_value (get_type (s.property a)) value_str a i s) (all_read a))

  -- The <value> nodes from the index on.
  unfoldable pub configure_values : ℕ → ℕ → List Element → Exec (Store F D) ErrorCode
  unfolding configure_value
  configure_values a i [] s = (ok success, s)
  configure_values a i (x ∷ xs) s = elim (get_text x) [
    | none ↦ (err logic_error, s)
    | some t ↦
        continue (configure_value t a i s) (λ c. if_success c (configure_values a (suc i) xs))
  ]

  module _ (configure_node : Element → Option ℕ → Exec (Store F D) ErrorCode) where
    -- A <property> of type "structure".
    unfoldable pub configure_structure : Element → ℕ → Exec (Store F D) ErrorCode
    configure_structure elt p s =
        if same_type (get_type (s.property p)) structure_type
        then elim (get structure_type 0 (s.property p)) [
          | ok (some (structure node)) ↦ configure_node elt node s
          | ok _ ↦ configure_node elt none s
          | err e ↦ (err e, s)
        ]
        else (err configuration, s)

    -- The `try` of `configureProperty`.
    unfoldable pub configure_found : Element → ℕ → Exec (Store F D) ErrorCode
    unfolding configure_structure configure_values
    configure_found elt p s = elim (attribute elt "type") [
      | none ↦ (err logic_error, s)
      | some type ↦
          if type == ""
          then (err configuration, s)
          else if type == "structure"
          then configure_structure elt p s
          else elim (attribute elt "value") [
            | some value ↦ configure_value value p 0 s
            | none ↦ configure_values p 0 (children elt "value") s
          ]
    ]

    unfoldable pub configure_property : ℕ → Element → Exec (Store F D) ErrorCode
    unfolding configure_found at
    configure_property m elt s =
        let property_name = or_empty (attribute elt "name") in
        if property_name == ""
        then (ok error_invalid_argument, s)
        else rethrow (elim (at m property_name s) [
          | none ↦ (err configuration, s)
          | some p ↦ configure_found elt p s
        ])

  -- `configureElement`; the node is `none` for a null pointer.
  unfoldable pub configure_element : ℕ → Element → Option ℕ → Exec (Store F D) ErrorCode
  unfolding configure_property while_success
  configure_element zero elt parameters s = (err no_fuel, s)
  configure_element (suc fuel) elt none s = (ok error_null_pointer, s)
  configure_element (suc fuel) elt (some m) s =
      while_success (configure_property (configure_element fuel) m) (children elt "property") s

  -- `unnamedPredicate`, and `namedPredicate` for the name of an instance
  abbrev pub unnamed : Element → Bool
  unnamed elt = not (is_some (attribute elt "name"))

  abbrev pub named : String → Element → Bool
  named instance_name elt = elim (attribute elt "name") [
    | none ↦ false
    | some n ↦ n == instance_name
  ]

  module _ (aliases : AliasContext) (predicate : Element → Bool) (component_uuid : ℕ)
      (fuel root : ℕ) where
    -- A node for the component itself is worked on.
    abbrev configure_if : Element → ℕ → Exec (Store F D) ErrorCode
    configure_if elt uuid s =
        if nat_eq uuid component_uuid
        then configure_element fuel elt (some root) s
        else (ok success, s)

    -- The two `catch` of a <component>; the second reads the attribute `name`, which may be missing.
    abbrev pub component_catch :
        Element → Result ErrorCode × Store F D → Result ErrorCode × Store F D
    component_catch elt (err runtime_error, s) = elim (attribute elt "name") [
      | none ↦ (err logic_error, s)
      | some _ ↦ (err configuration, s)
    ]
    component_catch elt r = rethrow r

    -- One round of the loop over <component> nodes.
    unfoldable pub configure_component : Element → Exec (Store F D) ErrorCode
    unfolding configure_element
    configure_component elt s = component_catch elt (elim (attribute elt "uuid") [
      | none ↦ (err logic_error, s)
      | some uuid ↦
          if predicate elt
          then elim (to_uuid uuid) [ none ↦ (err runtime_error, s) | some u ↦ configure_if elt u s ]
          else (ok success, s)
    ])

    abbrev pub catch_runtime : Result ErrorCode × Store F D → Result ErrorCode × Store F D
    catch_runtime (err runtime_error, s) = (err configuration, s)
    catch_runtime r = rethrow r

    -- An alias of a component, or the text of a uuid.
    abbrev pub component_named : String → Result ℕ
    component_named text =
        if alias_exists component_type text aliases
        then resolve_component_alias text aliases
        else or_throw (to_uuid text) runtime_error

    -- One round of the loop over <configure> nodes.
    unfoldable pub configure_configure : Element → Exec (Store F D) ErrorCode
    unfolding configure_element
    configure_configure elt s = catch_runtime (elim (attribute elt "component") [
      | none ↦ (err logic_error, s)
      | some text ↦ elim (component_named text) [
        | err e ↦ (err e, s)
        | ok uuid ↦ if predicate elt then configure_if elt uuid s else (ok success, s)
      ]
    ])

    abbrev pub in_first :
        String
        → (Element → Exec (Store F D) ErrorCode)
        → Option Element
        → Exec (Store F D) ErrorCode
    in_first node_name f none s = (ok success, s)
    in_first node_name f (some node) s = while_success f (children node node_name) s

    -- `configure` on the root of the file; `none` where it could not be loaded.
    unfoldable pub configure : Option Element → Exec (Store F D) ErrorCode
    unfolding configure_component configure_configure while_success
    configure none s = (ok success, s)
    configure (some elt) s =
        continue (in_first "component" configure_component (first (children elt "configuration")) s)
          (λ c.
            if_success c
              (in_first "configure" configure_configure (first (children elt "properties"))))

  -- `configure` for the name of an instance; `none` is a null pointer.
  unfoldable pub configure_named :
      AliasContext → Option String → ℕ → ℕ → ℕ → Option Element → Exec (Store F D) ErrorCode
  unfolding configure
  configure_named aliases none uuid fuel root loaded s = (ok error_invalid_argument, s)
  configure_named aliases (some name) uuid fuel root loaded s =
      configure aliases (named name) uuid fuel root loaded s
