-- ===== src/Manager/Serialize.antt =====
-- `serializeParameter` and `serialize` of src/PropertyManager.cpp: the properties of a component are
-- written to an XML document. `fuel` bounds the depth of nested structures.
use xpcf.Base.{
  ℕ, zero, suc, String, Bool, true, false, Option, none, some, List, [], ◌∷◌, if◌then◌else◌, nat_eq,
}
use xpcf.Exec.{Result, ok, err, check, undefined, no_fuel}
use xpcf.Property.{
  PropertyType, integer_type, uinteger_type, long_type, ulong_type, charstr_type, unicodestr_type,
  float_type, double_type, structure_type, none_type, AccessSpecifier, property_in, property_out,
  property_inout, Value, integer, uinteger, long, ulong, charstr, unicodestr, floating, double,
  structure, same_type, ErrorCode, success, fail,
}
use xpcf.Property.Numerals.{to_string_ℕ, to_string_ℤ}
use xpcf.Property.Store.{Store, get_name, get_access_specifier, get_type, get, size}
use xpcf.Manager.Platform.{Platform}

-- `propertyTypeToStrMap`
abbrev pub type_text : PropertyType → String
type_text none_type = ""
type_text integer_type = "int"
type_text uinteger_type = "uint"
type_text long_type = "long"
type_text ulong_type = "ulong"
type_text charstr_type = "string"
type_text unicodestr_type = "wstring"
type_text float_type = "float"
type_text double_type = "double"
type_text structure_type = "structure"

-- `propertyAccessToStrMap`
abbrev pub access_text : AccessSpecifier → String
access_text property_in = "w"
access_text property_out = "r"
access_text property_inout = "rw"

module _ {F D : Type 0} (P : Platform F D) where
  open P use {
    xml, new_element, set_attribute, set_text, insert_end_child, uuid_text, float_text, double_text,
    save_file,
  }
  open xml use {Element}

  -- The switch over the types, on what the getter answers: a missing number is 0, and a
  -- null text is assigned to a `std::string`.
  abbrev pub value_text : PropertyType → Option (Value F D) → Result String
  value_text none_type v = ok ""
  value_text unicodestr_type v = ok ""
  value_text charstr_type none = err undefined
  value_text t (some (integer z)) = ok (to_string_ℤ z)
  value_text t (some (long z)) = ok (to_string_ℤ z)
  value_text t (some (uinteger n)) = ok (to_string_ℕ n)
  value_text t (some (ulong n)) = ok (to_string_ℕ n)
  value_text t (some (charstr s)) = ok s
  value_text t (some (floating x)) = ok (float_text x)
  value_text t (some (double x)) = ok (double_text x)
  value_text t (some (unicodestr s)) = ok ""
  value_text t (some (structure _)) = ok ""
  value_text float_type none = ok "0.000000"
  value_text double_type none = ok "0.000000"
  value_text t none = ok "0"

  -- Where the text of the value goes: an attribute if there is one value, else a node of its own.
  abbrev pub put_text : Bool → String → Element → Element
  put_text true text elt = set_attribute "value" text elt
  put_text false text elt = insert_end_child (set_text text (new_element "value")) elt

  module _ (s : Store F D) where
    -- One round of the loop for a value that is no structure; the getters of the two types without a
    -- text are not called.
    abbrev pub reads : PropertyType → ℕ → ℕ → Result (Option (Value F D))
    reads none_type i p = ok none
    reads unicodestr_type i p = ok none
    reads t i p = get t i (s.property p)

    unfoldable pub serialize_value : ℕ → ℕ → Element → Result Element
    serialize_value p i elt =
        let t = get_type (s.property p) in
        check (check (reads t i p) (value_text t))
          (λ text. ok (put_text (nat_eq (size (s.property p)) 1) text elt))

    -- The properties of a structure, each with `serialize_parameter`.
    abbrev pub each : (ℕ → Element → Result Element) → List ℕ → Element → Result Element
    each f [] elt = ok elt
    each f (p ∷ ps) elt = check (f p elt) (each f ps)

    module _ (serialize_node : ℕ → Element → Result Element) where
      -- One round of the loop for a structure; a null pointer is dereferenced.
      unfoldable pub serialize_structure : ℕ → ℕ → Element → Result Element
      serialize_structure p i elt =
          check (get structure_type i (s.property p))
            (λ v. elim v [ some (structure (some m)) ↦ serialize_node m elt | _ ↦ err undefined ])

      -- One round of the loop.
      unfoldable pub serialize_round : ℕ → ℕ → Element → Result Element
      unfolding serialize_structure serialize_value
      serialize_round p i elt =
          if same_type (get_type (s.property p)) structure_type
          then serialize_structure p i elt
          else serialize_value p i elt

      -- The rounds that are left, from the index on.
      unfoldable pub serialize_values : ℕ → ℕ → ℕ → Element → Result Element
      unfolding serialize_round
      serialize_values p zero i elt = ok elt
      serialize_values p (suc left) i elt =
          check (serialize_round p i elt) (serialize_values p left (suc i))

      -- `serializeParameter`
      unfoldable pub serialize_parameter : ℕ → Element → Result Element
      unfolding serialize_values
      serialize_parameter p node =
          let o = s.property p in
          let elt = set_attribute "type" (type_text (get_type o)) (
            set_attribute "access" (access_text (get_access_specifier o))
              (set_attribute "name" (get_name o) (new_element "property"))) in
          check (serialize_values p (size o) 0 elt) (λ done. ok (insert_end_child done node))

    -- The properties of a map, `for (auto property : …->getProperties())`.
    unfoldable pub serialize_map : ℕ → ℕ → Element → Result Element
    unfolding serialize_parameter
    serialize_map zero m elt = err no_fuel
    serialize_map (suc fuel) m elt =
        each (serialize_parameter (serialize_map fuel)) (s.node m).collection elt

    abbrev pub root_of : Option Element → Element
    root_of none = new_element "xpcf-configuration"
    root_of (some r) = r

    -- The document of `serialize`: its root. `none` is a file that could not be loaded.
    unfoldable pub serialize_document : ℕ → ℕ → ℕ → Option Element → Result Element
    unfolding serialize_map
    serialize_document fuel component_uuid m loaded =
        let root = root_of loaded in
        let component =
          set_attribute "component" (uuid_text component_uuid) (new_element "configure") in
        check (serialize_map fuel m component)
          (λ done. ok (insert_end_child (insert_end_child done (new_element "properties")) root))

    -- `serialize`, with what a LoadFile of the path finds before and after it. What the getters throw is
    -- not what the two `catch` take.
    unfoldable pub serialize_file : ℕ → ℕ → ℕ → Option Element → Result ErrorCode × Option Element
    unfolding serialize_document
    serialize_file fuel component_uuid m loaded =
        elim (serialize_document fuel component_uuid m loaded) [
          | err e ↦ (err e, loaded)
          | ok root ↦
              let (done, file) = save_file loaded root in
              (ok (if done then success else fail), file)
        ]
