-- ===== src/Property/Variant.antt =====
-- src/Property.cpp: a property that holds its values, each in a `std::any`. Only the setters of texts
-- look at the type of the property.
pub mod Laws
use xpcf.Base.{
  ℕ, String, Bool, true, false, ◌||◌, ◌&&◌, not, Option, none, some, List, [], ◌∷◌, if◌then◌else◌,
  ltb, length, get_elem?, set as write, string_keys, ◌==◌,
}
use xpcf.Exec.{Result, ok, err, Exec, out_of_range, access_denied, bad_any_cast, invalid_argument}
use xpcf.Property.{
  PropertyType, none_type, AccessSpecifier, property_in, property_out, property_inout, ErrorCode,
  success, fail, Value, type_of, same_type, is_text, is_number, cast_type, resize, structure_type,
  structure,
}

pub record Variant (F D : Type 0) : Type 0 where
  pub name : String
  pub type : PropertyType
  pub access : AccessSpecifier
  -- `m_queue`; `none` is an empty `std::any`
  pub queue : List (Option (Value F D))

-- The bits of an access specifier differ, so a mask holds one of them.
abbrev pub denies_writing : AccessSpecifier → Bool
denies_writing property_out = true
denies_writing _ = false

abbrev pub denies_reading : AccessSpecifier → Bool
denies_reading property_in = true
denies_reading _ = false

module _ {F D : Type 0} where
  -- `Property::Property()`
  unfoldable pub fresh : Variant F D
  fresh = record { name = "none"; type = none_type; access = property_inout; queue = [] }

  abbrev pub size : Variant F D → ℕ
  size p = length p.queue

  unfoldable pub clear : Variant F D → Variant F D
  clear p = if same_type p.type none_type then p else record p { queue = []; type = none_type }

  -- `checkType(newtype)`
  unfoldable pub check_type : PropertyType → Variant F D → Variant F D
  unfolding clear
  check_type newtype p = if same_type p.type newtype then p else record (clear p) { type = newtype }

  -- `m_queue.at(itemIndex) = value`
  abbrev pub write_at : ℕ → Value F D → Exec (Variant F D) (Unit {0})
  write_at item_index value p =
      if ltb item_index (size p)
      then (ok tt, record p { queue = write p.queue item_index (some value) })
      else (err out_of_range, p)

  -- The setters; that of a structure looks at the pointer before anything else. What is written to the property before an exception stays.
  unfoldable pub set : ℕ → Value F D → Exec (Variant F D) (Unit {0})
  unfolding check_type
  set item_index (structure none) p = (err invalid_argument, p)
  set item_index value p =
      if denies_writing p.access
      then (err access_denied, p)
      else write_at item_index value
          (if is_text (type_of value) then check_type (type_of value) p else p)

  -- `utils::any_cast`
  abbrev pub any_cast : PropertyType → Option (Option (Value F D)) → Result (Option (Value F D))
  any_cast type none = err out_of_range
  any_cast type (some none) = err bad_any_cast
  any_cast type (some (some v)) =
      if same_type (type_of v) type then ok (some v) else err bad_any_cast

  -- The getters; `none` is the answer 0 or a null pointer. A `long` asks for the type of an integer,
  -- and a double for that of a float.
  unfoldable pub get : PropertyType → ℕ → Variant F D → Result (Option (Value F D))
  get type item_index p =
      if not (same_type p.type (cast_type type))
        || (is_number type && ltb (size p) item_index)
        || (not (same_type type structure_type) && denies_reading p.access)
      then ok none
      else any_cast type (get_elem? p.queue item_index)

  unfoldable pub set_properties :
      Option String → ℕ → AccessSpecifier → Variant F D → ErrorCode × Variant F D
  unfolding clear
  set_properties none number_of_values iotype p = (fail, p)
  set_properties (some name) number_of_values iotype p = if name == "" then (fail, p) else (
    success,
    record (clear p) {
      name = name;
      queue = resize none number_of_values (clear p).queue;
      access = iotype;
    },
  )

  -- `CreateInstance` with a name; what `setProperties` answers is dropped.
  unfoldable pub create_instance : Option String → ℕ → AccessSpecifier → Variant F D
  unfolding fresh set_properties
  create_instance name number_of_values iotype =
      (set_properties name number_of_values iotype fresh).1
