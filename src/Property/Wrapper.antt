-- ===== src/Property/Wrapper.antt =====
-- interfaces/private/xpcf/PropertyWrapper.h: a property that refers to one variable.
use xpcf.Base.{ℕ, String, Option, none, some, if◌then◌else◌, ltb, leb, string_keys, ◌==◌}
use xpcf.Exec.{Result, ok, err, out_of_range}
use xpcf.Property.{
  PropertyType, AccessSpecifier, ErrorCode, success, fail, Value, type_of, same_type, is_text,
}

pub record Wrapper (F D : Type 0) : Type 0 where
  pub name : String
  pub access : AccessSpecifier
  -- `m_wrappedValue`
  pub value : Value F D

module _ {F D : Type 0} where
  -- `m_size`
  abbrev pub size : Wrapper F D → ℕ
  size w = 1

  unfoldable pub set_value : ℕ → Value F D → Wrapper F D → Result (Wrapper F D)
  set_value item_index value w =
      if leb (size w) item_index then err out_of_range else ok (record w { value = value })

  -- The setters: the one for the wrapped type writes, the others do nothing. A text is written at
  -- any index.
  unfoldable pub set : ℕ → Value F D → Wrapper F D → Result (Wrapper F D)
  unfolding set_value
  set item_index value w =
      if same_type (type_of value) (type_of w.value)
      then (if is_text (type_of value)
          then ok (record w { value = value })
          else set_value item_index value w)
      else ok w

  unfoldable pub get_value : ℕ → Wrapper F D → Result (Value F D)
  get_value item_index w = if leb (size w) item_index then err out_of_range else ok w.value

  -- The getters: `none` where the one for another type answers 0 or a null pointer.
  -- `getStructureValue` does not look at the index.
  unfoldable pub get : PropertyType → ℕ → Wrapper F D → Result (Option (Value F D))
  unfolding get_value
  get type item_index w =
      if same_type type (type_of w.value)
      then (if same_type type PropertyType.structure_type
          then ok (some w.value)
          else elim (get_value item_index w) [ ok v ↦ ok (some v) | err e ↦ err e ])
      else ok none

  -- `none` is a null pointer.
  unfoldable pub set_properties :
      Option String → ℕ → AccessSpecifier → Wrapper F D → ErrorCode × Wrapper F D
  set_properties none number_of_values iotype w = (fail, w)
  set_properties (some name) number_of_values iotype w =
      if name == ""
      then (fail, w)
      else if ltb (size w) number_of_values
      then (fail, w)
      else (success, record w { name = name; access = iotype })
