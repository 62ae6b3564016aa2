-- ===== src/Property/Sequence.antt =====
-- interfaces/private/xpcf/PropertySequenceWrapper.h: a property that refers to a std::vector or a
-- std::deque.
use xpcf.Base.{
  ℕ, String, Option, none, some, List, if◌then◌else◌, ltb, length, get_elem?, set as write,
  string_keys, ◌==◌,
}
use xpcf.Exec.{Result, ok, err, out_of_range}
use xpcf.Property.{
  PropertyType, AccessSpecifier, ErrorCode, success, fail, Value, type_of, same_type, resize,
}

pub record Sequence (F D : Type 0) : Type 0 where
  pub name : String
  pub access : AccessSpecifier
  pub type : PropertyType
  -- `m_wrappedValue`
  pub values : List (Value F D)

module _ {F D : Type 0} where
  abbrev pub size : Sequence F D → ℕ
  size q = length q.values

  -- `m_wrappedValue.at(itemIndex) = value`
  unfoldable pub set_value : ℕ → Value F D → Sequence F D → Result (Sequence F D)
  set_value item_index value q =
      if ltb item_index (size q)
      then ok (record q { values = write q.values item_index value })
      else err out_of_range

  -- The setters: the one for the type of the elements writes, the others do nothing.
  unfoldable pub set : ℕ → Value F D → Sequence F D → Result (Sequence F D)
  unfolding set_value
  set item_index value q =
      if same_type (type_of value) q.type then set_value item_index value q else ok q

  unfoldable pub get_value : ℕ → Sequence F D → Result (Value F D)
  get_value item_index q = elim (get_elem? q.values item_index) [
    | none ↦ err out_of_range
    | some v ↦ ok v
  ]

  -- The getters: `none` where the one for another type answers 0 or a null pointer.
  unfoldable pub get : PropertyType → ℕ → Sequence F D → Result (Option (Value F D))
  unfolding get_value
  get type item_index q =
      if same_type type q.type
      then elim (get_value item_index q) [ ok v ↦ ok (some v) | err e ↦ err e ]
      else ok none

  unfoldable pub set_properties :
      Value F D → Option String → ℕ → AccessSpecifier → Sequence F D → ErrorCode × Sequence F D
  set_properties empty none number_of_values iotype q = (fail, q)
  set_properties empty (some name) number_of_values iotype q = if name == "" then (fail, q) else (
    success,
    record q { name = name; access = iotype; values = resize empty number_of_values q.values },
  )
