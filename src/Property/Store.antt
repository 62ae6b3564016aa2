-- ===== src/Property/Store.antt =====
-- The objects that `SRef<IProperty>` and `SRef<IPropertyMap>` point to, by address: a property may
-- stand in several maps, and a map in several properties. The calls of IProperty go to the class of the
-- object.
use xpcf.Base.{
  ℕ, zero, suc, String, Bool, true, false, Option, none, some, List, if◌then◌else◌, nat_keys,
  nat_eq, string_keys, ltb,
}
use xpcf.Map.{Map}
use xpcf.Exec.{Result, ok, err, Exec, pure, continue, invalid_argument, logic_error}
use xpcf.Property.{
  PropertyType, none_type, long_type, ulong_type, double_type, AccessSpecifier, ErrorCode, success,
  fail, Value, type_of, same_type,
}
use xpcf.Property.Wrapper
use xpcf.Property.Wrapper.{Wrapper}
use xpcf.Property.Sequence
use xpcf.Property.Sequence.{Sequence}
use xpcf.Property.Variant
use xpcf.Property.Variant.{Variant}

pub data Object (F D : Type 0) : Type 0 where
  wrapper : Wrapper F D → Object F D
  -- with the value of a new element
  sequence : Value F D → Sequence F D → Object F D
  variant : Variant F D → Object F D

-- src/PropertyMap.cpp: the properties by name, and in the order in which they were added.
pub record PropertyMap : Type 0 where
  pub property_map : Map String ℕ
  pub collection : List ℕ

pub record Store (F D : Type 0) : Type 0 where
  pub property : ℕ → Object F D
  pub node : ℕ → PropertyMap

abbrev rewrap : {A B : Type 0} → (A → B) → B → Result A → Result (Unit {0}) × B
rewrap f old (ok a) = (ok tt, f a)
rewrap f old (err e) = (err e, old)

-- The types that the switch of `copyTo` has no case for, in each of the three classes.
abbrev pub not_copied : PropertyType → Bool
not_copied none_type = true
not_copied long_type = true
not_copied ulong_type = true
not_copied double_type = true
not_copied _ = false

module _ {F D : Type 0} where
  abbrev pub get_name : Object F D → String
  get_name (wrapper w) = w.name
  get_name (sequence _ q) = q.name
  get_name (variant p) = p.name

  abbrev pub get_access_specifier : Object F D → AccessSpecifier
  get_access_specifier (wrapper w) = w.access
  get_access_specifier (sequence _ q) = q.access
  get_access_specifier (variant p) = p.access

  abbrev pub get_type : Object F D → PropertyType
  get_type (wrapper w) = type_of w.value
  get_type (sequence _ q) = q.type
  get_type (variant p) = p.type

  abbrev pub size : Object F D → ℕ
  size (wrapper w) = Wrapper.size w
  size (sequence _ q) = Sequence.size q
  size (variant p) = Variant.size p

  unfoldable pub get : PropertyType → ℕ → Object F D → Result (Option (Value F D))
  unfolding Wrapper.get Sequence.get Variant.get
  get type i (wrapper w) = Wrapper.get type i w
  get type i (sequence _ q) = Sequence.get type i q
  get type i (variant p) = Variant.get type i p

  unfoldable pub set : ℕ → Value F D → Exec (Object F D) (Unit {0})
  unfolding Wrapper.set Sequence.set Variant.set
  set i v (wrapper w) = rewrap wrapper (wrapper w) (Wrapper.set i v w)
  set i v (sequence e q) = rewrap (sequence e) (sequence e q) (Sequence.set i v q)
  set i v (variant p) = let (r, p') = Variant.set i v p in (r, variant p')

  unfoldable pub set_properties :
      Option String → ℕ → AccessSpecifier → Object F D → ErrorCode × Object F D
  unfolding Wrapper.set_properties Sequence.set_properties Variant.set_properties
  set_properties name n iotype (wrapper w) =
      let (c, w') = Wrapper.set_properties name n iotype w in (c, wrapper w')
  set_properties name n iotype (sequence e q) =
      let (c, q') = Sequence.set_properties e name n iotype q in (c, sequence e q')
  set_properties name n iotype (variant p) =
      let (c, p') = Variant.set_properties name n iotype p in (c, variant p')

  -- `setName`; `none` is a null pointer
  unfoldable pub set_name : Option String → Object F D → Result (Object F D)
  set_name none o = err invalid_argument
  set_name (some name) (wrapper w) = ok (wrapper (record w { name = name }))
  set_name (some name) (sequence e q) = ok (sequence e (record q { name = name }))
  set_name (some name) (variant p) = ok (variant (record p { name = name }))

  unfoldable pub set_access_specifier : AccessSpecifier → Object F D → Object F D
  set_access_specifier iotype (wrapper w) = wrapper (record w { access = iotype })
  set_access_specifier iotype (sequence e q) = sequence e (record q { access = iotype })
  set_access_specifier iotype (variant p) = variant (record p { access = iotype })

  abbrev pub put : ℕ → Object F D → Store F D → Store F D
  put a o s = record s { property = λ b. if nat_eq a b then o else s.property b }

  -- A call of a setter on the object at an address.
  unfoldable pub set_at : ℕ → ℕ → Value F D → Exec (Store F D) (Unit {0})
  unfolding set
  set_at a i v s = let (r, o) = set i v (s.property a) in (r, put a o s)

  -- A setter of texts that is given a null pointer: `Property` throws, and a std::string of the wrapped
  -- variable cannot be made of it.
  abbrev set_null : PropertyType → ℕ → Exec (Store F D) (Unit {0})
  set_null type dest s = elim (s.property dest) [
    | variant _ ↦ (err invalid_argument, s)
    | other ↦ if same_type (get_type other) type then (err logic_error, s) else (ok tt, s)
  ]

  -- `dest->set…Value(get…Value(i), i)`
  copy_value : PropertyType → ℕ → ℕ → ℕ → Exec (Store F D) (Unit {0})
  unfolding get set_at
  copy_value type src dest i s = elim (get type i (s.property src)) [
    | ok (some v) ↦ set_at dest i v s
    | ok none ↦ set_null type dest s
    | err e ↦ (err e, s)
  ]

  -- The rounds of the loop from `i` on; the size is read again in each. `fuel` bounds them.
  copy_values : ℕ → PropertyType → ℕ → ℕ → ℕ → Exec (Store F D) (Unit {0})
  unfolding copy_value
  copy_values zero type src dest i s = (ok tt, s)
  copy_values (suc fuel) type src dest i s =
      let more =
        continue (copy_value type src dest i s) (λ _. copy_values fuel type src dest (suc i)) in
      if ltb i (size (s.property src)) then more else (ok tt, s)

  -- `copyTo`, to an object that may be the same one
  unfoldable pub copy_to : ℕ → ℕ → Exec (Store F D) ErrorCode
  unfolding copy_values set_properties
  copy_to src dest s =
      let o = s.property src in
      let (c, d) =
        set_properties (some (get_name o)) (size o) (get_access_specifier o) (s.property dest) in
      let s1 = put dest d s in
      let type = get_type (s1.property src) in
      if not_copied type
      then (ok fail, s1)
      else continue (copy_values (size o) type src dest 0 s1) (λ _. pure success)
