-- ===== src/Property.antt =====
-- interfaces/xpcf/properties/IProperty.h and the three classes that implement it: PropertyWrapper and
-- PropertySequenceWrapper (interfaces/private/xpcf), which refer to a variable of the component, and
-- Property (src/Property.cpp), which holds its values. A variable that is wrapped is kept in the
-- wrapper. `F` and `D` are the machine's float and double.
pub mod Numerals
pub mod Wrapper
pub mod Sequence
pub mod Variant
pub mod Store
pub mod Maps
pub mod Frame
use xpcf.Base.{
  ℕ, zero, suc, List, [], ◌∷◌, String, Bool, true, false, Option, ℤ, nat_eq, nat_keys, ==_self, ◌≡◌,
}

pub data PropertyType : Type 0 where
  none_type integer_type uinteger_type long_type ulong_type charstr_type unicodestr_type :
      PropertyType
  float_type double_type structure_type : PropertyType

pub data AccessSpecifier : Type 0 where
  property_in property_out property_inout : AccessSpecifier

-- `XPCFErrorCode`
pub data ErrorCode : Type 0 where
  success fail error_invalid_argument error_domain error_not_implemented error_null_pointer :
      ErrorCode
  error_out_of_range error_type error_overflow error_underflow error_out_of_memory : ErrorCode
  error_range error_system error_unknown error_access_denied error_timeout : ErrorCode
  error_illegal_state error_component_unknown error_interface_unknown error_module_unknown :
      ErrorCode
  error_module_missing_xpcf_entry error_injection_failed : ErrorCode
  error_injectable_already_declared error_injectable_unknown error_injectable_nobind : ErrorCode
  error_remoting : ErrorCode

-- A value that one of the setters takes; a structure is the address of an IPropertyMap, `none` if null.
pub data Value (F D : Type 0) : Type 0 where
  integer long : ℤ → Value F D
  uinteger ulong : ℕ → Value F D
  charstr : String → Value F D
  unicodestr : String → Value F D
  floating : F → Value F D
  double : D → Value F D
  structure : Option ℕ → Value F D

-- `getType`
abbrev pub type_of : {F D : Type 0} → Value F D → PropertyType
type_of (integer _) = integer_type
type_of (long _) = long_type
type_of (uinteger _) = uinteger_type
type_of (ulong _) = ulong_type
type_of (charstr _) = charstr_type
type_of (unicodestr _) = unicodestr_type
type_of (floating _) = float_type
type_of (double _) = double_type
type_of (structure _) = structure_type

abbrev index : PropertyType → ℕ
index none_type = 0
index integer_type = 1
index uinteger_type = 2
index long_type = 3
index ulong_type = 4
index charstr_type = 5
index unicodestr_type = 6
index float_type = 7
index double_type = 8
index structure_type = 9

abbrev pub is_text : PropertyType → Bool
is_text charstr_type = true
is_text unicodestr_type = true
is_text _ = false

abbrev pub same_type : PropertyType → PropertyType → Bool
same_type s t = nat_eq (index s) (index t)

pub same_type_self : (t : PropertyType) → same_type t t ≡ true
same_type_self t = ==_self (index t)

-- The type that `Property` compares with its own, for each getter.
abbrev pub cast_type : PropertyType → PropertyType
cast_type long_type = integer_type
cast_type ulong_type = uinteger_type
cast_type double_type = float_type
cast_type t = t

abbrev pub is_number : PropertyType → Bool
is_number charstr_type = false
is_number unicodestr_type = false
is_number structure_type = false
is_number _ = true

-- `resize` of a standard sequence; `empty` is the value of a new element.
abbrev pub resize : {A : Type 0} → A → ℕ → List A → List A
resize empty zero vs = []
resize empty (suc n) [] = empty ∷ resize empty n []
resize empty (suc n) (v ∷ vs) = v ∷ resize empty n vs
