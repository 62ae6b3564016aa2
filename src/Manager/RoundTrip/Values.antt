-- ===== src/Manager/RoundTrip/Values.antt =====
-- One value through `serializeParameter` and `configureValue`.
use xpcf.Base.{
  ℕ, String, ◌≡◌, refl, arith, some, string_keys, nat_eq, ==_self, nat_keys, ◌<◌, ◌^◌, ℤ, pos,
  negsuc,
}
use xpcf.Exec.{Result, ok}
use xpcf.Property.{
  success, Value, integer, uinteger, long, ulong, charstr, unicodestr, floating, double, structure,
  type_of,
}
use xpcf.Property.Numerals.{to_int32, to_uint32, to_string_ℕ, to_string_ℤ, InInt64}
use xpcf.Property.Numerals.RoundTrip.{stoll-to_string, stoull-to_string, filled_ℕ, filled_ℤ}
use xpcf.Property.Store.{Object, Store, get_type, get, size, set, set_at, put}
use xpcf.Manager.Platform.{Platform}
use xpcf.Manager.Configure.{configure_value}
use xpcf.Manager.Serialize.{value_text, put_text, serialize_round}
use xpcf.Manager.RoundTrip.Shape.{InInt32, Storable}

to_int32_lem : (z : ℤ) → InInt32 z → to_int32 z ≡ z
unfolding to_int32
to_int32_lem (pos n) h = ground arith
to_int32_lem (negsuc n) h = ground arith

to_uint32_lem : (n : ℕ) → n < 2 ^ 32 → to_uint32 n ≡ n
unfolding to_uint32
to_uint32_lem n h = omega arith

wider : (z : ℤ) → InInt32 z → InInt64 z
wider (pos n) h = omega arith
wider (negsuc n) h = omega arith

module _ {F D : Type 0} (P : Platform F D) where
  -- The text of a value.
  abbrev pub text_of : Value F D → String
  text_of (integer z) = to_string_ℤ z
  text_of (long z) = to_string_ℤ z
  text_of (uinteger n) = to_string_ℕ n
  text_of (ulong n) = to_string_ℕ n
  text_of (charstr s) = s
  text_of _ = ""

  pub value_text_lem :
      (v : Value F D) → Storable v → value_text P (type_of v) (some v) ≡ ok (text_of v)
  value_text_lem (integer z) h = refl
  value_text_lem (long z) h = refl
  value_text_lem (uinteger n) h = refl
  value_text_lem (ulong n) h = refl
  value_text_lem (charstr s) h = refl
  value_text_lem (unicodestr s) h = absurd h
  value_text_lem (floating x) h = absurd h
  value_text_lem (double x) h = absurd h
  value_text_lem (structure x) h = absurd h

  module _ (a i : ℕ) (s : Store F D) (o : Object F D) where
    -- Reading the text of a value sets the value, where the setter of its type changes the object to `o`.
    pub configure_value-text :
        (v : Value F D)
        → Storable v
        → get_type (s.property a) ≡ type_of v
        → set i v (s.property a) ≡ (ok tt, o)
        → get_type o ≡ type_of v
        → configure_value P (text_of v) a i s ≡ (ok success, put a o s)
    unfolding configure_value set_at
    configure_value-text (integer z) h e w t =
        rw (filled_ℤ z (wider z h), e, stoll-to_string z (wider z h), to_int32_lem z h, w) refl
    configure_value-text (long z) h e w t = rw (filled_ℤ z h, e, stoll-to_string z h, w) refl
    configure_value-text (uinteger n) h e w t =
        let b : n < 2 ^ 64 = omega arith in
        rw (filled_ℕ n b, e, stoull-to_string n b, to_uint32_lem n h, w) refl
    configure_value-text (ulong n) h e w t = rw (filled_ℕ n h, e, stoull-to_string n h, w) refl
    configure_value-text (charstr x) h e w t = rw (h, e, w) (rw (==_self a) (rw t (ground arith)))
    configure_value-text (unicodestr x) h e w t = absurd h
    configure_value-text (floating x) h e w t = absurd h
    configure_value-text (double x) h e w t = absurd h
    configure_value-text (structure x) h e w t = absurd h

  open P use {xml}
  open xml use {Element}

  -- One round of the loop writes the text of the value.
  pub serialize_round-text :
      (s : Store F D) (f : ℕ → Element → Result Element) (p i : ℕ) (x : Element) (v : Value F D)
      → Storable v
      → get_type (s.property p) ≡ type_of v
      → get (type_of v) i (s.property p) ≡ ok (some v)
      → serialize_round P s f p i x ≡ ok (put_text P (nat_eq (size (s.property p)) 1) (text_of v) x)
  unfolding serialize_round
  serialize_round-text s f p i x (integer z) h e g = rw e (rw g refl)
  serialize_round-text s f p i x (long z) h e g = rw e (rw g refl)
  serialize_round-text s f p i x (uinteger n) h e g = rw e (rw g refl)
  serialize_round-text s f p i x (ulong n) h e g = rw e (rw g refl)
  serialize_round-text s f p i x (charstr z) h e g = rw e (rw g refl)
  serialize_round-text s f p i x (unicodestr z) h e g = absurd h
  serialize_round-text s f p i x (floating z) h e g = absurd h
  serialize_round-text s f p i x (double z) h e g = absurd h
  serialize_round-text s f p i x (structure z) h e g = absurd h
