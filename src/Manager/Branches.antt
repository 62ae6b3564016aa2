-- ===== src/Manager/Branches.antt =====
-- `configureValue` of src/PropertyManager.cpp, branch by branch.
use Prim.Native.String.{[] as end, ◌∷◌ as add_char}
use xpcf.Base.{
  ℕ, String, false, ◌≡◌, refl, ap, ◌∙◌, ◌==◌, string_keys, nat_keys, ==_self, if◌then◌else◌, ℤ,
  Bool-cases, inl, inr,
}
use xpcf.Exec.{Result, ok, err, configuration, continue}
use xpcf.Property.{ErrorCode, success, unicodestr_type, integer}
use xpcf.Property.Numerals.{stoll, to_int32, Read, codes}
use xpcf.Property.Store.{Store, wrapper, get_type, put, set_at}
use xpcf.Property.Wrapper.{Wrapper}
use xpcf.Manager.Platform.{Platform}
use xpcf.Manager.Configure.{configure_value, is_empty, bad_value, convert, all_read}

-- Only the empty text has no characters.
codes-filled : (t : String) → (t == "") ≡ false → is_empty (codes t) ≡ false
codes-filled end h = cc h
codes-filled (add_char c s) h = refl

module _ {F D : Type 0} (P : Platform F D) (a i : ℕ) (s : Store F D) where
  -- A property of wide texts is never configured: whatever the text, `configureValue` throws a
  -- ConfigurationException and changes nothing.
  pub configure_value-unicode :
      (t : String)
      → get_type (s.property a) ≡ unicodestr_type
      → configure_value P t a i s ≡ (err configuration, s)
  unfolding configure_value
  configure_value-unicode t h = elim (Bool-cases (t == "")) [
    | inl e ↦ rw e refl
    | inr e ↦ rw (e, h) (rw (codes-filled t e, h) refl)
  ]

module _ {F D : Type 0} where
  abbrev pub with_integer : ℕ → Wrapper F D → ℤ → Store F D → Store F D
  with_integer a w z s = put a (wrapper (record w { value = integer (to_int32 z) })) s

  -- What reading an integer ends with, by how the text is converted.
  abbrev pub integer_outcome :
      ℕ → Wrapper F D → Store F D → Result (Read ℤ) → Result ErrorCode × Store F D
  integer_outcome a w s (ok r) =
      (if is_empty r.rest then ok success else err configuration, with_integer a w r.value s)
  integer_outcome a w s (err e) = bad_value (err e, s)

  integer_round :
      (P : Platform F D) (a : ℕ) (w : Wrapper F D) (z : ℤ) (s : Store F D) (r : Result (Read ℤ))
      → s.property a ≡ wrapper (record w { value = integer z })
      → bad_value (continue (convert P r (λ x. integer (to_int32 x)) a 0 s) (all_read P a))
        ≡ integer_outcome a w s r
  unfolding set_at
  integer_round P a w z s (err e) h = refl
  integer_round P a w z s (ok r) h = elim (Bool-cases (is_empty r.rest)) [
    | inl e ↦ rw h (rw (==_self a, e) refl)
    | inr e ↦ rw h (rw (==_self a, e) refl)
  ]

  -- For an `int32_t` variable and a text that is not empty: the number is set modulo 2 ^ 32, also where
  -- something is left unread and a ConfigurationException follows; without a number that exception is
  -- thrown and nothing changes; a number outside 64 bits throws std::out_of_range and nothing changes.
  pub configure_value-integer :
      (P : Platform F D) (a : ℕ) (w : Wrapper F D) (z : ℤ) (s : Store F D) (t : String)
      → s.property a ≡ wrapper w
      → w.value ≡ integer z
      → (t == "") ≡ false
      → configure_value P t a 0 s ≡ integer_outcome a w s (stoll t)
  unfolding configure_value set_at
  configure_value-integer P a w z s t e v filled =
      let here : s.property a ≡ wrapper (record w { value = integer z }) =
        e ∙ ap (λ y. wrapper (record w { value = y })) v in
      rw (filled, ap get_type here) (integer_round P a w z s (stoll t) here)
