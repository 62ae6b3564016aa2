-- ===== src/Manager/RoundTrip/Single.antt =====
-- A property of one number or text: its value is an attribute of the element.
use xpcf.Base.{ℕ, String, ◌≡◌, refl, ap, ◌∙◌, arith, Option, some, string_keys, nat_keys}
use xpcf.Exec.{Result, ok, Exec}
use xpcf.Property.{
  ErrorCode, success, Value, integer, uinteger, long, ulong, charstr, unicodestr, floating, double,
  structure, type_of,
}
use xpcf.Property.Wrapper.{Wrapper}
use xpcf.Property.Store.{Object, wrapper, sequence, variant, Store, get_type, get, set, put}
use xpcf.Manager.Platform.{Platform}
use xpcf.Manager.Configure.{configure_found}
use xpcf.Manager.Serialize.{serialize_values}
use xpcf.Manager.RoundTrip.Shape.{Shaped, Shaped-type, Storable, type-Storable}
use xpcf.Manager.RoundTrip.Values.{text_of, configure_value-text, serialize_round-text}
use xpcf.Manager.RoundTrip.Elements.{Tagged, configure_found-attribute}

module _ {F D : Type 0} where
  -- The setter gives the variable its value.
  set_held :
      (n : String) (v : Value F D) (w : Wrapper F D)
      → Storable v
      → type_of w.value ≡ type_of v
      → set 0 v (wrapper w) ≡ (ok tt, wrapper (record w { value = v }))
  unfolding set
  set_held n (integer z) w h e = rw e refl
  set_held n (long z) w h e = rw e refl
  set_held n (uinteger z) w h e = rw e refl
  set_held n (ulong z) w h e = rw e refl
  set_held n (charstr z) w h e = rw e refl
  set_held n (unicodestr z) w h e = absurd h
  set_held n (floating z) w h e = absurd h
  set_held n (double z) w h e = absurd h
  set_held n (structure z) w h e = absurd h

  pub set-Shaped :
      (w : Wrapper F D) (o : Object F D)
      → Storable w.value
      → Shaped (wrapper w) o
      → set 0 w.value o ≡ (ok tt, wrapper w)
  set-Shaped w (wrapper v) h (n, a, k) =
      set_held w.name w.value v h (Shaped-type (wrapper w) (wrapper v) (n, a, k)) ∙ ground arith
  set-Shaped w (sequence e q) h k = absurd k
  set-Shaped w (variant p) h k = absurd k

  get_held :
      (w : Wrapper F D) → Storable w.value → get (type_of w.value) 0 (wrapper w) ≡ ok (some w.value)
  unfolding get
  get_held w h = go w.value h
    where
      go :
          (v : Value F D)
          → Storable v
          → get (type_of v) 0 (wrapper (record w { value = v })) ≡ ok (some v)
      go (integer z) h = refl
      go (long z) h = refl
      go (uinteger z) h = refl
      go (ulong z) h = refl
      go (charstr z) h = refl
      go (unicodestr z) h = absurd h
      go (floating z) h = absurd h
      go (double z) h = absurd h
      go (structure z) h = absurd h

module _ {F D : Type 0} (P : Platform F D) where
  open P use {xml, set_attribute}
  open xml use {Element, attribute, children}

  pub serialize_values-single :
      (s : Store F D) (f : ℕ → Element → Result Element) (p : ℕ) (w : Wrapper F D) (x : Element)
      → s.property p ≡ wrapper w
      → Storable w.value
      → serialize_values P s f p 1 0 x ≡ ok (set_attribute "value" (text_of P w.value) x)
  unfolding serialize_values
  serialize_values-single s f p w x e h =
      let round =
        serialize_round-text P s f p 0 x w.value h (ap get_type e) (rw e (get_held w h)) in
      rw round (rw e refl)

  pub found-single :
      (s : Store F D) (f : Element → Option ℕ → Exec (Store F D) ErrorCode) (p : ℕ)
      (w : Wrapper F D) (t : Store F D) (x : Element)
      → s.property p ≡ wrapper w
      → Storable w.value
      → Shaped (wrapper w) (t.property p)
      → Tagged P (wrapper w) x
      → attribute x "value" ≡ some (text_of P w.value)
      → configure_found P f x p t ≡ (ok success, put p (wrapper w) t)
  found-single s f p w t x e h shape tags v =
      configure_found-attribute P (wrapper w) (type-Storable w.value h) f x p t tags
        (text_of P w.value) v
      ∙ configure_value-text P p 0 t (wrapper w) w.value h
          (Shaped-type (wrapper w) (t.property p) shape) (set-Shaped w (t.property p) h shape) refl
