-- ===== src/Manager/RoundTrip/Elements.antt =====
-- The element that `serializeParameter` makes for a property, and what reading starts from.
use xpcf.Base.{ℕ, String, false, ◌≡◌, refl, Option, none, some, [], ◌==◌, string_keys}
use xpcf.Exec.{ok, Exec}
use xpcf.Property.{
  ErrorCode, success, PropertyType, none_type, integer_type, uinteger_type, long_type, ulong_type,
  charstr_type, unicodestr_type, float_type, double_type, structure_type,
}
use xpcf.Property.Store.{Object, Store, get_name, get_type, get_access_specifier}
use xpcf.Property.Maps.{at}
use xpcf.Manager.Platform.{Platform, Laws}
use xpcf.Manager.Configure.{configure_property, configure_found, configure_value, configure_values}
use xpcf.Manager.Serialize.{type_text, access_text}
use xpcf.Manager.RoundTrip.Shape.{Towards, HasNumberOrText}

module _ {F D : Type 0} (P : Platform F D) where
  open P use {xml, new_element, set_attribute}
  open xml use {Element, attribute, children}

  abbrev pub tagged : Object F D → Element
  tagged o = set_attribute "type" (type_text (get_type o)) (
      set_attribute "access" (access_text (get_access_specifier o))
        (set_attribute "name" (get_name o) (new_element "property")))

  -- What the element of an object has, whatever is written to it after its tags.
  pub record Tagged (o : Object F D) (x : Element) : Type 0 where
    pub its_name : attribute x "name" ≡ some (get_name o)
    pub its_type : attribute x "type" ≡ some (type_text (get_type o))
    pub node_name : P.name x ≡ "property"

  module _ (L : Laws P) where
    pub tagged-Tagged : (o : Object F D) → Tagged o (tagged o)
    tagged-Tagged o = record {
      its_name = simp (L.attribute-set) refl;
      its_type = simp (L.attribute-set) refl;
      node_name = simp (L.name-set_attribute, L.name-new);
    }

    pub tagged-value : (o : Object F D) → attribute (tagged o) "value" ≡ none
    tagged-value o = simp (L.attribute-set, L.attribute-new)

    pub tagged-children : (o : Object F D) (k : String) → children (tagged o) k ≡ []
    tagged-children o k = simp (L.children-set_attribute, L.children-new)

    pub Tagged-set_value :
        (o : Object F D) (x : Element) (v : String)
        → Tagged o x
        → Tagged o (set_attribute "value" v x)
    Tagged-set_value o x v h = record {
      its_name = rw (L.attribute-set "value" "name" v x) h.its_name;
      its_type = rw (L.attribute-set "value" "type" v x) h.its_type;
      node_name = rw (L.name-set_attribute "value" v x) h.node_name;
    }

    pub Tagged-insert :
        (o : Object F D) (c x : Element) → Tagged o x → Tagged o (P.insert_end_child c x)
    Tagged-insert o c x h = record {
      its_name = rw (L.attribute-insert c x "name") h.its_name;
      its_type = rw (L.attribute-insert c x "type") h.its_type;
      node_name = rw (L.name-insert c x) h.node_name;
    }

  -- Reading the element of a property that its map finds by its name.
  pub configure_property-found :
      (f : Element → Option ℕ → Exec (Store F D) ErrorCode) (m p : ℕ) (s : Store F D) (x : Element)
      (t u : Store F D)
      → Tagged (s.property p) x
      → (get_name (s.property p) == "") ≡ false
      → at m (get_name (s.property p)) t ≡ some p
      → configure_found P f x p t ≡ (ok success, u)
      → configure_property P f m x t ≡ (ok success, u)
  unfolding configure_property
  configure_property-found f m p s x t u h filled found e =
      rw (h.its_name, filled) (rw found (rw e refl))

plain_type :
    (t : PropertyType)
    → HasNumberOrText t
    → ((type_text t == "") ≡ false) × ((type_text t == "structure") ≡ false)
plain_type integer_type h = (refl, refl)
plain_type uinteger_type h = (refl, refl)
plain_type long_type h = (refl, refl)
plain_type ulong_type h = (refl, refl)
plain_type charstr_type h = (refl, refl)
plain_type none_type h = absurd h
plain_type unicodestr_type h = absurd h
plain_type float_type h = absurd h
plain_type double_type h = absurd h
plain_type structure_type h = absurd h

module _ {F D : Type 0} (P : Platform F D) (o : Object F D) (plain : HasNumberOrText (get_type o))
    (f : P.xml.Element → Option ℕ → Exec (Store F D) ErrorCode) (x : P.xml.Element) (p : ℕ)
    (t : Store F D) (tags : Tagged P o x) where
  -- The value of a property that is no structure is its attribute, or else its <value> nodes.
  pub configure_found-attribute :
      (v : String)
      → P.xml.attribute x "value" ≡ some v
      → configure_found P f x p t ≡ configure_value P v p 0 t
  unfolding configure_found
  configure_found-attribute v e =
      let (a, b) = plain_type (get_type o) plain in
      rw (tags.its_type, configure_found) (rw (a, b) (rw e refl))

  pub configure_found-nodes :
      P.xml.attribute x "value" ≡ none
      → configure_found P f x p t ≡ configure_values P p 0 (P.xml.children x "value") t
  unfolding configure_found
  configure_found-nodes e =
      let (a, b) = plain_type (get_type o) plain in
      rw (tags.its_type, configure_found) (rw (a, b) (rw e refl))

-- Reading `f` from `t` ends well, changes objects to what they are in `s` at most, and the covered
-- ones to that.
abbrev pub Reads :
    {F D : Type 0} → Exec (Store F D) ErrorCode → Store F D → Store F D → (ℕ → Type 0) → Type 0
Reads {F} {D} f s t Covered =
    (u : Store F D) × (f t ≡ (ok success, u))
    × Towards s t u
    × ((q : ℕ) → Covered q → u.property q ≡ s.property q)
