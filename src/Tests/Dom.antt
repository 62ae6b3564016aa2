-- ===== src/Tests/Dom.antt =====
-- A document in memory that has the laws which src/PropertyManager.cpp relies on.
use Prim.Native.String.{[] as end, ◌∷◌ as add_char}
use xpcf.Base.{
  true, ℕ, zero, suc, String, ◌≡◌, refl, ap, Option, none, some, List, [], ◌∷◌, ◌++◌, ◌==◌,
  string_keys, if◌then◌else◌,
}
use xpcf.Exec.{err, invalid_argument}
use xpcf.Manager.Platform.{Platform, Laws}

mutual
  pub data Dom : Type 0 where
    element : String → List (String × String) → Option String → Doms → Dom

  -- The last child is outermost.
  pub data Doms : Type 0 where
    no_doms : Doms
    more : Doms → Dom → Doms

abbrev pub dom_name : Dom → String
dom_name (element n a t ds) = n

abbrev attribute_in : List (String × String) → String → Option String
attribute_in [] j = none
attribute_in ((k, v) ∷ a) j = if k == j then some v else attribute_in a j

abbrev dom_attribute : Dom → String → Option String
dom_attribute (element n a t ds) k = attribute_in a k

abbrev pub children_in : Doms → String → List Dom
children_in no_doms k = []
children_in (more ds d) k = children_in ds k ++ (if dom_name d == k then d ∷ [] else [])

abbrev pub dom_children : Dom → String → List Dom
dom_children (element n a t ds) k = children_in ds k

abbrev dom_text : Dom → Option String
dom_text (element n a t ds) = t

abbrev dom_set_attribute : String → String → Dom → Dom
dom_set_attribute k v (element n a t ds) = element n ((k, v) ∷ a) t ds

abbrev dom_set_text : String → Dom → Dom
dom_set_text s (element n a t ds) = element n a (some s) ds

abbrev dom_insert : Dom → Dom → Dom
dom_insert c (element n a t ds) = element n a t (more ds c)

-- A uuid is written as so many letters.
abbrev letters : ℕ → String
letters zero = end
letters (suc n) = add_char "u" (letters n)

abbrev count : String → ℕ
count end = 0
count (add_char c s) = suc (count s)

count-letters : (n : ℕ) → count (letters n) ≡ n
count-letters zero = refl
count-letters (suc n) = ap suc (count-letters n)

abbrev pub platform : Platform (Unit {0}) (Unit {0})
platform = record {
  xml = record {
    Element = Dom;
    attribute = dom_attribute;
    children = dom_children;
    to_uuid = λ s. some (count s);
    split = λ s. s ∷ [];
  };
  name = dom_name;
  get_text = dom_text;
  new_element = λ n. element n [] none no_doms;
  set_attribute = dom_set_attribute;
  set_text = dom_set_text;
  insert_end_child = dom_insert;
  save_file = λ old root. (true, some root);
  uuid_text = letters;
  stof = λ s. err invalid_argument;
  stod = λ s. err invalid_argument;
  float_text = λ x. "0";
  double_text = λ x. "0";
}

name-set_attribute : (k v : String) (e : Dom) → dom_name (dom_set_attribute k v e) ≡ dom_name e
name-set_attribute k v (element n a t ds) = refl

name-set_text : (s : String) (e : Dom) → dom_name (dom_set_text s e) ≡ dom_name e
name-set_text s (element n a t ds) = refl

name-insert : (c e : Dom) → dom_name (dom_insert c e) ≡ dom_name e
name-insert c (element n a t ds) = refl

attribute-set :
    (k j v : String) (e : Dom)
    → dom_attribute (dom_set_attribute k v e) j ≡ (if k == j then some v else dom_attribute e j)
attribute-set k j v (element n a t ds) = refl

attribute-insert : (c e : Dom) (k : String) → dom_attribute (dom_insert c e) k ≡ dom_attribute e k
attribute-insert c (element n a t ds) k = refl

children-set_attribute :
    (k v j : String) (e : Dom) → dom_children (dom_set_attribute k v e) j ≡ dom_children e j
children-set_attribute k v j (element n a t ds) = refl

children-insert :
    (c e : Dom) (k : String)
    → dom_children (dom_insert c e) k ≡ dom_children e k ++ (if dom_name c == k then c ∷ [] else [])
children-insert c (element n a t ds) k = refl

pub laws : Laws platform
laws = record {
  name-new = λ n. refl;
  name-set_attribute = name-set_attribute;
  name-set_text = name-set_text;
  name-insert = name-insert;
  attribute-new = λ n k. refl;
  attribute-set = attribute-set;
  attribute-insert = attribute-insert;
  children-new = λ n k. refl;
  children-set_attribute = children-set_attribute;
  children-insert = children-insert;
  text-set = λ t n. refl;
  uuid-text = λ u. ap some (count-letters u);
}
