-- ===== src/Manager/Platform.antt =====
-- What src/PropertyManager.cpp calls that the repository does not implement: the rest of tinyxml2, the
-- text of a uuid, and the texts of floating-point numbers. The laws are the documented behaviour of a
-- document in memory.
use xpcf.Base.{
  Bool, ℕ, String, Option, none, some, [], ◌∷◌, ◌++◌, ◌≡◌, if◌then◌else◌, ◌==◌, string_keys,
}
use xpcf.Exec.{Result}
use xpcf.Xml.{Xml}
use xpcf.Property.Numerals.{Read}

pub record Platform (F D : Type 0) : Type 1 where
  pub xml : Xml
  -- Name()
  pub name : xml.Element → String
  -- GetText(), `none` for a null pointer
  pub get_text : xml.Element → Option String
  -- NewElement(name), SetAttribute(name, value), SetText(text), InsertEndChild(child)
  pub new_element : String → xml.Element
  pub set_attribute : String → String → xml.Element → xml.Element
  pub set_text : String → xml.Element → xml.Element
  pub insert_end_child : xml.Element → xml.Element → xml.Element
  -- SaveFile of a document with that root: whether it succeeds, and what a LoadFile of the path finds
  -- afterwards, `none` where it fails; before, it found the first argument
  pub save_file : Option xml.Element → xml.Element → Bool × Option xml.Element
  -- boost::uuids::to_string
  pub uuid_text : ℕ → String
  -- std::stof, std::stod and std::to_string
  pub stof : String → Result (Read F)
  pub stod : String → Result (Read D)
  pub float_text : F → String
  pub double_text : D → String

pub record Laws {F D : Type 0} (P : Platform F D) : Type 0 where
  pub name-new : (n : String) → P.name (P.new_element n) ≡ n
  pub name-set_attribute :
      (k v : String) (e : P.xml.Element) → P.name (P.set_attribute k v e) ≡ P.name e
  pub name-set_text : (t : String) (e : P.xml.Element) → P.name (P.set_text t e) ≡ P.name e
  pub name-insert : (c e : P.xml.Element) → P.name (P.insert_end_child c e) ≡ P.name e
  pub attribute-new : (n k : String) → P.xml.attribute (P.new_element n) k ≡ none
  pub attribute-set :
      (k j v : String) (e : P.xml.Element)
      → P.xml.attribute (P.set_attribute k v e) j ≡ (if k == j then some v else P.xml.attribute e j)
  pub attribute-insert :
      (c e : P.xml.Element) (k : String)
      → P.xml.attribute (P.insert_end_child c e) k ≡ P.xml.attribute e k
  pub children-new : (n k : String) → P.xml.children (P.new_element n) k ≡ []
  pub children-set_attribute :
      (k v j : String) (e : P.xml.Element)
      → P.xml.children (P.set_attribute k v e) j ≡ P.xml.children e j
  pub children-insert :
      (c e : P.xml.Element) (k : String)
      → P.xml.children (P.insert_end_child c e) k
        ≡ P.xml.children e k ++ (if P.name c == k then c ∷ [] else [])
  -- a text that is not empty becomes a text node
  pub text-set : (t : String) (n : String) → P.get_text (P.set_text t (P.new_element n)) ≡ some t
  pub uuid-text : (u : ℕ) → P.xml.to_uuid (P.uuid_text u) ≡ some u
