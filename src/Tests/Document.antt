-- ===== src/Tests/Document.antt =====
-- XML documents for the tests, as trees with attributes.
use xpcf.Base.{ℕ, String, List, [], ◌∷◌, Option, none, some, if◌then◌else◌, ◌==◌, string_keys}
use xpcf.Xml.{Xml}

mutual
  pub data Node : Type 0 where
    node : String → List (String × String) → Nodes → Node

  pub data Nodes : Type 0 where
    end : Nodes
    more : Node → Nodes → Nodes

abbrev attribute_in : List (String × String) → String → Option String
attribute_in [] name = none
attribute_in ((k, v) ∷ rest) name = if k == name then some v else attribute_in rest name

abbrev attribute_of : Node → String → Option String
attribute_of (node tag attributes kids) = attribute_in attributes

abbrev named : String → Nodes → List Node
named tag end = []
named tag (more (node t attributes kids) rest) =
    if t == tag then node t attributes kids ∷ named tag rest else named tag rest

abbrev children_of : Node → String → List Node
children_of (node tag attributes kids) name = named name kids

-- The uuids of the tests are "u0" to "u9".
abbrev digit : String → Option ℕ
digit text = attribute (
    ("u0", 0)
    ∷ ("u1", 1)
    ∷ ("u2", 2)
    ∷ ("u3", 3)
    ∷ ("u4", 4)
    ∷ ("u5", 5)
    ∷ ("u6", 6)
    ∷ ("u7", 7)
    ∷ ("u8", 8)
    ∷ ("u9", 9)
    ∷ [])
  where
    attribute : List (String × ℕ) → Option ℕ
    attribute [] = none
    attribute ((k, v) ∷ rest) = if k == text then some v else attribute rest

abbrev pub document : Xml
document = record {
  Element = Node;
  attribute = attribute_of;
  children = children_of;
  to_uuid = digit;
  split =
      λ text. if text == "explicit|withparents" then "explicit" ∷ "withparents" ∷ [] else text ∷ [];
}
