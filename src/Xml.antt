-- ===== src/Xml.antt =====
-- What the modelled code reads of an XML document and of a uuid's text: the calls of tinyxml2, of
-- boost's string generator and of boost::split, which the repository does not implement.
use xpcf.Base.{ℕ, String, Option, List}

pub record Xml : Type 1 where
  pub Element : Type 0
  -- Attribute(name), `none` for a null pointer
  pub attribute : Element → String → Option String
  -- FirstChildElement(name) and its NextSiblingElement(name), in document order
  pub children : Element → String → List Element
  -- toUUID(text), `none` where it throws std::runtime_error
  pub to_uuid : String → Option ℕ
  -- boost::split(text) at each '|'
  pub split : String → List String
