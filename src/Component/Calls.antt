-- ===== src/Component/Calls.antt =====
-- Histories of the calls that change a component of src/ComponentBase.cpp.
use xpcf.Base.{ℕ, String, Bool, List, [], ◌∷◌}
use xpcf.Component.{
  ObjectInterface, ComponentBase, declare_interface, declare_injectable, declare_named_injectable,
  declare_multi_injectable, add_component_ref, release_component_ref,
}

pub data Call (Any : Type 0) : Type 0 where
  declares_interface : ℕ → ObjectInterface Any → Call Any
  declares_injectable : ℕ → Any → Bool → Call Any
  declares_named : ℕ → Any → String → Bool → Call Any
  declares_multi : ℕ → Any → Bool → Call Any
  adds_ref : Call Any
  releases_ref : Call Any

module _ {Any : Type 0} where
  -- A call that throws is over, and what it left stays.
  abbrev pub after : Call Any → ComponentBase Any → ComponentBase Any
  after (declares_interface i o) c = declare_interface i o c
  after (declares_injectable i a b) c = (declare_injectable i a b c).1
  after (declares_named i a n b) c = (declare_named_injectable i a n b c).1
  after (declares_multi i a b) c = (declare_multi_injectable i a b c).1
  after adds_ref c = add_component_ref c
  after releases_ref c = release_component_ref c

  abbrev pub after_all : List (Call Any) → ComponentBase Any → ComponentBase Any
  after_all [] c = c
  after_all (x ∷ xs) c = after_all xs (after x c)
