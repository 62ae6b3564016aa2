-- ===== src/Factory.antt =====
-- The state of src/Factory.cpp and interfaces/private/xpcf/Factory.h: the tables of bindings and the
-- instances of a factory. A uuid is a number, since the factory only compares them.
pub mod Bind
pub mod Lookup
pub mod Resolve
pub mod Nodes
use Prim.Native.Nat.{bit_and, bit_or}
use xpcf.Base.{ℕ, String, Bool, not, List, Option, none, some, nat_eq}
use xpcf.Map
use xpcf.Map.{Map}

pub data Scope : Type 0 where
  transient singleton : Scope

-- The values of the enum `BindingRange`, and `BindingRange_Core`.
abbrev pub range_core : ℕ
range_core = 0

abbrev pub range_explicit : ℕ
range_explicit = 1

abbrev pub range_with_parents : ℕ
range_with_parents = 2

abbrev pub range_named : ℕ
range_named = 4

abbrev pub range_default : ℕ
range_default = 8

abbrev pub range_all : ℕ
range_all = 16

-- `mask & bits`, as a test
abbrev pub has_range : ℕ → ℕ → Bool
has_range mask bits = not (nat_eq (bit_and mask bits) 0)

pub record BindInfos : Type 0 where
  pub component_uuid : ℕ
  pub scope : Scope
  pub binding_range_mask : ℕ
  pub properties : String

pub data ContextType : Type 0 where
  component_context named_context specific_context multi_context : ContextType

abbrev pub BindContext : Type 0
BindContext = ContextType × BindInfos

-- `FactoryContext`, over the type of the create functions. The three maps of properties' names are
-- cleared by the source and never filled or read.
pub record FactoryContext (Method : Type 0) : Type 0 where
  pub auto_bindings : Map ℕ BindInfos
  pub default_bindings : Map ℕ BindInfos
  pub multi_bindings : Map ℕ (List BindInfos)
  pub named_bindings : Map (ℕ × String) BindInfos
  pub factory_methods : Map ℕ Method
  pub specific_bindings : Map ℕ (Map ℕ BindInfos)
  pub specific_named_bindings : Map ℕ (Map (ℕ × String) BindInfos)

-- A reference to a component: which object it is, and its class.
pub record Ref : Type 0 where
  pub id : ℕ
  pub class_uuid : ℕ

-- What the factory did to the objects, newest first.
pub data Event : Type 0 where
  created : Ref → Event
  injected : Ref → ℕ → List Ref → Event
  on_injected : Ref → Event
  configured : Ref → String → Option String → Event

-- `Factory`, with the bindings that it shares by `m_context`. An empty `std::function` in
-- `m_coreFactoryMethods` is `none`.
pub record Factory (Method : Type 0) : Type 0 where
  pub context : FactoryContext Method
  pub singleton_instances : Map ℕ Ref
  pub named_singleton_instances : Map (ℕ × String) Ref
  pub core_bindings : Map ℕ BindInfos
  pub core_instances : Map ℕ Ref
  pub core_factory_methods : Map ℕ (Option Method)
  -- the objects made so far, and what happened to them
  pub next_id : ℕ
  pub events : List Event

module _ {Method : Type 0} where
  -- `FactoryContext::clear`
  unfoldable pub clear_context : FactoryContext Method → FactoryContext Method
  clear_context c = record {
    auto_bindings = Map.empty;
    default_bindings = Map.empty;
    multi_bindings = Map.empty;
    named_bindings = Map.empty;
    factory_methods = Map.empty;
    specific_bindings = Map.empty;
    specific_named_bindings = Map.empty;
  }

  -- What `Factory::clear` does to the factory itself; it clears its managers besides.
  unfoldable pub clear : Factory Method → Factory Method
  unfolding clear_context
  clear f = record f {
    context = clear_context f.context;
    singleton_instances = Map.empty;
    named_singleton_instances = Map.empty;
  }
