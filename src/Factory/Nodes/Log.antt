-- ===== src/Factory/Nodes/Log.antt =====
-- The <factory> nodes of a configuration file against the list of the declarations that they spell.
use xpcf.Base.{
  ℕ, String, ◌≡◌, refl, ◌∙◌, List, [], ◌∷◌, ◌++◌, Option, none, some, string_keys, nat_keys,
}
use xpcf.Exec.{Result, ok, err, exception, Exec, as_configuration, rethrow, continue}
use xpcf.Xml.{Xml}
use xpcf.Alias.{AliasContext}
use xpcf.Factory.{BindInfos, FactoryContext, range_explicit, range_named, range_default}
use xpcf.Factory.Bind.{bind, bind_named, bind_specific, bind_specific_named}
use xpcf.Factory.Nodes.{
  with_range, interface_of, component_of, get_component_binding_infos, binds_of, set_binds,
}

-- What one node declares.
pub data Decl : Type 0 where
  defaults : ℕ → BindInfos → Decl
  names : String → ℕ → BindInfos → Decl
  opens : ℕ → Decl
  adds : ℕ → BindInfos → Decl
  specifics : ℕ → ℕ → BindInfos → Decl
  specific_names : ℕ → String → ℕ → BindInfos → Decl

module _ {Method : Type 0} where
  abbrev pub declare : Decl → FactoryContext Method → FactoryContext Method
  declare (defaults i b) c = bind i b c
  declare (names n i b) c = bind_named n i b c
  declare (opens i) c = set_binds i (binds_of c i) c
  declare (adds i b) c = set_binds i (binds_of c i ++ (b ∷ [])) c
  declare (specifics t i b) c = bind_specific t i b c
  declare (specific_names t n i b) c = bind_specific_named t n i b c

  abbrev pub declare_each : List Decl → FactoryContext Method → FactoryContext Method
  declare_each [] c = c
  declare_each (d ∷ ds) c = declare_each ds (declare d c)

-- The declarations up to an exception, and how the reading ends.
abbrev pub Reading : Type 0
Reading = List Decl × Result (Unit {0})

abbrev pub then : Reading → Reading → Reading
then (ds, ok _) (es, r) = (ds ++ es, r)
then (ds, err e) q = (ds, err e)

-- How each of the nodes of one level ends.
abbrev pub closed : Reading → Reading
closed (ds, ok _) = (ds, ok tt)
closed (ds, err e) = (ds, err (as_configuration e))

module _ (X : Xml) (aliases : AliasContext) where
  open X use {Element, attribute, children}

  abbrev pub read_each : (Element → Reading) → List Element → Reading
  read_each read [] = ([], ok tt)
  read_each read (x ∷ xs) = then (read x) (read_each read xs)

  abbrev pub read_infos : Element → (BindInfos → Decl) → Reading
  read_infos elt d = elim (get_component_binding_infos X aliases elt) [
    | err e ↦ ([], err e)
    | ok infos ↦ (d infos ∷ [], ok tt)
  ]

  abbrev pub read_single : ℕ → Element → Reading
  read_single i elt = elim (attribute elt "name") [
    | none ↦ read_infos elt (λ b. defaults i (with_range b range_default))
    | some n ↦ read_infos elt (λ b. names n i (with_range b range_named))
  ]

  abbrev pub read_multi : ℕ → Element → Reading
  read_multi i elt =
      then (opens i ∷ [], ok tt)
        (read_each (λ x. read_infos x (λ b. adds i (with_range b range_default)))
          (children elt "component"))

  abbrev pub read_targets : Option String → List Element → ℕ → Element → Reading
  read_targets none [] i elt = ([], err exception)
  read_targets (some to) [] i elt = read_single i elt
  read_targets none (x ∷ xs) i elt = read_multi i elt
  read_targets (some to) (x ∷ xs) i elt = then (read_single i elt) (read_multi i elt)

  abbrev pub read_bind : Element → Reading
  read_bind elt = closed (elim (attribute elt "interface") [
    | none ↦ ([], err exception)
    | some text ↦ elim (interface_of X aliases text) [
      | err e ↦ ([], err e)
      | ok i ↦ read_targets (attribute elt "to") (children elt "component") i elt
    ]
  ])

  abbrev pub read_target : ℕ → ℕ → Element → Reading
  read_target t i elt = elim (attribute elt "name") [
    | none ↦ read_infos elt (λ b. specifics t i (with_range b range_explicit))
    | some n ↦ read_infos elt (λ b. specific_names t n i (with_range b range_explicit))
  ]

  abbrev pub read_specific : ℕ → Element → Reading
  read_specific t elt = closed (elim (attribute elt "interface") [
    | none ↦ ([], err exception)
    | some text ↦ elim (attribute elt "to") [
      | none ↦ ([], err exception)
      | some to ↦ elim (interface_of X aliases text) [
        | err e ↦ ([], err e)
        | ok i ↦ read_target t i elt
      ]
    ]
  ])

  abbrev pub read_inject : Element → Reading
  read_inject elt = closed (elim (attribute elt "to") [
    | none ↦ ([], err exception)
    | some text ↦ elim (component_of X aliases text) [
      | err e ↦ ([], err e)
      | ok t ↦ read_each (read_specific t) (children elt "bind")
    ]
  ])

  abbrev pub read_factory : Element → Reading
  read_factory elt = closed (
      then
        (read_each (λ x. closed (read_each read_bind (children x "bind")))
          (children elt "bindings"))
        (read_each (λ x. closed (read_each read_inject (children x "inject")))
          (children elt "injects")))

module _ {Method : Type 0} where
  -- A reading, done.
  abbrev pub logged : Reading → Exec (FactoryContext Method) (Unit {0})
  logged (ds, r) c = (r, declare_each ds c)

  declare_each-append :
      (ds es : List Decl) (c : FactoryContext Method)
      → declare_each (ds ++ es) c ≡ declare_each es (declare_each ds c)
  declare_each-append [] es c = refl
  declare_each-append (d ∷ ds) es c = declare_each-append ds es (declare d c)

  pub continue-logged :
      (p q : Reading) (c : FactoryContext Method) (m : Exec (FactoryContext Method) (Unit {0}))
      → ((d : FactoryContext Method) → m d ≡ logged q d)
      → continue (logged p c) (λ _. m) ≡ logged (then p q) c
  continue-logged (ds, ok tt) (es, r) c m h =
      h (declare_each ds c) ∙ rw (declare_each-append ds es c) refl
  continue-logged (ds, err e) q c m h = refl

  pub rethrow-logged :
      (p : Reading) (c : FactoryContext Method) → rethrow (logged p c) ≡ logged (closed p) c
  rethrow-logged (ds, ok tt) c = refl
  rethrow-logged (ds, err e) c = refl
