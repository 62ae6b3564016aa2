-- ===== src/Factory/Nodes/Replay.antt =====
-- `declareFactory` of src/Factory.cpp does what its nodes spell, one declaration after the other.
use xpcf.Base.{
  ℕ, String, ◌≡◌, refl, ◌∙◌, ap, arith, List, [], ◌∷◌, Option, none, some, string_keys, nat_keys,
}
use xpcf.Exec.{Result, ok, err, exception, Exec, rethrow, continue, process_xml_node}
use xpcf.Xml.{Xml}
use xpcf.Alias.{AliasContext}
use xpcf.Factory.{FactoryContext, range_default}
use xpcf.Factory.Nodes.{
  with_range, interface_of, component_of, binds_of, set_binds, declare_single_bind, add_bind,
  declare_multi_bind, bind_targets, declare_bind, bind_target, declare_specific_bind,
  declare_bindings, declare_inject, declare_injects, declare_factory,
}
use xpcf.Factory.Nodes.Log.{
  adds, declare_each, Reading, then, closed, read_each, read_infos, read_single, read_multi,
  read_targets, read_bind, read_target, read_specific, read_inject, read_factory, logged,
  continue-logged, rethrow-logged,
}

module _ (X : Xml) (aliases : AliasContext) {Method : Type 0} where
  open X use {Element, attribute, children}

  process-logged :
      (f : Element → Exec (FactoryContext Method) (Unit {0})) (read : Element → Reading)
      → ((x : Element) (c : FactoryContext Method) → f x c ≡ logged (read x) c)
      → (xs : List Element) (c : FactoryContext Method)
      → process_xml_node f xs c ≡ logged (read_each X aliases read xs) c
  unfolding process_xml_node
  process-logged f read h [] c = refl
  process-logged f read h (x ∷ xs) c =
      ap (λ p. continue p (λ _. process_xml_node f xs)) (h x c)
      ∙ continue-logged (read x) (read_each X aliases read xs) c (process_xml_node f xs)
          (process-logged f read h xs)

  single-logged :
      (i : ℕ) (elt : Element) (c : FactoryContext Method)
      → declare_single_bind X aliases i elt c ≡ logged (read_single X aliases i elt) c
  unfolding declare_single_bind
  single-logged i elt c = ground arith

  add-logged :
      (i : ℕ) (elt : Element) (c : FactoryContext Method)
      → add_bind X aliases i elt c
        ≡ logged (read_infos X aliases elt (λ b. adds i (with_range b range_default))) c
  unfolding add_bind
  add-logged i elt c = ground arith

  multi-logged :
      (i : ℕ) (elt : Element) (c : FactoryContext Method)
      → declare_multi_bind X aliases i elt c ≡ logged (read_multi X aliases i elt) c
  unfolding declare_multi_bind
  multi-logged i elt c =
      process-logged (add_bind X aliases i)
        (λ x. read_infos X aliases x (λ b. adds i (with_range b range_default))) (add-logged i)
        (children elt "component") (set_binds i (binds_of c i) c)

  targets-logged :
      (to : Option String) (xs : List Element) (i : ℕ) (elt : Element) (c : FactoryContext Method)
      → bind_targets X aliases to xs i elt c ≡ logged (read_targets X aliases to xs i elt) c
  unfolding bind_targets
  targets-logged none [] i elt c = refl
  targets-logged (some to) [] i elt c = single-logged i elt c
  targets-logged none (x ∷ xs) i elt c = multi-logged i elt c
  targets-logged (some to) (x ∷ xs) i elt c =
      ap (λ p. continue p (λ _. declare_multi_bind X aliases i elt)) (single-logged i elt c)
      ∙ continue-logged (read_single X aliases i elt) (read_multi X aliases i elt) c
          (declare_multi_bind X aliases i elt) (multi-logged i elt)

  -- What is closed by a `catch`.
  closed-logged :
      (p : Result (Unit {0}) × FactoryContext Method) (q : Reading) (c : FactoryContext Method)
      → p ≡ logged q c
      → rethrow p ≡ logged (closed q) c
  closed-logged p q c h = ap rethrow h ∙ rethrow-logged q c

  -- An attribute that must be there, and a text that must be a uuid.
  required :
      (o : Option String) (m : String → Result (Unit {0}) × FactoryContext Method)
      (read : String → Reading) (c : FactoryContext Method)
      → ((text : String) → m text ≡ logged (read text) c)
      → (elim o [ none ↦ (err exception, c) | some text ↦ m text ])
        ≡ logged (elim o [ none ↦ ([], err exception) | some text ↦ read text ]) c
  required none m read c h = refl
  required (some text) m read c h = h text

  resolved :
      (r : Result ℕ) (m : ℕ → Result (Unit {0}) × FactoryContext Method) (read : ℕ → Reading)
      (c : FactoryContext Method)
      → ((u : ℕ) → m u ≡ logged (read u) c)
      → (elim r [ err e ↦ (err e, c) | ok u ↦ m u ])
        ≡ logged (elim r [ err e ↦ ([], err e) | ok u ↦ read u ]) c
  resolved (err e) m read c h = refl
  resolved (ok u) m read c h = h u

  bind-logged :
      (elt : Element) (c : FactoryContext Method)
      → declare_bind X aliases elt c ≡ logged (read_bind X aliases elt) c
  unfolding declare_bind
  bind-logged elt c = closed-logged _ _ c (
      required (attribute elt "interface") _ _ c (λ text.
        resolved (interface_of X aliases text) _ _ c
          (λ i. targets-logged (attribute elt "to") (children elt "component") i elt c)))

  target-logged :
      (t i : ℕ) (elt : Element) (c : FactoryContext Method)
      → bind_target X aliases t i elt c ≡ logged (read_target X aliases t i elt) c
  unfolding bind_target
  target-logged t i elt c = ground arith

  specific-logged :
      (t : ℕ) (elt : Element) (c : FactoryContext Method)
      → declare_specific_bind X aliases t elt c ≡ logged (read_specific X aliases t elt) c
  unfolding declare_specific_bind
  specific-logged t elt c = closed-logged _ _ c (
      required (attribute elt "interface") _ _ c (λ text.
        required (attribute elt "to") _ _ c
          (λ to. resolved (interface_of X aliases text) _ _ c (λ i. target-logged t i elt c))))

  inject-logged :
      (elt : Element) (c : FactoryContext Method)
      → declare_inject X aliases elt c ≡ logged (read_inject X aliases elt) c
  unfolding declare_inject
  inject-logged elt c = closed-logged _ _ c (
      required (attribute elt "to") _ _ c (λ text.
        resolved (component_of X aliases text) _ _ c (λ t.
          process-logged (declare_specific_bind X aliases t) (read_specific X aliases t)
            (specific-logged t) (children elt "bind") c)))

  bindings-logged :
      (elt : Element) (c : FactoryContext Method)
      → declare_bindings X aliases elt c
        ≡ logged (closed (read_each X aliases (read_bind X aliases) (children elt "bind"))) c
  unfolding declare_bindings
  bindings-logged elt c = closed-logged _ _ c (
      process-logged (declare_bind X aliases) (read_bind X aliases) bind-logged
        (children elt "bind") c)

  injects-logged :
      (elt : Element) (c : FactoryContext Method)
      → declare_injects X aliases elt c
        ≡ logged (closed (read_each X aliases (read_inject X aliases) (children elt "inject"))) c
  unfolding declare_injects
  injects-logged elt c = closed-logged _ _ c (
      process-logged (declare_inject X aliases) (read_inject X aliases) inject-logged
        (children elt "inject") c)

  pub declare_factory_lem :
      (elt : Element) (c : FactoryContext Method)
      → let (ds, r) = read_factory X aliases elt in
        declare_factory X aliases elt c ≡ (r, declare_each ds c)
  unfolding declare_factory
  declare_factory_lem elt c =
      let first =
        read_each X aliases
          (λ x. closed (read_each X aliases (read_bind X aliases) (children x "bind")))
          (children elt "bindings") in
      let second =
        read_each X aliases
          (λ x. closed (read_each X aliases (read_inject X aliases) (children x "inject")))
          (children elt "injects") in
      closed-logged _ (then first second) c (
        ap
          (λ p.
            continue p (λ _. process_xml_node (declare_injects X aliases) (children elt "injects")))
          (process-logged (declare_bindings X aliases) _ bindings-logged (children elt "bindings")
            c)
        ∙ continue-logged first second c _
            (process-logged (declare_injects X aliases) _ injects-logged (children elt "injects")))
