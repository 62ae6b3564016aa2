-- ===== src/Manager/Errors.antt =====
-- How `configure` of src/PropertyManager.cpp fails.
use xpcf.Base.{
  ℕ, String, Bool, false, ◌≡◌, ◌≢◌, refl, Option, none, some, List, [], ◌∷◌, ◌⊎◌, inl, inr,
  string_keys, subst,
}
use xpcf.Exec.{
  Error, Result, ok, err, Exec, continue, is_xpcf, configuration, runtime_error, invalid_argument,
  out_of_range, bad_function_call, logic_error, no_fuel, bad_any_cast, undefined, as_configuration,
}
use xpcf.Alias.{AliasContext}
use xpcf.Property.{ErrorCode, success}
use xpcf.Property.Store.{Store}
use xpcf.Manager.Platform.{Platform}
use xpcf.Manager.Configure.{
  configure, first, if_success, while_success, configure_component, configure_configure, in_first,
  component_catch, catch_runtime,
}

-- An exception that may leave `configure`: a ConfigurationException, or one that is neither of the
-- framework nor a std::runtime_error.
abbrev pub Leaves : Error → Type 0
Leaves e = (e ≡ configuration) ⊎ ((is_xpcf e ≡ false) × (e ≢ runtime_error))

abbrev pub LeavesResult : {A : Type 0} → Result A → Type 0
LeavesResult (ok _) = Unit {0}
LeavesResult (err e) = Leaves e

-- What `catch (const xpcf::Exception &)` makes of an exception.
pub as_configuration-Leaves : (e : Error) → e ≢ runtime_error → Leaves (as_configuration e)
as_configuration-Leaves runtime_error h = absurd (h refl)
as_configuration-Leaves out_of_range h = inr (refl, λ p. cc p)
as_configuration-Leaves bad_function_call h = inr (refl, λ p. cc p)
as_configuration-Leaves invalid_argument h = inr (refl, λ p. cc p)
as_configuration-Leaves logic_error h = inr (refl, λ p. cc p)
as_configuration-Leaves no_fuel h = inr (refl, λ p. cc p)
as_configuration-Leaves bad_any_cast h = inr (refl, λ p. cc p)
as_configuration-Leaves undefined h = inr (refl, λ p. cc p)
as_configuration-Leaves _ h = inl refl

while-Leaves :
    {S A : Type 0} (f : A → Exec S ErrorCode)
    → ((x : A) (s : S) → LeavesResult (f x s).0)
    → (xs : List A) (s : S) → LeavesResult (while_success f xs s).0
unfolding while_success
while-Leaves f h [] s = tt
while-Leaves {S} {A} f h (x ∷ xs) s = go (f x s) (h x s) (λ t. while-Leaves f h xs t)
  where
    go :
        (p : Result ErrorCode × S)
        → LeavesResult p.0
        → ((t : S) → LeavesResult (while_success f xs t).0)
        → LeavesResult (continue p (λ c. if_success c (while_success f xs))).0
    go (err e, t) l ih = l
    go (ok success, t) l ih = ih t
    go (ok _, t) l ih = tt

module _ {F D : Type 0} (P : Platform F D) (aliases : AliasContext)
    (predicate : P.xml.Element → Bool) (uuid fuel root : ℕ) where
  open P use {xml}
  open xml use {Element, attribute, children}

  component_catch-Leaves :
      (elt : Element) (p : Result ErrorCode × Store F D)
      → LeavesResult (component_catch P aliases predicate uuid fuel root elt p).0
  component_catch-Leaves elt (ok c, s) = tt
  component_catch-Leaves elt (err runtime_error, s) = go (attribute elt "name")
    where
      go :
          (o : Option String)
          → LeavesResult {A = ErrorCode} (
              let r : Result ErrorCode × Store F D = elim o [
                | none ↦ (err logic_error, s)
                | some _ ↦ (err configuration, s)
              ] in
              r.0)
      go none = inr (refl, λ p. cc p)
      go (some n) = inl refl
  component_catch-Leaves elt (err e, s) = as_configuration-Leaves e (λ p. cc p)

  catch_runtime-Leaves :
      (p : Result ErrorCode × Store F D)
      → LeavesResult (catch_runtime P aliases predicate uuid fuel root p).0
  catch_runtime-Leaves (ok c, s) = tt
  catch_runtime-Leaves (err runtime_error, s) = inl refl
  catch_runtime-Leaves (err e, s) = as_configuration-Leaves e (λ p. cc p)

  component-Leaves :
      (elt : Element) (s : Store F D)
      → LeavesResult (configure_component P aliases predicate uuid fuel root elt s).0
  unfolding configure_component
  component-Leaves elt s = component_catch-Leaves elt _

  configure-node-Leaves :
      (elt : Element) (s : Store F D)
      → LeavesResult (configure_configure P aliases predicate uuid fuel root elt s).0
  unfolding configure_configure
  configure-node-Leaves elt s = catch_runtime-Leaves _

  in_first-Leaves :
      (name : String) (f : Element → Exec (Store F D) ErrorCode)
      → ((x : Element) (s : Store F D) → LeavesResult (f x s).0)
      → (o : Option Element) (s : Store F D)
      → LeavesResult (in_first P aliases predicate uuid fuel root name f o s).0
  in_first-Leaves name f h none s = tt
  in_first-Leaves name f h (some node) s = while-Leaves f h (children node name) s

  all-Leaves :
      (loaded : Option Element) (s : Store F D)
      → LeavesResult (configure P aliases predicate uuid fuel root loaded s).0
  unfolding configure
  all-Leaves none s = tt
  all-Leaves (some elt) s =
      go
        (in_first P aliases predicate uuid fuel root "component"
          (configure_component P aliases predicate uuid fuel root)
          (first (children elt "configuration")) s)
        (in_first-Leaves "component" (configure_component P aliases predicate uuid fuel root)
          component-Leaves (first (children elt "configuration")) s)
    where
      more : Exec (Store F D) ErrorCode
      more =
          in_first P aliases predicate uuid fuel root "configure"
            (configure_configure P aliases predicate uuid fuel root)
            (first (children elt "properties"))

      go :
          (p : Result ErrorCode × Store F D)
          → LeavesResult p.0
          → LeavesResult (continue p (λ c. if_success c more)).0
      go (err e, t) l = l
      go (ok success, t) l =
          in_first-Leaves "configure" (configure_configure P aliases predicate uuid fuel root)
            configure-node-Leaves (first (children elt "properties")) t
      go (ok _, t) l = tt

  -- What `configure` throws is a ConfigurationException, or it is neither an exception of the framework
  -- nor a std::runtime_error: the exceptions of conversions out of range and of missing attributes pass.
  pub configure-Leaves :
      (loaded : Option Element) (s : Store F D) {e : Error}
      → (configure P aliases predicate uuid fuel root loaded s).0 ≡ err e
      → Leaves e
  configure-Leaves loaded s h = subst LeavesResult h (all-Leaves loaded s)
