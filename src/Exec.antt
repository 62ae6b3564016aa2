-- ===== src/Exec.antt =====
-- Methods that change an object and may throw: what was written before a `throw` stays written, so
-- the state comes back beside the exception. The exceptions are those of
-- interfaces/xpcf/core/{BaseException,Exception}.h and the standard ones that the code meets;
-- their messages are not kept.
use xpcf.Base.{◌≡◌, refl, ◌⊎◌, inl, inr, Bool, true, false, List, [], ◌∷◌, Option, none, some}

pub data Error : Type 0 where
  exception configuration injectable_not_found injection injectable_declaration : Error
  module_not_found component_not_found interface_not_implemented module_error null_pointer : Error
  access_denied : Error
  -- not `xpcf::Exception`: std::runtime_error, std::out_of_range, std::bad_function_call
  runtime_error out_of_range bad_function_call invalid_argument : Error
  -- std::bad_any_cast
  bad_any_cast : Error
  -- a dereferenced null pointer or another undefined behaviour
  undefined : Error
  -- std::logic_error, where a std::string is made of a null pointer; C++ leaves this undefined, and
  -- this is what its libraries do
  logic_error : Error
  -- no exception of the source: the model's bound on the depth of calls was too small
  no_fuel : Error

-- The exceptions that `catch (const xpcf::Exception &)` takes.
abbrev pub is_xpcf : Error → Bool
is_xpcf runtime_error = false
is_xpcf out_of_range = false
is_xpcf bad_function_call = false
is_xpcf invalid_argument = false
is_xpcf logic_error = false
is_xpcf no_fuel = false
is_xpcf bad_any_cast = false
is_xpcf undefined = false
is_xpcf _ = true

pub data Result {ℓ} (A : Type ℓ) : Type ℓ where
  ok : A → Result A
  err : Error → Result A

pub Result-cases {ℓ} :
    {A : Type ℓ} (r : Result A) → ((a : A) × (r ≡ ok a)) ⊎ ((e : Error) × (r ≡ err e))
Result-cases (ok a) = inl (a, refl)
Result-cases (err e) = inr (e, refl)

abbrev pub or_throw {ℓ} : {A : Type ℓ} → Option A → Error → Result A
or_throw none e = err e
or_throw (some a) e = ok a

abbrev pub check {ℓ} : {A B : Type ℓ} → Result A → (A → Result B) → Result B
check (ok a) f = f a
check (err e) f = err e

abbrev pub Exec {ℓ} : Type ℓ → Type ℓ → Type ℓ
Exec S A = S → Result A × S

module _ {ℓ} {S A : Type ℓ} where
  abbrev pub pure : A → Exec S A
  pure a s = (ok a, s)

  abbrev pub throw : Error → Exec S A
  throw e s = (err e, s)

  abbrev pub lift : Result A → Exec S A
  lift r s = (r, s)

module _ {ℓ} {S A B : Type ℓ} where
  abbrev pub continue : Result A × S → (A → Exec S B) → Result B × S
  continue (ok a, s) f = f a s
  continue (err e, s) f = (err e, s)

  infixl 10 ◌>>=◌ ◌>>◌
  abbrev pub ◌>>=◌ : Exec S A → (A → Exec S B) → Exec S B
  ◌>>=◌ m f s = continue (m s) f

  abbrev pub ◌>>◌ : Exec S A → Exec S B → Exec S B
  ◌>>◌ m f s = continue (m s) (λ _. f)

-- `catch (const xpcf::Exception & e) { … throw ConfigurationException(…); }`
abbrev pub as_configuration : Error → Error
as_configuration runtime_error = runtime_error
as_configuration out_of_range = out_of_range
as_configuration bad_function_call = bad_function_call
as_configuration invalid_argument = invalid_argument
as_configuration logic_error = logic_error
as_configuration no_fuel = no_fuel
as_configuration bad_any_cast = bad_any_cast
as_configuration undefined = undefined
as_configuration _ = configuration

module _ {ℓ} {S A : Type ℓ} where
  abbrev pub rethrow : Result A × S → Result A × S
  rethrow (ok a, s) = (ok a, s)
  rethrow (err e, s) = (err (as_configuration e), s)

module _ {S E : Type 0} where
  -- `processXmlNode` of interfaces/private/xpcf/tinyxmlhelper.h, over the siblings of one name:
  -- `func` runs on each in document order, until one throws.
  unfoldable pub process_xml_node : (E → Exec S (Unit {0})) → List E → Exec S (Unit {0})
  process_xml_node func [] s = (ok tt, s)
  process_xml_node func (x ∷ xs) s = continue (func x s) (λ _. process_xml_node func xs)
