-- ===== src/Manager/Paths/Laws.antt =====
-- The path of a component after any declarations, in the words of the declarations alone.
use xpcf.Base.{
  ℕ, String, Bool, true, false, ◌&&◌, ◌≡◌, refl, sym, ap, ◌∙◌, Option, none, some, List, [], ◌∷◌,
  if◌then◌else◌, string_keys, nat_keys, ◌==◌, ==_self, Option-cases, Bool-cases, inl, inr,
}
use xpcf.Map
use xpcf.Map.{Map, lookup-insert, lookup-insert_self, lookup-empty}
use xpcf.Exec.{or_throw}
use xpcf.Registry.{Registry, get_module_uuid}
use xpcf.Manager.Paths.{PropertyContext, declare_path, get_config_path, clear}
use xpcf.Manager.Paths.Steps.{
  Declared, declare_all, or_path, in_module, first_of, differs, last_other, main_of, or_no_path,
  module_in, or_path-none, found, found-module, found-own, main_after,
}

if_join :
    (b : Bool) (p : Option String) (path : String) (q : Option String)
    → or_path (or_path p (if b then some path else none)) q ≡ or_path p (if b then some path else q)
if_join true none path q = refl
if_join true (some p) path q = refl
if_join false none path q = refl
if_join false (some p) path q = refl

module _ (r : Registry) where
  step : String → ℕ → PropertyContext → PropertyContext
  step path d c = found path d c (module_in r d)

  declare_path-step :
      (path : String) (d : ℕ) (c : PropertyContext) → declare_path r path d c ≡ step path d c
  unfolding declare_path get_module_uuid step
  declare_path-step path d c = refl

  module_all :
      (ds : List Declared) (m : ℕ) (c : PropertyContext)
      → Map.lookup (declare_all r ds c).module_config_map m
        ≡ or_path (Map.lookup c.module_config_map m) (first_of (module_in r) m ds)
  unfolding step
  module_all [] m c = sym (or_path-none (Map.lookup c.module_config_map m))
  module_all ((d, path) ∷ ds) m c =
      ap (λ x. Map.lookup (declare_all r ds x).module_config_map m) (declare_path-step path d c)
      ∙ module_all ds m (step path d c)
      ∙ ap (λ x. or_path x (first_of (module_in r) m ds)) (found-module path d c (module_in r d) m)
      ∙ if_join (in_module m (module_in r d)) (Map.lookup c.module_config_map m) path
          (first_of (module_in r) m ds)

  -- The file of a module once the declarations are made.
  abbrev main_in : Option ℕ → PropertyContext → List Declared → Option String
  main_in none c ds = none
  main_in (some m) c ds = or_path (Map.lookup c.module_config_map m) (first_of (module_in r) m ds)

  main_step :
      (o : Option ℕ) (c : PropertyContext) (d : ℕ) (path : String) (ds : List Declared)
      → main_in o (step path d c) ds ≡ main_in o c ((d, path) ∷ ds)
  unfolding step
  main_step none c d path ds = refl
  main_step (some m) c d path ds =
      ap (λ x. or_path x (first_of (module_in r) m ds)) (found-module path d c (module_in r d) m)
      ∙ if_join (in_module m (module_in r d)) (Map.lookup c.module_config_map m) path
          (first_of (module_in r) m ds)

  main_own :
      (o : Option ℕ) (c : PropertyContext) (d : ℕ) (path : String) (ds : List Declared)
      → module_in r d ≡ o
      → main_after path d c o ≡ main_in o c ((d, path) ∷ ds)
  main_own none c d path ds e = refl
  main_own (some m) c d path ds e = found-module path d c (some m) m ∙ rw (e, ==_self m) refl

  own_all :
      (ds : List Declared) (e : ℕ) (c : PropertyContext)
      → Map.lookup (declare_all r ds c).component_config_map e
        ≡ or_path
            (last_other (main_in (module_in r e) c ds) e ds)
            (Map.lookup c.component_config_map e)
  unfolding step
  own_all [] e c = refl
  own_all ((d, path) ∷ ds) e c =
      let main = main_in (module_in r e) c ((d, path) ∷ ds) in
      let later = last_other main e ds in
      ap (λ x. Map.lookup (declare_all r ds x).component_config_map e) (declare_path-step path d c)
      ∙ own_all ds e (step path d c)
      ∙ ap (λ x. or_path (last_other x e ds) (Map.lookup (step path d c).component_config_map e))
          (main_step (module_in r e) c d path ds)
      ∙ ap (or_path later) (found-own path d c (module_in r d) e ∙ same main refl)
      ∙ sym
          (if_join ((d == e) && differs main path) later path (Map.lookup c.component_config_map e))
    where
      same :
          (main : Option String)
          → main ≡ main_in (module_in r e) c ((d, path) ∷ ds)
          → (if (d == e) && differs (main_after path d c (module_in r d)) path
              then some path
              else Map.lookup c.component_config_map e)
            ≡ (if (d == e) && differs main path
                then some path
                else Map.lookup c.component_config_map e)
      same main h = elim (Bool-cases (d == e)) [
        | inl is ↦
            let at_e : module_in r d ≡ module_in r e =
              ap (module_in r) ((nat_keys.equal_iff d e).0 is) in
            rw is (rw (at_e, main_own (module_in r e) c d path ds at_e, ← h) refl)
        | inr no_ ↦ rw no_ refl
      ]

  abbrev main_now : Option ℕ → PropertyContext → Option String
  main_now none c = none
  main_now (some m) c = Map.lookup c.module_config_map m

  get_config_path-view :
      (component : ℕ) (c : PropertyContext)
      → get_config_path r component c
        ≡ or_no_path (
            or_path
              (Map.lookup c.component_config_map component)
              (main_now (module_in r component) c))
  unfolding get_config_path get_module_uuid
  get_config_path-view component c =
      elim (Option-cases (Map.lookup c.component_config_map component)) [
        | inr (p, e) ↦ rw (e, get_config_path) refl
        | inl e ↦ elim (Option-cases (module_in r component)) [
          | inl f ↦ rw (e, get_config_path) (rw (f, or_throw) refl)
          | inr (m, f) ↦ elim (Option-cases (Map.lookup c.module_config_map m)) [
            | inl g ↦ rw (e, get_config_path) (rw (f, or_throw) (rw g refl))
            | inr (q, g) ↦ rw (e, get_config_path) (rw (f, or_throw) (rw g refl))
          ]
        ]
      ]

  main_end :
      (o : Option ℕ) (ds : List Declared) (old : PropertyContext)
      → (main_now o (declare_all r ds (clear old)) ≡ main_of (module_in r) o ds)
        × (main_in o (clear old) ds ≡ main_of (module_in r) o ds)
  unfolding clear
  main_end none ds old = (refl, refl)
  main_end (some m) ds old =
      let nothing : Map.lookup (clear old).module_config_map m ≡ none = lookup-empty m in
      let first = ap (λ x. or_path x (first_of (module_in r) m ds)) nothing in
      (module_all ds m (clear old) ∙ first, first)

-- From a state with nothing declared, after any declarations in any order: the file of a component is
-- the last one that declares it and is not its module's, where a module's file is the first that
-- declares any component of it; else it is the module's, and else none.
pub get_config_path-declare_all :
    (r : Registry) (ds : List Declared) (component : ℕ) (old : PropertyContext)
    → let main = main_of (module_in r) (module_in r component) ds in
      get_config_path r component (declare_all r ds (clear old))
      ≡ or_no_path (or_path (last_other main component ds) main)
unfolding clear
get_config_path-declare_all r ds component old =
    let main = main_of (module_in r) (module_in r component) ds in
    let (now, then_) = main_end r (module_in r component) ds old in
    let nothing : Map.lookup (clear old).component_config_map component ≡ none =
      lookup-empty component in
    get_config_path-view r component (declare_all r ds (clear old))
    ∙ ap
        (λ x.
          or_no_path
            (or_path x (main_now r (module_in r component) (declare_all r ds (clear old)))))
        (own_all r ds component (clear old)
          ∙ ap
              (or_path (last_other (main_in r (module_in r component) (clear old) ds) component ds))
              nothing
          ∙ or_path-none
              (last_other (main_in r (module_in r component) (clear old) ds) component ds)
          ∙ ap (λ x. last_other x component ds) then_)
    ∙ ap (λ x. or_no_path (or_path (last_other main component ds) x)) now
