-- ===== src/Manager/Paths/Steps.antt =====
-- One declaration of `declareComponent` or `declareConfigure`, and what any declarations amount to in
-- their own words.
use xpcf.Base.{
  ℕ, String, Bool, true, false, not, ◌&&◌, ◌≡◌, refl, sym, Option, none, some, List, [], ◌∷◌,
  if◌then◌else◌, string_keys, nat_keys, ◌==◌, ==_self, Option-cases, Bool-cases, inl, inr, subst,
}
use xpcf.Map
use xpcf.Map.{Map, lookup-insert, lookup-insert_self, lookup-empty}
use xpcf.Exec.{or_throw, module_not_found}
use xpcf.Registry.{Registry}
use xpcf.Manager.Paths.{PropertyContext, declare_path, declare_found}

-- A component, and the file that declares it.
abbrev pub Declared : Type 0
Declared = ℕ × String

abbrev pub declare_all : Registry → List Declared → PropertyContext → PropertyContext
declare_all r [] c = c
declare_all r ((component, path) ∷ ds) c = declare_all r ds (declare_path r path component c)

abbrev pub or_path : Option String → Option String → Option String
or_path none q = q
or_path (some p) q = some p

abbrev pub in_module : ℕ → Option ℕ → Bool
in_module m none = false
in_module m (some k) = k == m

abbrev pub differs : Option String → String → Bool
differs none path = true
differs (some p) path = not (p == path)

-- The file of the last declaration of the component that is not the file `main`.
abbrev pub last_other : Option String → ℕ → List Declared → Option String
last_other main c [] = none
last_other main c ((d, path) ∷ ds) =
    or_path (last_other main c ds) (if (d == c) && differs main path then some path else none)

module _ (module_of : ℕ → Option ℕ) where
  -- The file of the first declaration of a component of the module.
  abbrev pub first_of : ℕ → List Declared → Option String
  first_of m [] = none
  first_of m ((c, path) ∷ ds) = if in_module m (module_of c) then some path else first_of m ds

  abbrev pub main_of : Option ℕ → List Declared → Option String
  main_of none ds = none
  main_of (some m) ds = first_of m ds

abbrev pub or_no_path : Option String → String
or_no_path none = ""
or_no_path (some path) = path

abbrev pub module_in : Registry → ℕ → Option ℕ
module_in r c = Map.lookup r.component_module_uuid_map c

or_path_assoc : (a b c : Option String) → or_path (or_path a b) c ≡ or_path a (or_path b c)
or_path_assoc none b c = refl
or_path_assoc (some p) b c = refl

pub or_path-none : (a : Option String) → or_path a none ≡ a
or_path-none none = refl
or_path-none (some p) = refl

module _ (path : String) (d : ℕ) (c : PropertyContext) where
  abbrev pub found : Option ℕ → PropertyContext
  found o = declare_found (or_throw o module_not_found) path d c

  kept :
      (k m : ℕ) (q : String)
      → Map.lookup c.module_config_map k ≡ some q
      → or_path (Map.lookup c.module_config_map m) (if k == m then some path else none)
        ≡ Map.lookup c.module_config_map m
  kept k m q e = elim (Bool-cases (k == m)) [
    | inl same ↦
        let here : Map.lookup c.module_config_map m ≡ some q =
          subst (λ i. Map.lookup c.module_config_map i ≡ some q) ((nat_keys.equal_iff k m).0 same)
            e in
        rw (same, here) refl
    | inr other ↦ rw other (or_path-none (Map.lookup c.module_config_map m))
  ]

  -- A declaration gives its module a file if it has none.
  pub found-module :
      (o : Option ℕ) (m : ℕ)
      → Map.lookup (found o).module_config_map m
        ≡ or_path (Map.lookup c.module_config_map m) (if in_module m o then some path else none)
  unfolding declare_found
  found-module none m = sym (or_path-none (Map.lookup c.module_config_map m))
  found-module (some k) m = elim (Option-cases (Map.lookup c.module_config_map k)) [
    | inl e ↦ elim (Bool-cases (k == m)) [
      | inl same ↦
          let here : Map.lookup c.module_config_map m ≡ none =
            subst (λ i. Map.lookup c.module_config_map i ≡ none) ((nat_keys.equal_iff k m).0 same)
              e in
          rw (e, lookup-insert c.module_config_map k m path, same, here) refl
      | inr other ↦
          rw (e, lookup-insert c.module_config_map k m path, other)
            (sym (or_path-none (Map.lookup c.module_config_map m)))
    ]
    | inr (q, e) ↦ elim (Bool-cases (q == path)) [
      | inl same ↦ rw (e, same) (sym (kept k m q e))
      | inr other ↦ rw (e, other) (sym (kept k m q e))
    ]
  ]

  -- The module's file, seen from a component after its declaration.
  abbrev pub main_after : Option ℕ → Option String
  main_after none = none
  main_after (some m) = Map.lookup (found (some m)).module_config_map m

  pub found-own :
      (o : Option ℕ) (e : ℕ)
      → Map.lookup (found o).component_config_map e ≡ (
          if (d == e) && differs (main_after o) path
          then some path
          else Map.lookup c.component_config_map e)
  unfolding declare_found
  found-own none e = elim (Bool-cases (d == e)) [
    | inl h ↦ rw (lookup-insert c.component_config_map d e path, h) refl
    | inr h ↦ rw (lookup-insert c.component_config_map d e path, h) refl
  ]
  found-own (some k) e = elim (Option-cases (Map.lookup c.module_config_map k)) [
    | inl f ↦ elim (Bool-cases (d == e)) [
      | inl h ↦ rw (f, lookup-insert_self c.module_config_map k path, ==_self path, h) refl
      | inr h ↦ rw (f, h) refl
    ]
    | inr (q, f) ↦ elim (Bool-cases (q == path)) [
      | inl g ↦ elim (Bool-cases (d == e)) [
        | inl h ↦ rw (f, g, f, g, h) refl
        | inr h ↦ rw (f, g, h) refl
      ]
      | inr g ↦ elim (Bool-cases (d == e)) [
        | inl h ↦ rw (f, g, f, g, lookup-insert c.component_config_map d e path, h) refl
        | inr h ↦ rw (f, g, lookup-insert c.component_config_map d e path, h) refl
      ]
    ]
  ]
