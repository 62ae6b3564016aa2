-- ===== src/Factory/Lookup/Visible.antt =====
-- `Factory::resolveBind` in two independent parts: which contexts the ranges let it see, and the
-- nearest specific binding among those.
use mathlib.Core.Path.{ap₂}
use xpcf.Base.{
  ◌∙◌, sym, ℕ, String, Bool, true, false, not, ◌&&◌, ◌≡◌, refl, List, [], ◌∷◌, Option, none, some,
  if◌then◌else◌, arith, nat_eq, nat_keys, named_keys, Key,
}
use xpcf.Map
use xpcf.Map.{Map}
use xpcf.Exec.{ok, err, injectable_not_found, or_throw}
use xpcf.Factory.{
  BindInfos, BindContext, component_context, named_context, specific_context, multi_context,
  Factory, has_range, range_explicit, range_with_parents, range_all,
}
use xpcf.Factory.Lookup.{
  Scan, found, refused, left, scan, scan_named, core, specific, back_has, resolve_default,
  resolve_named_default, resolve_bind, resolve_bind_named,
}

-- The range of a context lets the search go on to the context outside it.
abbrev pub opens : ℕ → Bool
opens mask = not (nat_eq mask range_explicit) && has_range mask range_with_parents

-- The contexts of components that are seen from the innermost: up to the first that does not open.
abbrev pub visible : List BindContext → List BindInfos
visible [] = []
visible ((component_context, v) ∷ rest) =
    v ∷ (if opens v.binding_range_mask then visible rest else [])
visible ((_, v) ∷ rest) = visible rest

-- The last visible context takes explicit bindings only.
abbrev pub ends_explicit : List BindInfos → Bool
ends_explicit [] = false
ends_explicit (v ∷ []) = nat_eq v.binding_range_mask range_explicit
ends_explicit (v ∷ w ∷ vs) = ends_explicit (w ∷ vs)

-- The specific binding of the nearest of these components that has one.
abbrev pub nearest :
    {K : Type 0} ⦃e : Key K⦄ → Map ℕ (Map K BindInfos) → K → List BindInfos → Option BindInfos
nearest m key [] = none
nearest m key (v ∷ vs) = elim (specific m v.component_uuid key) [
  | some infos ↦ some infos
  | none ↦ nearest m key vs
]

abbrev pub first_some : Option BindInfos → Option BindInfos → Option BindInfos
first_some (some infos) other = some infos
first_some none other = other

ends_explicit-cons :
    (v : BindInfos) (vs : List BindInfos)
    → nat_eq v.binding_range_mask range_explicit ≡ false
    → ends_explicit (v ∷ vs) ≡ ends_explicit vs
ends_explicit-cons v [] h = h
ends_explicit-cons v (w ∷ vs) h = refl

module _ {Method : Type 0} (f : Factory Method) where
  abbrev explicit_end : Option BindInfos → Scan
  explicit_end (some infos) = found infos
  explicit_end none = refused

  abbrev scan_spec : Option BindInfos → Bool → Scan → Scan
  scan_spec (some infos) closed end = found infos
  scan_spec none true end = end
  scan_spec none false end = left

  scan_lem :
      (i : ℕ) (cs : List BindContext)
      → scan f i cs
        ≡ scan_spec
            (nearest f.context.specific_bindings i (visible cs))
            (ends_explicit (visible cs))
            (explicit_end (core f i))
  unfolding scan
  scan_lem i [] = refl
  scan_lem i ((component_context, v) ∷ rest) =
      ground (arith, scan_lem i rest, ends_explicit-cons v (visible rest))
  scan_lem i ((named_context, v) ∷ rest) = scan_lem i rest
  scan_lem i ((specific_context, v) ∷ rest) = scan_lem i rest
  scan_lem i ((multi_context, v) ∷ rest) = scan_lem i rest

  scan_named_lem :
      (key : ℕ × String) (cs : List BindContext)
      → scan_named f key cs
        ≡ scan_spec
            (nearest f.context.specific_named_bindings key (visible cs))
            (ends_explicit (visible cs))
            refused
  unfolding scan_named
  scan_named_lem key [] = refl
  scan_named_lem key ((component_context, v) ∷ rest) =
      ground (arith, scan_named_lem key rest, ends_explicit-cons v (visible rest))
  scan_named_lem key ((named_context, v) ∷ rest) = scan_named_lem key rest
  scan_named_lem key ((specific_context, v) ∷ rest) = scan_named_lem key rest
  scan_named_lem key ((multi_context, v) ∷ rest) = scan_named_lem key rest

  -- The first of three tables that has the interface and that the outermost context allows.
  abbrev pub outermost : ℕ → List BindContext → Option BindInfos
  outermost i cs =
      first_some (if back_has cs 24 then Map.lookup f.context.default_bindings i else none) (
        first_some (if back_has cs range_all then Map.lookup f.context.auto_bindings i else none)
          (Map.lookup f.core_bindings i))

  resolve_default_lem :
      (i : ℕ) (cs : List BindContext)
      → resolve_default f i cs ≡ or_throw (outermost i cs) injectable_not_found
  unfolding resolve_default
  resolve_default_lem i cs = ground arith

  -- `resolveBind` returns the specific binding of the nearest visible context that has one. Where
  -- none has, and the last visible context takes explicit bindings only, it returns the core binding
  -- of the interface; else the default binding, the automatic one or the core one, the first that is
  -- there, of which the outermost context must allow the first two by its range. It throws
  -- InjectableNotFoundException where no such binding is there.
  pub resolve_bind_lem :
      (i : ℕ) (cs : List BindContext)
      → resolve_bind f i cs
        ≡ or_throw
            (first_some
              (nearest f.context.specific_bindings i (visible cs))
              (if ends_explicit (visible cs) then Map.lookup f.core_bindings i else outermost i cs))
            injectable_not_found
  unfolding resolve_bind
  resolve_bind_lem i cs = ground (arith, scan_lem i cs, resolve_default_lem i cs)

  -- The named overload returns the specific binding of the name in the nearest visible context that
  -- has one. Where none has, and the last visible context takes explicit bindings only, it throws;
  -- else it returns the named binding, if the outermost context allows one, and otherwise what the
  -- interface resolves to without the name, if the outermost context allows a default binding.
  pub resolve_bind_named_lem :
      (i : ℕ) (name : String) (cs : List BindContext)
      → resolve_bind_named f i name cs
        ≡ (elim (nearest f.context.specific_named_bindings (i, name) (visible cs)) [
          | some infos ↦ ok infos
          | none ↦
              if ends_explicit (visible cs)
              then err injectable_not_found
              else elim (if back_has cs 28
                  then Map.lookup f.context.named_bindings (i, name)
                  else none) [
                    | some infos ↦ ok infos
                    | none ↦
                        if back_has cs 24 then resolve_bind f i cs else err injectable_not_found
                  ]
        ])
  unfolding resolve_bind_named resolve_named_default
  resolve_bind_named_lem i name cs = ground (arith, scan_named_lem (i, name) cs)

-- A resolution reads the bindings and the core bindings, and nothing else of a factory.
pub resolve_bind-cong :
    {Method : Type 0} (f g : Factory Method) (i : ℕ) (cs : List BindContext)
    → g.context ≡ f.context
    → g.core_bindings ≡ f.core_bindings
    → resolve_bind g i cs ≡ resolve_bind f i cs
resolve_bind-cong f g i cs p q =
    resolve_bind_lem g i cs
    ∙ ap₂
        (λ c k.
          or_throw
            (first_some (nearest c.specific_bindings i (visible cs)) (
              if ends_explicit (visible cs)
              then Map.lookup k i
              else first_some (if back_has cs 24 then Map.lookup c.default_bindings i else none) (
                  first_some (if back_has cs range_all then Map.lookup c.auto_bindings i else none)
                    (Map.lookup k i))))
            injectable_not_found)
        p q
    ∙ sym (resolve_bind_lem f i cs)
