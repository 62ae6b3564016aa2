-- ===== src/Factory/Lookup/Sources.antt =====
-- A binding that `Factory::resolveBind` returns was declared for that interface.
use xpcf.Base.{
  ℕ, String, Bool, true, false, ◌≡◌, refl, List, [], ◌∷◌, Option, none, some, if◌then◌else◌, arith,
  nat_keys, named_keys, Key, inl, inr, Bool-cases, Option-cases, sym, ◌∙◌, ◌⊎◌,
}
use xpcf.Map
use xpcf.Map.{Map}
use xpcf.Exec.{ok, err, injectable_not_found, or_throw}
use xpcf.Factory.{BindInfos, BindContext, Factory, range_all}
use xpcf.Factory.Lookup.{specific, back_has, resolve_bind, resolve_bind_named}
use xpcf.Factory.Lookup.Visible.{
  visible, ends_explicit, nearest, first_some, outermost, resolve_bind_lem, resolve_bind_named_lem,
}

module _ {Method : Type 0} (f : Factory Method) where
  pub data Source (i : ℕ) (infos : BindInfos) : Type 0 where
    by_specific :
        (component : ℕ)
        → specific f.context.specific_bindings component i ≡ some infos
        → Source i infos
    by_default : Map.lookup f.context.default_bindings i ≡ some infos → Source i infos
    by_auto : Map.lookup f.context.auto_bindings i ≡ some infos → Source i infos
    by_core : Map.lookup f.core_bindings i ≡ some infos → Source i infos

  pub data NamedSource (i : ℕ) (name : String) (infos : BindInfos) : Type 0 where
    by_specific_name :
        (component : ℕ)
        → specific f.context.specific_named_bindings component (i, name) ≡ some infos
        → NamedSource i name infos
    by_name : Map.lookup f.context.named_bindings (i, name) ≡ some infos → NamedSource i name infos
    by_interface : Source i infos → NamedSource i name infos

nearest-some :
    {K : Type 0} ⦃e : Key K⦄ (m : Map ℕ (Map K BindInfos)) (key : K) (vs : List BindInfos)
    {infos : BindInfos}
    → nearest m key vs ≡ some infos
    → (component : ℕ) × (specific m component key ≡ some infos)
nearest-some m key [] h = cc
nearest-some m key (v ∷ vs) h = elim (Option-cases (specific m v.component_uuid key)) [
  | inl p ↦ nearest-some m key vs (rw (p, nearest) at h)
  | inr (b, p) ↦ (v.component_uuid, p ∙ (rw (p, nearest) at h))
]

first_some_cases :
    (x y : Option BindInfos) {infos : BindInfos}
    → first_some x y ≡ some infos
    → (x ≡ some infos) ⊎ (y ≡ some infos)
first_some_cases (some b) y h = inl h
first_some_cases none y h = inr h

when_some :
    (b : Bool) (x : Option BindInfos) {infos : BindInfos}
    → (if b then x else none) ≡ some infos
    → x ≡ some infos
when_some true x h = h
when_some false x h = cc

or_throw_ok :
    (x : Option BindInfos) {infos : BindInfos}
    → or_throw x injectable_not_found ≡ ok infos
    → x ≡ some infos
or_throw_ok x h = ground arith

module _ {Method : Type 0} (f : Factory Method) where
  outermost-Source :
      (i : ℕ) (cs : List BindContext) {infos : BindInfos}
      → outermost f i cs ≡ some infos
      → Source f i infos
  outermost-Source i cs h = elim (first_some_cases _ _ h) [
    | inl p ↦ by_default (when_some (back_has cs 24) _ p)
    | inr p ↦ elim (first_some_cases _ _ p) [
      | inl q ↦ by_auto (when_some (back_has cs range_all) _ q)
      | inr q ↦ by_core q
    ]
  ]

  -- Whatever the contexts, a binding that `resolveBind` returns stands in one of the four tables
  -- under the interface that was asked for.
  pub resolve_bind-Source :
      (i : ℕ) (cs : List BindContext) {infos : BindInfos}
      → resolve_bind f i cs ≡ ok infos
      → Source f i infos
  resolve_bind-Source i cs h =
      elim (first_some_cases _ _ (or_throw_ok _ (sym (resolve_bind_lem f i cs) ∙ h))) [
        | inl p ↦ let (c, q) = nearest-some _ i (visible cs) p in by_specific c q
        | inr p ↦ elim (Bool-cases (ends_explicit (visible cs))) [
          | inl e ↦ by_core (rw e at p)
          | inr e ↦ outermost-Source i cs (rw e at p)
        ]
      ]

  named_tail-NamedSource :
      (i : ℕ) (name : String) (cs : List BindContext) {infos : BindInfos} (x : Option BindInfos)
      → (x ≡ some infos → NamedSource f i name infos)
      → (elim x [
        | some b ↦ ok b
        | none ↦ if back_has cs 24 then resolve_bind f i cs else err injectable_not_found
      ])
        ≡ ok infos
      → NamedSource f i name infos
  named_tail-NamedSource i name cs (some b) here h = here (ground arith)
  named_tail-NamedSource i name cs none here h = elim (Bool-cases (back_has cs 24)) [
    | inl p ↦ by_interface (resolve_bind-Source i cs (rw p at h))
    | inr p ↦ cc (rw p at h)
  ]

  pub resolve_bind_named-NamedSource :
      (i : ℕ) (name : String) (cs : List BindContext) {infos : BindInfos}
      → resolve_bind_named f i name cs ≡ ok infos
      → NamedSource f i name infos
  resolve_bind_named-NamedSource i name cs {infos} h =
      go (nearest f.context.specific_named_bindings (i, name) (visible cs))
        (ends_explicit (visible cs)) refl (sym (resolve_bind_named_lem f i name cs) ∙ h)
    where
      go :
          (o : Option BindInfos) (e : Bool)
          → nearest f.context.specific_named_bindings (i, name) (visible cs) ≡ o
          → (elim o [
            | some b ↦ ok b
            | none ↦
                if e
                then err injectable_not_found
                else elim (if back_has cs 28
                    then Map.lookup f.context.named_bindings (i, name)
                    else none) [
                      | some b ↦ ok b
                      | none ↦
                          if back_has cs 24 then resolve_bind f i cs else err injectable_not_found
                    ]
          ])
            ≡ ok infos
          → NamedSource f i name infos
      go (some b) e p q =
          let (c, r) = nearest-some _ (i, name) (visible cs) (p ∙ ground arith) in
          by_specific_name c r
      go none true p q = cc q
      go none false p q =
          named_tail-NamedSource i name cs
            (if back_has cs 28 then Map.lookup f.context.named_bindings (i, name) else none)
            (λ r. by_name (when_some (back_has cs 28) _ r)) q
