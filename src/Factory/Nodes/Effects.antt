-- ===== src/Factory/Nodes/Effects.antt =====
-- What the tables of src/Factory.cpp hold after `declareFactory`.
use mathlib.Core.List.{append_assoc, append-nil}
use xpcf.Base.{
  ℕ, Bool, ◌≡◌, refl, sym, ◌∙◌, ap, arith, List, [], ◌∷◌, ◌++◌, Option, none, some, if◌then◌else◌,
  nat_eq, nat_eq_iff, inl, inr, Bool-cases, string_keys, nat_keys,
}
use xpcf.Map
use xpcf.Map.{Map, lookup-insert, map_laws}
use xpcf.Xml.{Xml}
use xpcf.Alias.{AliasContext}
use xpcf.Factory.{BindInfos, FactoryContext}
use xpcf.Factory.Bind.{bind, bind_named, bind_specific, bind_specific_named}
use xpcf.Factory.Nodes.{binds_of, set_binds, declare_factory}
use xpcf.Factory.Nodes.Log.{
  Decl, defaults, names, opens, adds, specifics, specific_names, declare_each, read_factory,
}
use xpcf.Factory.Nodes.Replay.{declare_factory_lem}

-- The later of two bindings.
abbrev pub latest : Option BindInfos → Option BindInfos → Option BindInfos
latest (some b) o = some b
latest none o = o

-- The last default binding that the declarations give an interface.
abbrev pub last_default : ℕ → List Decl → Option BindInfos
last_default i [] = none
last_default i (defaults j b ∷ ds) =
    latest (last_default i ds) (if nat_eq j i then some b else none)
last_default i (_ ∷ ds) = last_default i ds

-- The bindings that the declarations add to the list of an interface.
abbrev pub listed : ℕ → List Decl → List BindInfos
listed i [] = []
listed i (adds j b ∷ ds) = let rest = listed i ds in if nat_eq j i then b ∷ rest else rest
listed i (_ ∷ ds) = listed i ds

latest-step :
    (o : Option BindInfos) (t : Bool) (b : BindInfos) (l : Option BindInfos)
    → latest o (if t then some b else l) ≡ latest (latest o (if t then some b else none)) l
latest-step o t b l = ground arith

module _ {Method : Type 0} where
  default-bind :
      (i j : ℕ) (b : BindInfos) (c : FactoryContext Method)
      → Map.lookup (bind j b c).default_bindings i
        ≡ (if nat_eq j i then some b else Map.lookup c.default_bindings i)
  unfolding bind
  default-bind i j b c = lookup-insert c.default_bindings j i b

  declare_each-default :
      (i : ℕ) (ds : List Decl) (c : FactoryContext Method)
      → Map.lookup (declare_each ds c).default_bindings i
        ≡ latest (last_default i ds) (Map.lookup c.default_bindings i)
  unfolding bind_named bind_specific bind_specific_named
  declare_each-default i [] c = refl
  declare_each-default i (defaults j b ∷ ds) c =
      declare_each-default i ds (bind j b c)
      ∙ ap (latest (last_default i ds)) (default-bind i j b c)
      ∙ latest-step (last_default i ds) (nat_eq j i) b (Map.lookup c.default_bindings i)
  declare_each-default i (names n j b ∷ ds) c = declare_each-default i ds (bind_named n j b c)
  declare_each-default i (opens j ∷ ds) c = declare_each-default i ds (set_binds j (binds_of c j) c)
  declare_each-default i (adds j b ∷ ds) c =
      declare_each-default i ds (set_binds j (binds_of c j ++ (b ∷ [])) c)
  declare_each-default i (specifics t j b ∷ ds) c =
      declare_each-default i ds (bind_specific t j b c)
  declare_each-default i (specific_names t n j b ∷ ds) c =
      declare_each-default i ds (bind_specific_named t n j b c)

  binds_of-set_binds :
      (i j : ℕ) (bs : List BindInfos) (c : FactoryContext Method)
      → binds_of (set_binds j bs c) i ≡ (if nat_eq j i then bs else binds_of c i)
  binds_of-set_binds i j bs c = ground (arith, lookup-insert c.multi_bindings j i bs)

  binds_of-add :
      (i j : ℕ) (b : BindInfos) (c : FactoryContext Method) (rest : List BindInfos)
      → binds_of (set_binds j (binds_of c j ++ (b ∷ [])) c) i ++ rest
        ≡ binds_of c i ++ (if nat_eq j i then b ∷ rest else rest)
  binds_of-add i j b c rest = elim (Bool-cases (nat_eq j i)) [
    | inl e ↦
        let same : j ≡ i = (nat_eq_iff j i).0 e in
        let now : binds_of (set_binds j (binds_of c j ++ (b ∷ [])) c) i ≡ binds_of c i ++ (b ∷ []) =
          binds_of-set_binds i j (binds_of c j ++ (b ∷ [])) c ∙ rw (e, same) refl in
        ap (λ bs. bs ++ rest) now ∙ append_assoc (binds_of c i) (b ∷ []) rest ∙ rw e refl
    | inr e ↦
        let now : binds_of (set_binds j (binds_of c j ++ (b ∷ [])) c) i ≡ binds_of c i =
          binds_of-set_binds i j (binds_of c j ++ (b ∷ [])) c ∙ rw e refl in
        ap (λ bs. bs ++ rest) now ∙ rw e refl
  ]

  binds_of-open :
      (i j : ℕ) (c : FactoryContext Method)
      → binds_of (set_binds j (binds_of c j) c) i ≡ binds_of c i
  binds_of-open i j c = elim (Bool-cases (nat_eq j i)) [
    | inl e ↦
        binds_of-set_binds i j (binds_of c j) c ∙ rw e (ap (binds_of c) ((nat_eq_iff j i).0 e))
    | inr e ↦ binds_of-set_binds i j (binds_of c j) c ∙ rw e refl
  ]

  declare_each-binds :
      (i : ℕ) (ds : List Decl) (c : FactoryContext Method)
      → binds_of (declare_each ds c) i ≡ binds_of c i ++ listed i ds
  unfolding bind bind_named bind_specific bind_specific_named
  declare_each-binds i [] c = sym (append-nil (binds_of c i))
  declare_each-binds i (defaults j b ∷ ds) c = declare_each-binds i ds (bind j b c)
  declare_each-binds i (names n j b ∷ ds) c = declare_each-binds i ds (bind_named n j b c)
  declare_each-binds i (opens j ∷ ds) c =
      declare_each-binds i ds (set_binds j (binds_of c j) c)
      ∙ ap (λ bs. bs ++ listed i ds) (binds_of-open i j c)
  declare_each-binds i (adds j b ∷ ds) c =
      declare_each-binds i ds (set_binds j (binds_of c j ++ (b ∷ [])) c)
      ∙ binds_of-add i j b c (listed i ds)
  declare_each-binds i (specifics t j b ∷ ds) c = declare_each-binds i ds (bind_specific t j b c)
  declare_each-binds i (specific_names t n j b ∷ ds) c =
      declare_each-binds i ds (bind_specific_named t n j b c)

-- After `declareFactory`, whether it returned or threw, an interface has the last default binding
-- that the nodes read so far give it, or the one it had if they give none; and the list of its
-- multiple bindings is the one it had, followed by those of the nodes in document order.
pub declare_factory-tables :
    {Method : Type 0} (X : Xml) (aliases : AliasContext) (elt : X.Element)
    (c : FactoryContext Method) (i : ℕ)
    → let ds = (read_factory X aliases elt).0 in
      let d = (declare_factory X aliases elt c).1 in
      (Map.lookup d.default_bindings i
        ≡ latest (last_default i ds) (Map.lookup c.default_bindings i))
      × (binds_of d i ≡ binds_of c i ++ listed i ds)
declare_factory-tables X aliases elt c i = rw (declare_factory_lem X aliases elt c) (
  declare_each-default i (read_factory X aliases elt).0 c,
  declare_each-binds i (read_factory X aliases elt).0 c,
)
