-- ===== src/Component/References.antt =====
-- The references to a component of src/ComponentBase.cpp.
use xpcf.Base.{
  ℕ, zero, suc, ◌+◌, ◌-◌, ◌%◌, ◌^◌, ◌<◌, ◌≡◌, refl, ap, ◌∙◌, arith, if◌then◌else◌, nat_eq,
}
use xpcf.Component.{ComponentBase, add_component_ref, release_component_ref}

-- How often n releases unload, with m references left.
abbrev pub unloaded : ℕ → ℕ → ℕ → ℕ
unloaded n m before = if nat_eq n 0 then before else if nat_eq m 0 then before + 1 else before

unloaded-suc :
    (n m before : ℕ)
    → unloaded n m (if nat_eq (n + m) 0 then before + 1 else before) ≡ unloaded (suc n) m before
unloaded-suc n m before = ground arith

module _ {Any : Type 0} where
  abbrev pub adds : ℕ → ComponentBase Any → ComponentBase Any
  adds zero c = c
  adds (suc n) c = adds n (add_component_ref c)

  abbrev pub releases : ℕ → ComponentBase Any → ComponentBase Any
  releases zero c = c
  releases (suc n) c = releases n (release_component_ref c)

  count-adds :
      (n : ℕ) (c : ComponentBase Any)
      → c.usage_ref_count + n < 2 ^ 32
      → ((adds n c).usage_ref_count ≡ c.usage_ref_count + n) × ((adds n c).unloads ≡ c.unloads)
  unfolding add_component_ref
  count-adds zero c h = (omega arith, refl)
  count-adds (suc n) c h =
      let next : (add_component_ref c).usage_ref_count ≡ c.usage_ref_count + 1 = omega arith in
      let rest = count-adds n (add_component_ref c) (omega arith) in
      (omega (arith, rest.0, next), rest.1)

  release_lem :
      (k : ℕ) (c : ComponentBase Any)
      → c.usage_ref_count ≡ suc k
      → suc k < 2 ^ 32
      → ((release_component_ref c).usage_ref_count ≡ k)
        × ((release_component_ref c).unloads ≡ (if nat_eq k 0 then c.unloads + 1 else c.unloads))
  unfolding release_component_ref
  release_lem k c e h =
      let next : (c.usage_ref_count + 2 ^ 32 - 1) % 2 ^ 32 ≡ k = omega arith in
      (next, ap (λ n. if nat_eq n 0 then c.unloads + 1 else c.unloads) next)

  count-releases :
      (n m : ℕ) (c : ComponentBase Any)
      → c.usage_ref_count ≡ n + m
      → n + m < 2 ^ 32
      → ((releases n c).usage_ref_count ≡ m) × ((releases n c).unloads ≡ unloaded n m c.unloads)
  count-releases zero m c e h = (omega arith, refl)
  count-releases (suc n) m c e h =
      let first = release_lem (n + m) c (omega arith) (omega arith) in
      let rest = count-releases n m (release_component_ref c) first.0 (omega arith) in
      (rest.0, rest.1 ∙ ap (unloaded n m) first.1 ∙ unloaded-suc n m c.unloads)

  -- `unloadComponent` is called when the last of fewer than 2^32 references is released, and not
  -- before: if n + m references are added to a component that has none, and n of them released, m
  -- are left, and it was unloaded once more if n is not 0 and m is, and else as often as before.
  pub releases-adds :
      (n m : ℕ) (c : ComponentBase Any)
      → c.usage_ref_count ≡ 0
      → n + m < 2 ^ 32
      → let d = releases n (adds (n + m) c) in
        (d.usage_ref_count ≡ m) × (d.unloads ≡ unloaded n m c.unloads)
  releases-adds n m c none_yet h =
      let up = count-adds (n + m) c (omega arith) in
      let down = count-releases n m (adds (n + m) c) (omega (arith, up.0)) h in
      (down.0, down.1 ∙ ap (unloaded n m) up.1)
