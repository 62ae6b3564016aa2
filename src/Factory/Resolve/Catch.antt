-- ===== src/Factory/Resolve/Catch.antt =====
-- Which exceptions leave `Factory::inject` of src/Factory.cpp.
use xpcf.Base.{Bool, true, false, ◌&&◌, ◌≡◌, refl, List, [], ◌∷◌, ◌⊎◌, inl, inr, arith, subst}
use xpcf.Exec.{Result, ok, err, Error, continue, is_xpcf, injectable_not_found, configuration}
use xpcf.Factory.{BindContext, BindInfos, Ref, Factory}
use xpcf.Factory.Resolve.{
  Injectable, Components, M, absorb, notify, inject_one, inject_each, inject_with,
}

abbrev pub all_optional : List Injectable → Bool
all_optional [] = true
all_optional (i ∷ is) = i.optional && all_optional is

-- An exception that is let through, with whether every injectable is optional.
abbrev pub Escapes : Bool → Error → Type 0
Escapes optional e =
    (is_xpcf e ≡ false) ⊎ ((optional ≡ false) × ((e ≡ injectable_not_found) ⊎ (e ≡ configuration)))

abbrev Settled : Bool → Result (Unit {0}) → Type 0
Settled optional (ok _) = Unit
Settled optional (err e) = Escapes optional e

absorb-Settled : (optional : Bool) (r : Result (Unit {0})) → Settled optional (absorb optional r)
unfolding absorb
absorb-Settled optional (ok _) = tt
absorb-Settled true (err injectable_not_found) = tt
absorb-Settled false (err injectable_not_found) = inr (refl, inl refl)
absorb-Settled true (err e) = ground arith
absorb-Settled false (err e) = ground arith

Settled-weaken :
    (a b : Bool) (r : Result (Unit {0})) → Settled a r → (a ≡ false → b ≡ false) → Settled b r
Settled-weaken a b (ok _) h w = tt
Settled-weaken a b (err e) (inl x) w = inl x
Settled-weaken a b (err e) (inr (x, y)) w = inr (w x, y)

module _ (C : Components) where
  open C use {Method, injectables, after_injection}

  module _ (rc : BindInfos → List BindContext → M C Ref) where
    each-Settled :
        (ref : Ref) (cs : List BindContext) (is : List Injectable) (f : Factory Method)
        → Settled (all_optional is) (inject_each C rc ref cs is f).0
    unfolding inject_each inject_one
    each-Settled ref cs [] f = tt
    each-Settled ref cs (i ∷ is) f =
        go (inject_one C rc ref cs i f) (absorb-Settled i.optional _) (each-Settled ref cs is)
      where
        go :
            (p : Result (Unit {0}) × Factory Method)
            → Settled i.optional p.0
            → ((g : Factory Method) → Settled (all_optional is) (inject_each C rc ref cs is g).0)
            → Settled (all_optional (i ∷ is)) (continue p (λ _. inject_each C rc ref cs is)).0
        go (ok _, g) h ih = Settled-weaken (all_optional is) _ _ (ih g) (λ e. ground arith)
        go (err e, g) h ih = Settled-weaken i.optional _ (err e) h (λ x. ground arith)

    -- What `inject` lets out is what the component's `onInjected` ends with, or an exception that is
    -- not of the framework, or, only where some injectable of the component is mandatory,
    -- InjectableNotFoundException or ConfigurationException.
    pub inject-Escapes :
        (ref : Ref) (cs : List BindContext) (f : Factory Method) {e : Error}
        → (inject_with C rc ref cs f).0 ≡ err e
        → Escapes (all_optional (injectables ref.class_uuid)) e
          ⊎ (after_injection ref.class_uuid ≡ err e)
    unfolding inject_with notify
    inject-Escapes ref cs f =
        go (inject_each C rc ref cs (injectables ref.class_uuid) f)
          (each-Settled ref cs (injectables ref.class_uuid) f)
      where
        go :
            (p : Result (Unit {0}) × Factory Method) {e : Error}
            → Settled (all_optional (injectables ref.class_uuid)) p.0
            → (continue p (λ _. notify C ref)).0 ≡ err e
            → Escapes (all_optional (injectables ref.class_uuid)) e
              ⊎ (after_injection ref.class_uuid ≡ err e)
        go (ok _, g) h eq = inr eq
        go (err x, g) {e} h eq =
            let same : x ≡ e = cc eq in
            inl (subst (Escapes (all_optional (injectables ref.class_uuid))) same h)
