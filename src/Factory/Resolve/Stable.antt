-- ===== src/Factory/Resolve/Stable.antt =====
-- What a resolution of src/Factory.cpp leaves as it was, whether it returns or throws.
use xpcf.Base.{ℕ, zero, suc, String, List, [], string_keys, nat_keys, named_keys}
use xpcf.Factory.{BindInfos, BindContext, Factory}
use xpcf.Factory.Resolve.{
  Components, create, configure_component, inject_with, resolve_component, resolve, resolve_named,
  resolve_all,
}
use xpcf.Factory.Resolve.Extends.{Extends, Extends-refl, Grows, Grows-continue}
use xpcf.Factory.Resolve.Steps.{create-Grows, configure_component-Grows}
use xpcf.Factory.Resolve.Nested.{
  resolve_with-Grows, resolve_named_with-Grows, resolve_all_with-Grows, inject_with-Grows,
}

module _ (C : Components) where
  open C use {
    Method, call, from_module, implements, injectables, configurable, configure, config_path,
  }

  pub resolve_component-Grows :
      (fuel : ℕ) (infos : BindInfos) (cs : List BindContext)
      → Grows (resolve_component C fuel infos cs)
  unfolding resolve_component
  resolve_component-Grows zero infos cs f = Extends-refl f
  resolve_component-Grows (suc fuel) infos cs f =
      Grows-continue f (create C infos f) _ (create-Grows C infos f) (λ ref g.
        Grows-continue g (inject_with C (resolve_component C fuel) ref cs g) _
          (inject_with-Grows C (resolve_component C fuel) (resolve_component-Grows fuel) ref cs g)
          (λ _ h.
            Grows-continue h (configure_component C infos ref h) _
              (configure_component-Grows C infos ref h) (λ _ k. Extends-refl k)))

  -- A resolution that returns or throws leaves the bindings as they were, and no instance that is
  -- shared already, by a component's uuid or by that and a name, is replaced or forgotten. It adds
  -- no create function, and the numbers it gives to instances do not go back.
  pub resolve-Extends : (fuel i : ℕ) (f : Factory Method) → Extends f (resolve C fuel i f).1
  unfolding resolve
  resolve-Extends fuel i f =
      resolve_with-Grows C (resolve_component C fuel) (resolve_component-Grows fuel) i [] f

  pub resolve_named-Extends :
      (fuel i : ℕ) (name : String) (f : Factory Method)
      → Extends f (resolve_named C fuel i name f).1
  unfolding resolve_named
  resolve_named-Extends fuel i name f =
      resolve_named_with-Grows C (resolve_component C fuel) (resolve_component-Grows fuel) i name []
        f

  pub resolve_all-Extends : (fuel i : ℕ) (f : Factory Method) → Extends f (resolve_all C fuel i f).1
  unfolding resolve_all
  resolve_all-Extends fuel i f =
      resolve_all_with-Grows C (resolve_component C fuel) (resolve_component-Grows fuel) i [] f
