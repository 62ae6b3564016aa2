-- ===== src/Tests/Component.antt =====
-- src/ComponentBase.cpp: a component with two interfaces and some injectables.
use xpcf.Base.{ℕ, ◌≡◌, refl, arith, true, false, List, [], ◌∷◌, nat_keys}
use xpcf.Map
use xpcf.Component.{ObjectInterface, ComponentBase, construct}
use xpcf.Component.Calls.{
  Call, declares_interface, declares_injectable, declares_named, declares_multi, adds_ref,
  releases_ref, after_all,
}
use xpcf.Component.Declared.{Declared, construct-Declared}
use xpcf.Component.References.{adds, releases, releases-adds}

abbrev object : ℕ → ObjectInterface ℕ
object p = record { name = "I"; description = "an interface"; component = p }

abbrev calls : List (Call ℕ)
calls =
    declares_interface 7 (object 70)
    ∷ declares_interface 7 (object 71)
    ∷ declares_injectable 3 30 false
    ∷ declares_injectable 3 31 true
    ∷ declares_named 3 32 "left" false
    ∷ declares_multi 3 33 false
    ∷ adds_ref
    ∷ releases_ref
    ∷ []

abbrev fresh : ComponentBase ℕ
unfolding construct
fresh = construct 1 (object 10) 2 (object 20)

construct-Declared_example : Declared (after_all calls (construct 1 (object 10) 2 (object 20)))
construct-Declared_example = construct-Declared 1 2 (object 10) (object 20) calls

releases-adds_example :
    let d = releases 3 (adds 3 fresh) in (d.usage_ref_count ≡ 0) × (d.unloads ≡ 1)
unfolding fresh construct Map.lookup Map.empty Map.insert
releases-adds_example = releases-adds 3 0 fresh refl (omega arith)
