-- ===== src/Factory/Resolve/Depth/Steady.antt =====
-- Actions of src/Factory.cpp that end in every factory that a resolution may lead to.
use xpcf.Base.{◌≢◌, Bool, true, false, arith, if◌then◌else◌}
use xpcf.Exec.{Result, ok, err, Exec, no_fuel, continue}
use xpcf.Factory.{Scope, transient, singleton, Factory}
use xpcf.Factory.Resolve.{absorb}
use xpcf.Factory.Resolve.Extends.{Extends, Extends-trans, Grows}
use xpcf.Factory.Resolve.Depth.{Ends}

module _ {Method : Type 0} (f : Factory Method) where
  -- In every factory that a resolution may lead to, the action ends.
  abbrev pub Steady : {A : Type 0} → Exec (Factory Method) A → Type 0
  Steady m = (g : Factory Method) → Extends f g → Ends (m g)

  pub Steady-continue :
      {A B : Type 0} (p : Result A × Factory Method) (k : A → Exec (Factory Method) B)
      → Extends f p.1
      → Ends p
      → ((a : A) → Steady (k a))
      → Ends (continue p k)
  Steady-continue (ok a, g) k x h next = next a g x
  Steady-continue (err e, g) k x h next = λ q. h (ground (arith, q))

  pub after :
      {A : Type 0} (m : Exec (Factory Method) A)
      → Grows m
      → (g : Factory Method) → Extends f g
      → Extends f (m g).1
  after m h g x = Extends-trans x (h g)

  pub scoped-Steady :
      {A : Type 0} (s : Scope) (m n : Exec (Factory Method) A)
      → Steady m
      → Steady n
      → Steady (elim s [ transient ↦ m | singleton ↦ n ])
  scoped-Steady transient m n hm hn = hm
  scoped-Steady singleton m n hm hn = hn

  pub choose-Steady :
      {A : Type 0} (b : Bool) (m n : Exec (Factory Method) A)
      → Steady m
      → Steady n
      → Steady (if b then m else n)
  choose-Steady true m n hm hn = hm
  choose-Steady false m n hm hn = hn

pub absorb-Ends : (o : Bool) (r : Result (Unit {0})) → r ≢ err no_fuel → absorb o r ≢ err no_fuel
unfolding absorb
absorb-Ends o (ok a) h = h
absorb-Ends o (err e) h = λ q. ground (arith, h, q)
