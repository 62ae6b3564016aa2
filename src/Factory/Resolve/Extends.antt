-- ===== src/Factory/Resolve/Extends.antt =====
-- What a call of src/Factory.cpp may not change: the bindings, and every instance that is shared.
use xpcf.Base.{
  ℕ, ◌≡◌, refl, ◌∙◌, List, Option, none, some, ◌≤◌, string_keys, nat_keys, named_keys, arith, Key,
}
use xpcf.Map
use xpcf.Map.{Map, lookup-insert}
use xpcf.Exec.{Result, ok, err, Exec, continue}
use xpcf.Factory.{Ref, Event, Factory}

-- Every entry of one map stands in the other.
pub record Kept {K : Type 0} ⦃e : Key K⦄ (m n : Map K Ref) : Type 0 where
  pub at : (k : K) {r : Ref} → Map.lookup m k ≡ some r → Map.lookup n k ≡ some r

pub record Extends {Method : Type 0} (f g : Factory Method) : Type 0 where
  pub same_context : g.context ≡ f.context
  pub same_core : g.core_bindings ≡ f.core_bindings
  pub singletons : Kept f.singleton_instances g.singleton_instances
  pub named_singletons : Kept f.named_singleton_instances g.named_singleton_instances
  pub cores : Kept f.core_instances g.core_instances
  pub ids : f.next_id ≤ g.next_id
  -- no create function is added; an empty one may be, by a look that found none
  pub methods :
      (k : ℕ) (m : Method)
      → Map.lookup g.core_factory_methods k ≡ some (some m)
      → Map.lookup f.core_factory_methods k ≡ some (some m)

module _ {K : Type 0} ⦃e : Key K⦄ where
  pub Kept-refl : (m : Map K Ref) → Kept m m
  Kept-refl m = record { at = λ k h. h }

  pub Kept-trans : {m n o : Map K Ref} → Kept m n → Kept n o → Kept m o
  Kept-trans p q = record { at = λ k h. q.at k (p.at k h) }

  -- An entry for a key that was missing at the start.
  pub Kept-insert :
      {m n : Map K Ref} (k : K) (r : Ref)
      → Map.lookup m k ≡ none
      → Kept m n
      → Kept m (Map.insert n k r)
  Kept-insert {m} {n} k r gone p = record {
    at = λ j {r = s} h. ground (arith, lookup-insert n k j r, p.at j h, e.equal_iff k j);
  }

module _ {Method : Type 0} where
  pub Extends-refl : (f : Factory Method) → Extends f f
  Extends-refl f = record {
    same_context = refl;
    same_core = refl;
    singletons = Kept-refl _;
    named_singletons = Kept-refl _;
    cores = Kept-refl _;
    ids = omega arith;
    methods = λ k m h. h;
  }

  pub Extends-trans : {f g h : Factory Method} → Extends f g → Extends g h → Extends f h
  Extends-trans p q = record {
    same_context = q.same_context ∙ p.same_context;
    same_core = q.same_core ∙ p.same_core;
    singletons = Kept-trans p.singletons q.singletons;
    named_singletons = Kept-trans p.named_singletons q.named_singletons;
    cores = Kept-trans p.cores q.cores;
    ids = omega arith;
    methods = λ k m h. p.methods k m (q.methods k m h);
  }

  pub Extends-continue :
      {A B : Type 0} (f : Factory Method) (p : Result A × Factory Method)
      (k : A → Exec (Factory Method) B)
      → Extends f p.1
      → ((a : A) (g : Factory Method) → Extends f g → Extends f (k a g).1)
      → Extends f (continue p k).1
  Extends-continue f (ok a, g) k h next = next a g h
  Extends-continue f (err e, g) k h next = h

module _ {Method : Type 0} where
  -- The action extends every factory.
  abbrev pub Grows : {A : Type 0} → Exec (Factory Method) A → Type 0
  Grows m = (f : Factory Method) → Extends f (m f).1

  pub Grows-continue :
      {A B : Type 0} (f : Factory Method) (p : Result A × Factory Method)
      (k : A → Exec (Factory Method) B)
      → Extends f p.1
      → ((a : A) → Grows (k a))
      → Extends f (continue p k).1
  Grows-continue f p k h next = Extends-continue f p k h (λ a g x. Extends-trans x (next a g))

  -- A change of what `Extends` does not speak of, and new objects.
  pub Extends-fields :
      (f : Factory Method) (methods : Map ℕ (Option Method)) (n : ℕ) (es : List Event)
      → f.next_id ≤ n
      → ((k : ℕ) (m : Method)
          → Map.lookup methods k ≡ some (some m)
          → Map.lookup f.core_factory_methods k ≡ some (some m))
      → Extends f (record f { core_factory_methods = methods; next_id = n; events = es })
  Extends-fields f methods n es h old = record {
    same_context = refl;
    same_core = refl;
    singletons = Kept-refl _;
    named_singletons = Kept-refl _;
    cores = Kept-refl _;
    ids = h;
    methods = old;
  }
