-- ===== src/Tests/Depth.antt =====
-- src/Factory.cpp: a factory whose components are ranked, so that its resolutions end.
use xpcf.Base.{
  ℕ, ◌≡◌, ◌≢◌, ◌<◌, arith, true, false, Bool, List, some, nat_eq, All, nat_keys, named_keys,
  if◌then◌else◌, inl, inr, Bool-cases,
}
use xpcf.Map
use xpcf.Exec.{err, no_fuel}
use xpcf.Factory.{transient, singleton, BindInfos, Factory}
use xpcf.Factory.Lookup.Sources.{Source, by_specific, by_default, by_auto, by_core}
use xpcf.Factory.Resolve.{resolve, resolve_all}
use xpcf.Factory.Resolve.Depth.{Marked, Below, Makes, by_core_method, by_method, by_module, Ranked}
use xpcf.Factory.Resolve.Depth.Enough.{resolve-Ends, resolve_all-Ends}
use xpcf.Tests.Resolution.{toy, infos, no_bindings, factory, wants, injectables_of}

toy-Marked : Marked toy
toy-Marked = record {
  of_call = λ m q. cc q;
  of_module = λ u q. cc q;
  of_configure = λ u path name q. cc q;
  of_injection = λ u q. cc q;
}

-- Interface 1 is component 20 and interface 2 component 10, which wants interface 1.
abbrev chain : Factory ℕ
chain = record factory {
  context = record no_bindings {
    default_bindings =
        Map.insert (Map.insert Map.empty 1 (infos 20 singleton)) 2 (infos 10 transient);
  };
}

abbrev rank : ℕ → ℕ
rank u = if nat_eq u 10 then 1 else 0

interface_1 : (b : BindInfos) → Source chain 1 b → rank b.component_uuid < 1
unfolding Map.insert Map.lookup Map.empty
interface_1 b (by_specific c h) = cc h
interface_1 b (by_default h) = ground (arith, h)
interface_1 b (by_auto h) = cc h
interface_1 b (by_core h) = cc h

interface_2 : (b : BindInfos) → Source chain 2 b → rank b.component_uuid < 2
unfolding Map.insert Map.lookup Map.empty
interface_2 b (by_specific c h) = cc h
interface_2 b (by_default h) = ground (arith, h)
interface_2 b (by_auto h) = cc h
interface_2 b (by_core h) = cc h

interface_9 : (b : BindInfos) → Source chain 9 b → rank b.component_uuid < 0
unfolding Map.insert Map.lookup Map.empty
interface_9 b (by_specific c h) = cc h
interface_9 b (by_default h) = cc h
interface_9 b (by_auto h) = cc h
interface_9 b (by_core h) = cc h

below :
    (i r : ℕ) (optional : Bool)
    → ((b : BindInfos) → Source chain i b → rank b.component_uuid < r)
    → Below chain rank r (wants i optional)
unfolding Map.insert Map.lookup Map.empty
below i r optional h = record { one = h; named = λ name b e s. cc e; listed = λ bs e. cc e }

class_of : (component u : ℕ) → Makes toy chain component u → component ≡ u
unfolding Map.lookup Map.empty
class_of component u (by_core_method m h k) = cc h
class_of component u (by_method m h k) = cc h
class_of component u (by_module h k) = ground (arith, k)

chain-Ranked : Ranked toy chain rank
chain-Ranked = record { below = λ component u made. go component u (class_of component u made) }
  where
    go : (c u : ℕ) → c ≡ u → All (Below chain rank (rank c)) (injectables_of u)
    go c u e = elim (Bool-cases (nat_eq u 10)) [
      | inl p ↦ rw (e, p) (below 1 1 false interface_1, tt)
      | inr p ↦ elim (Bool-cases (nat_eq u 30)) [
        | inl q ↦ rw (e, p, q) (below 9 0 true interface_9, tt)
        | inr q ↦ rw (p, q) tt
      ]
    ]

no_list :
    (bs : List BindInfos)
    → Map.lookup chain.context.multi_bindings 2 ≡ some bs
    → All (λ b. rank b.component_uuid < 2) bs
unfolding Map.lookup Map.empty
no_list bs e = cc e

resolve-Ends_example : (resolve toy 2 2 chain).0 ≢ err no_fuel
resolve-Ends_example = resolve-Ends toy toy-Marked chain rank chain-Ranked 2 2 interface_2

resolve_all-Ends_example : (resolve_all toy 2 2 chain).0 ≢ err no_fuel
resolve_all-Ends_example =
    resolve_all-Ends toy toy-Marked chain rank chain-Ranked 2 2 interface_2 no_list
