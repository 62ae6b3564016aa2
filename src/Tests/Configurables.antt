-- ===== src/Tests/Configurables.antt =====
-- src/ConfigurableBase.cpp: a number, a vector of texts, and a name that is taken.
use xpcf.Base.{
  ℕ, Option, ◌≡◌, refl, List, [], ◌∷◌, none, nat_eq, nat_eq_iff, nat_keys, string_keys, pos, negsuc,
  Among, inl, inr, subst, Bool-cases, arith, false,
}
use xpcf.Map
use xpcf.Exec.{Result, ok, Exec}
use xpcf.Alias.{alias_exists}
use xpcf.Property.{success, integer, ErrorCode}
use xpcf.Property.Numerals.{to_string_ℕ, to_string_ℤ, digits}
use xpcf.Property.Store.{Store, Object, put, get}
use xpcf.Property.Maps
use xpcf.Property.Maps.{put_node, at}
use xpcf.Manager.Serialize.{serialize_document, serialize_file}
use xpcf.Manager.RoundTrip.Shape.{SameShape, Towards, Shaped, Shaped-refl}
use xpcf.Configurable.{PropsManager, absent, injected, declare_property, serialize, configure}
use xpcf.Configurable.Restore.{Declaration, AllDeclarable, declare_all, configure-declare_all}
use xpcf.Tests.Manager.{object, vector, before, no_aliases}
use xpcf.Tests.Dom.{Dom, platform, laws}

abbrev declarations : List (Declaration (Unit {0}) (Unit {0}))
declarations =
    record { address = 1; name = "size"; make = λ n. object n (integer (negsuc 41)) }
    ∷ record { address = 2; name = "names"; make = λ n. vector n ("ab" ∷ "c" ∷ []) }
    ∷ record { address = 3; name = "size"; make = λ n. object n (integer (pos 1)) }
    ∷ []

abbrev component : Store (Unit {0}) (Unit {0})
unfolding declare_property Maps.empty
component = declare_all 0 declarations (put_node 0 Maps.empty before)

abbrev changed : Store (Unit {0}) (Unit {0})
changed = put 1 (object "size" (integer (pos 0))) component

put-SameShape :
    (s : Store (Unit {0}) (Unit {0})) (p : ℕ) (o : Object (Unit {0}) (Unit {0}))
    → Shaped (s.property p) o
    → SameShape s (put p o s)
put-SameShape s p o h = record {
  nodes = refl;
  objects = λ a. elim (Bool-cases (nat_eq p a)) [
    | inl e ↦
        let same : p ≡ a = (nat_eq_iff p a).0 e in
        rw e (subst (λ b. Shaped (s.property b) o) same h)
    | inr e ↦ rw e (Shaped-refl (s.property a))
  ];
}

same_shape : SameShape component changed
unfolding component Map.lookup Map.insert Map.empty
same_shape = put-SameShape component 1 (object "size" (integer (pos 0))) (refl, refl, refl)

apart_one : (p : ℕ) → Among p (1 ∷ []) → nat_eq 2 p ≡ false
apart_one p (inl e) = rw e refl
apart_one p (inr a) = absurd a

apart_two : (p : ℕ) → Among p (1 ∷ 2 ∷ []) → nat_eq 3 p ≡ false
apart_two p (inl e) = rw e refl
apart_two p (inr (inl e)) = rw e refl
apart_two p (inr (inr a)) = absurd a

fits : AllDeclarable 0 declarations (put_node 0 Maps.empty before)
unfolding declare_property Maps.empty Map.lookup Map.insert Map.empty
fits = (
  record {
    apart = λ p a. absurd a;
    plain = record { filled = refl; holds = omega arith; flat = refl };
  },
  (
    record {
      apart = apart_one;
      plain = record {
        filled = refl;
        holds = (tt, ((refl, refl), ((refl, refl), tt)));
        flat = refl;
      };
    },
    (
      record {
        apart = apart_two;
        plain = record { filled = refl; holds = omega arith; flat = refl };
      },
      tt,
    ),
  ),
)

abbrev saved : Result ErrorCode × Option Dom × PropsManager
unfolding serialize serialize_file serialize_document to_string_ℕ to_string_ℤ digits get
saved = serialize platform 5 2 0 none component absent

was_saved : saved ≡ (ok success, saved.1, absent)
unfolding saved component Map.lookup Map.insert Map.empty
was_saved = refl

-- A component that has nothing to do in `onConfigured`.
abbrev on_configured : Exec (Store (Unit {0}) (Unit {0})) ErrorCode
on_configured s = (ok success, s)

configure-declare_all_example :
    (u : Store (Unit {0}) (Unit {0})) × (configure platform 5 2 0 on_configured
        (injected no_aliases)
        saved.1
        changed
      ≡ (ok success, u))
    × Towards component changed u
    × ((q : ℕ) → Among q (component.node 0).collection → u.property q ≡ component.property q)
unfolding component saved alias_exists Map.lookup Map.insert Map.empty
configure-declare_all_example =
    configure-declare_all platform laws 5 2 0 on_configured declarations before changed absent
      absent no_aliases saved.1 fits same_shape refl (λ x made. refl) was_saved
