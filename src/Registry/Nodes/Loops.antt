-- ===== src/Registry/Nodes/Loops.antt =====
-- What a loop over XML nodes keeps and makes (interfaces/private/xpcf/tinyxmlhelper.h).
use xpcf.Base.{◌≡◌, refl, List, [], ◌∷◌, inl, inr, Among, subst}
use xpcf.Exec.{Result, ok, err, Exec, rethrow, continue, process_xml_node}

-- What all rounds keep, the loop over the nodes keeps.
pub process-keeps :
    {S E : Type 0} (R : S → S → Type 0) (f : E → Exec S (Unit {0}))
    → ((s : S) → R s s)
    → ((s t u : S) → R s t → R t u → R s u)
    → ((x : E) (s : S) → R s (f x s).1)
    → (xs : List E) (s : S) → R s (process_xml_node f xs s).1
unfolding process_xml_node
process-keeps R f same then_ step [] s = same s
process-keeps {S} {E} R f same then_ step (x ∷ xs) s =
    go (f x s) (step x s) (λ t. process-keeps R f same then_ step xs t)
  where
    go :
        (p : Result (Unit {0}) × S)
        → R s p.1
        → ((t : S) → R t (process_xml_node f xs t).1)
        → R s (continue p (λ _. process_xml_node f xs)).1
    go (err e, t) h rest = h
    go (ok a, t) h rest = then_ s t (process_xml_node f xs t).1 h (rest t)

pub rethrow-state : {S A : Type 0} (p : Result A × S) → (rethrow p).1 ≡ p.1
rethrow-state (ok a, s) = refl
rethrow-state (err e, s) = refl

-- What every round that succeeds keeps holds after a loop that succeeds.
pub process-ok :
    {S E : Type 0} (Q : S → Type 0) (f : E → Exec S (Unit {0}))
    → ((x : E) (s : S) → (f x s).0 ≡ ok tt → Q s → Q (f x s).1)
    → (xs : List E) (s : S) → (process_xml_node f xs s).0 ≡ ok tt
    → Q s
    → Q (process_xml_node f xs s).1
unfolding process_xml_node
process-ok Q f step [] s e q = q
process-ok {S} {E} Q f step (x ∷ xs) s e q =
    go (f x s) (λ h. step x s h q) (λ t. process-ok Q f step xs t) e
  where
    go :
        (p : Result (Unit {0}) × S)
        → (p.0 ≡ ok tt → Q p.1)
        → ((t : S) → (process_xml_node f xs t).0 ≡ ok tt → Q t → Q (process_xml_node f xs t).1)
        → (continue p (λ _. process_xml_node f xs)).0 ≡ ok tt
        → Q (continue p (λ _. process_xml_node f xs)).1
    go (err z, t) h rest e = cc e
    go (ok a, t) h rest e = rest t e (h refl)

-- What the round of one node makes and the others keep holds after a loop that succeeds.
pub process-one :
    {S E : Type 0} (Q : S → Type 0) (f : E → Exec S (Unit {0})) (x : E)
    → ((s : S) → (f x s).0 ≡ ok tt → Q (f x s).1)
    → ((ys : List E) (s : S) → Q s → Q (process_xml_node f ys s).1)
    → (xs : List E) (s : S) → Among x xs
    → (process_xml_node f xs s).0 ≡ ok tt
    → Q (process_xml_node f xs s).1
unfolding process_xml_node
process-one Q f x makes keeps [] s a e = absurd a
process-one {S} {E} Q f x makes keeps (y ∷ ys) s a e =
    go (f y s) (λ same. subst (λ z. (f z s).0 ≡ ok tt → Q (f z s).1) same (makes s))
      (λ t. process-one Q f x makes keeps ys t) a e
  where
    go :
        (p : Result (Unit {0}) × S)
        → (x ≡ y → p.0 ≡ ok tt → Q p.1)
        → ((t : S)
            → Among x ys
            → (process_xml_node f ys t).0 ≡ ok tt
            → Q (process_xml_node f ys t).1)
        → Among x (y ∷ ys)
        → (continue p (λ _. process_xml_node f ys)).0 ≡ ok tt
        → Q (continue p (λ _. process_xml_node f ys)).1
    go (err z, t) h rest a e = cc e
    go (ok b, t) h rest (inl same) e = keeps ys t (h same refl)
    go (ok b, t) h rest (inr later) e = rest t later e

pub rethrow-ok : {S A : Type 0} {a : A} (p : Result A × S) → (rethrow p).0 ≡ ok a → p.0 ≡ ok a
rethrow-ok (ok b, s) e = e
rethrow-ok (err z, s) e = cc e
