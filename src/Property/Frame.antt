-- ===== src/Property/Frame.antt =====
-- Calls that change one property of src/Property.cpp at most.
use xpcf.Base.{ℕ, false, ◌≡◌, refl, ◌∙◌, nat_eq}
use xpcf.Property.Store.{Object, Store, put}

-- Only the object at an address differs.
pub record Only {F D : Type 0} (p : ℕ) (t u : Store F D) : Type 0 where
  pub nodes : u.node ≡ t.node
  pub others : (b : ℕ) → nat_eq p b ≡ false → u.property b ≡ t.property b

module _ {F D : Type 0} where
  pub Only-refl : (p : ℕ) (t : Store F D) → Only p t t
  Only-refl p t = record { nodes = refl; others = λ b h. refl }

  pub Only-trans : (p : ℕ) {t u v : Store F D} → Only p t u → Only p u v → Only p t v
  Only-trans p h k = record {
    nodes = k.nodes ∙ h.nodes;
    others = λ b e. k.others b e ∙ h.others b e;
  }

  pub Only-put : (p : ℕ) (t : Store F D) (o : Object F D) → Only p t (put p o t)
  Only-put p t o = record { nodes = refl; others = λ b e. rw e refl }
