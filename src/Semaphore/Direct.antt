-- ===== src/Semaphore/Direct.antt =====
-- boostthreadcontrol/sync.h: what the calls on a semaphore itself, and the copies of a grant, do to the
-- accounts: they move the value that the semaphore might have been made with.
use learn_framework.Common.{
  ℕ, zero, suc, ◌+◌, ◌≤◌, ◌≡◌, ◌⊎◌, refl, true, false, some, [], ◌∷◌, ◌++◌, arith, inl, inr,
  get_elem?, total-append, total-get_elem?,
}
use learn_framework.Common.Int.{
  ℤ, pos, negsuc, pos_part, neg_part, increment, decrement, below_one, increment_parts,
}
use learn_framework.Semaphore.{Store, Grant, update}
use learn_framework.Semaphore.Balance.{Inv, held, weight, names, orphan, decrement_parts}

pub increment_signs :
    (z : ℤ)
    → (neg_part z ≡ 0 → neg_part (increment z) ≡ 0)
      × (1 ≤ neg_part z → neg_part (increment z) + 1 ≡ neg_part z)
unfolding increment
increment_signs (pos n) = (λ h. refl, λ h. absurd (omega (arith, h)))
increment_signs (negsuc zero) = (λ h. refl, λ h. refl)
increment_signs (negsuc (suc n)) = (λ h. absurd (omega (arith, h)), λ h. omega arith)

increment_le : (a b : ℤ) → neg_part a ≤ neg_part b → neg_part (increment a) ≤ neg_part (increment b)
increment_le a b h = ground (arith, h, increment_signs a, increment_signs b)

pub decrement_signs :
    (z : ℤ)
    → (pos_part (decrement z) + neg_part z + 1 ≡ pos_part z + neg_part (decrement z))
      × (1 ≤ pos_part z → neg_part (decrement z) ≡ 0)
unfolding decrement
decrement_signs (pos zero) = (refl, λ h. absurd (omega (arith, h)))
decrement_signs (pos (suc n)) = (omega arith, λ h. refl)
decrement_signs (negsuc n) = (omega arith, λ h. absurd (omega (arith, h)))

one_sign : (z : ℤ) → (pos_part z ≡ 0) ⊎ (neg_part z ≡ 0)
one_sign (pos n) = inr refl
one_sign (negsuc n) = inl refl

module _ (base : ℕ → ℤ) (st : Store) (v : Inv base st) where
  -- A place that comes from outside the grants, and one that goes there.
  pub posted-Inv :
      (s : ℕ)
      → Inv
          (update base s (increment (base s)))
          (record st { value = update st.value s (increment (st.value s)) })
  unfolding held
  posted-Inv s = record {
    balanced =
        λ t. ground (arith, v.balanced t, increment_parts (st.value s), increment_parts (base s));
    floor = λ t. ground (arith, v.floor t, increment_le (st.value s) (base s));
    owned = v.owned;
  }

  pub taken-Inv :
      (s : ℕ)
      → below_one (st.value s) ≡ false
      → Inv
          (update base s (decrement (base s)))
          (record st { value = update st.value s (decrement (st.value s)) })
  unfolding held
  taken-Inv s b = record {
    balanced =
        λ t. ground (arith, v.balanced t, decrement_parts (st.value s) b, decrement_signs (base s));
    floor = λ t. ground (arith, v.floor t, decrement_parts (st.value s) b);
    owned = v.owned;
  }

  -- A copy of a grant that is not held, and of one that is.
  pub unheld-Inv :
      (g : Grant) → g.f_have_grant ≡ false → Inv base (record st { grants = st.grants ++ (g ∷ []) })
  unfolding held weight orphan
  unheld-Inv g old = record {
    balanced = λ t. ground (arith, old, v.balanced t, total-append (weight t) st.grants (g ∷ []));
    floor = v.floor;
    owned = ground (arith, old, v.owned, total-append orphan st.grants (g ∷ []));
  }

  pub copied-Inv :
      (i : ℕ) (g : Grant) (s : ℕ)
      → get_elem? st.grants i ≡ some g
      → g.f_have_grant ≡ true
      → g.sem ≡ some s
      → Inv (update base s (increment (base s))) (record st { grants = st.grants ++ (g ∷ []) })
  unfolding held weight names orphan
  copied-Inv i g s here new e = record {
    balanced = λ t. ground (
      arith,
      new,
      e,
      v.balanced t,
      increment_parts (base s),
      total-append (weight t) st.grants (g ∷ []),
    );
    floor = λ t. ground (
      arith,
      new,
      e,
      v.floor t,
      v.balanced t,
      one_sign (base s),
      increment_signs (base s),
      total-get_elem? (weight t) st.grants i g here,
    );
    owned = ground (arith, new, e, v.owned, total-append orphan st.grants (g ∷ []));
  }
