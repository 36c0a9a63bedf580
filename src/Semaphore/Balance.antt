-- ===== src/Semaphore/Balance.antt =====
-- boostthreadcontrol/sync.h: the accounts of grants and semaphores.
use learn_framework.Common.{
  ℕ, ◌+◌, ◌≤◌, ◌≡◌, Bool, true, false, Option, none, some, arith, ◌==◌, if◌then◌else◌, Option-cases,
  Bool-cases, inl, inr, ok, get_elem?, total, total-set, total-get_elem?,
}
use learn_framework.Common.Int.{
  ℤ, pos, negsuc, pos_part, neg_part, increment, decrement, below_one, increment_parts,
}
use learn_framework.Semaphore.{
  Store, Grant, put, update, wait, post, try_wait, acquire_grant, release_grant, try_acquire_grant,
}

unfoldable pub names : ℕ → Option ℕ → ℕ
names s none = 0
names s (some t) = if t == s then 1 else 0

-- 1 for a grant that has been granted by the semaphore `s`.
unfoldable pub weight : ℕ → Grant → ℕ
weight s g = if g.f_have_grant then names s g.sem else 0

-- How many grants the semaphore `s` has out.
unfoldable pub held : ℕ → Store → ℕ
held s st = total (weight s) st.grants

-- 1 for a grant that has been granted by no semaphore at all.
unfoldable pub orphan : Grant → ℕ
orphan g = if g.f_have_grant then elim g.sem [ none ↦ 1 | some s ↦ 0 ] else 0

-- Each semaphore's value and the grants that it has out add up to its first value, the value is
-- negative only so far as the first value is, and each grant that is held names its semaphore.
pub record Inv (base : ℕ → ℤ) (st : Store) : Type 0 where
  pub balanced :
      (s : ℕ)
      → pos_part (st.value s) + held s st + neg_part (base s)
        ≡ neg_part (st.value s) + pos_part (base s)
  pub floor : (s : ℕ) → neg_part (st.value s) ≤ neg_part (base s)
  pub owned : total orphan st.grants ≡ 0

pub decrement_parts :
    (z : ℤ)
    → below_one z ≡ false
    → (pos_part z ≡ pos_part (decrement z) + 1) × (neg_part (decrement z) ≡ 0) × (neg_part z ≡ 0)
unfolding decrement
decrement_parts (pos n) h = ground arith
decrement_parts (negsuc n) h = cc

increment_floor : (z : ℤ) → neg_part (increment z) ≤ neg_part z
unfolding increment
increment_floor (pos n) = omega arith
increment_floor (negsuc n) = ground arith

module _ (base : ℕ → ℤ) (st : Store) (v : Inv base st) (i : ℕ) (g : Grant)
    (here : get_elem? st.grants i ≡ some g) where
  -- The semaphore that `g` names grants it.
  granted-Inv :
      (s : ℕ)
      → g.sem ≡ some s
      → g.f_have_grant ≡ false
      → below_one (st.value s) ≡ false
      → Inv base
          (put st (update st.value s (decrement (st.value s))) i (record g { f_have_grant = true }))
  unfolding held weight names orphan
  granted-Inv s e h b = record {
    balanced = λ t. ground (
      arith,
      v.balanced t,
      decrement_parts (st.value s) b,
      total-set (weight t) st.grants i g (record g { f_have_grant = true }) here,
    );
    floor = λ t. ground (arith, v.floor t, decrement_parts (st.value s) b);
    owned =
        ground
          (arith, v.owned, total-set orphan st.grants i g (record g { f_have_grant = true }) here);
  }

  released-Inv :
      (s : ℕ)
      → g.sem ≡ some s
      → g.f_have_grant ≡ true
      → Inv base (
          put st (update st.value s (increment (st.value s))) i (record g { f_have_grant = false }))
  unfolding held weight names orphan
  released-Inv s e h = record {
    balanced = λ t. ground (
      arith,
      v.balanced t,
      increment_parts (st.value s),
      total-set (weight t) st.grants i g (record g { f_have_grant = false }) here,
    );
    floor = λ t. ground (arith, v.floor t, increment_floor (st.value s));
    owned =
        ground
          (arith, v.owned, total-set orphan st.grants i g (record g { f_have_grant = false }) here);
  }

  pub acquire_grant-Inv : {st' : Store} → acquire_grant st i g ≡ ok st' → Inv base st'
  unfolding acquire_grant wait
  acquire_grant-Inv {st'} h = elim (Bool-cases g.f_have_grant) [
    | inl old ↦ let e : st' ≡ st = ground arith in rw e v
    | inr new ↦ elim (Option-cases g.sem) [
      | inl n ↦ absurd (ground arith)
      | inr (s, q) ↦ elim (Bool-cases (below_one (st.value s))) [
        | inl low ↦ absurd (ground arith)
        | inr b ↦
            let e : st'
                ≡ put st (update st.value s (decrement (st.value s))) i
                    (record g { f_have_grant = true }) =
              ground arith in
            rw e (granted-Inv s q new b)
      ]
    ]
  ]

  pub release_grant-Inv : {st' : Store} → release_grant st i g ≡ ok st' → Inv base st'
  unfolding release_grant post
  release_grant-Inv {st'} h = elim (Bool-cases g.f_have_grant) [
    | inr old ↦ let e : st' ≡ st = ground arith in rw e v
    | inl new ↦ elim (Option-cases g.sem) [
      | inl n ↦ absurd (ground arith)
      | inr (s, q) ↦
          let e : st'
              ≡ put st (update st.value s (increment (st.value s))) i
                  (record g { f_have_grant = false }) =
            ground arith in
          rw e (released-Inv s q new)
    ]
  ]

  pub try_acquire_grant-Inv : {r : Store × Bool} → try_acquire_grant st i g ≡ ok r → Inv base r.0
  unfolding try_acquire_grant try_wait
  try_acquire_grant-Inv {r} h = elim (Bool-cases g.f_have_grant) [
    | inl old ↦ let e : r.0 ≡ st = ground arith in rw e v
    | inr new ↦ elim (Option-cases g.sem) [
      | inl n ↦ absurd (ground arith)
      | inr (s, q) ↦ elim (Bool-cases (below_one (st.value s))) [
        | inl low ↦ let e : r.0 ≡ st = ground arith in rw e v
        | inr b ↦
            let e : r.0
                ≡ put st (update st.value s (decrement (st.value s))) i
                    (record g { f_have_grant = true }) =
              ground arith in
            rw e (granted-Inv s q new b)
      ]
    ]
  ]

-- A grant held is the premise that lets a release follow its pointer.
pub release_grant_total :
    (base : ℕ → ℤ) (st : Store) (i : ℕ) (g : Grant)
    → Inv base st
    → get_elem? st.grants i ≡ some g
    → (st' : Store) × (release_grant st i g ≡ ok st')
unfolding release_grant orphan
release_grant_total base st i g v here = elim (Bool-cases g.f_have_grant) [
  | inr old ↦ (st, ground arith)
  | inl new ↦ elim (Option-cases g.sem) [
    | inl n ↦ absurd (ground (arith, v.owned, total-get_elem? orphan st.grants i g here))
    | inr (s, q) ↦ (put st (post st.value s) i (record g { f_have_grant = false }), ground arith)
  ]
]
