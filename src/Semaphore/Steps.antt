-- ===== src/Semaphore/Steps.antt =====
-- boostthreadcontrol/sync.h: the accounts of grants and semaphores after one call.
use learn_framework.Common.{
  ℕ, ◌+◌, ◌≡◌, refl, Bool, true, false, not, ◌&&◌, Option, none, some, [], ◌∷◌, ◌++◌, arith, ◌==◌,
  if◌then◌else◌, Option-cases, Result-cases, Bool-cases, inl, inr, ok, get_elem?, total-append,
  total-get_elem?, length,
}
use learn_framework.Common.Int.{
  ℤ, pos_part, neg_part, below_one, increment, decrement, increment_parts,
}
use learn_framework.Semaphore.{
  Store, Grant, update, wait, try_wait, post, acquire, release, try_acquire, construct,
  construct_empty,
}
use learn_framework.Semaphore.Balance.{
  weight, names, orphan, held, Inv, acquire_grant-Inv, release_grant-Inv, try_acquire_grant-Inv,
  decrement_parts,
}
use learn_framework.Semaphore.Direct.{
  increment_signs, decrement_signs, posted-Inv, taken-Inv, unheld-Inv, copied-Inv,
}
use learn_framework.Semaphore.Move.{move_to-Inv}
use learn_framework.Semaphore.Calls.{
  Call, makes_empty, makes, acquires, tries, releases, moves, copies, waits_on, tries_on, posts_to,
  step,
}

acquire-Inv :
    (base : ℕ → ℤ) (st : Store) (i : ℕ) {st' : Store}
    → Inv base st
    → acquire st i ≡ ok st'
    → Inv base st'
unfolding acquire
acquire-Inv base st i v h = elim (Option-cases (get_elem? st.grants i)) [
  | inl n ↦ absurd (ground arith)
  | inr (g, e) ↦ acquire_grant-Inv base st v i g e (ground arith)
]

release-Inv :
    (base : ℕ → ℤ) (st : Store) (i : ℕ) {st' : Store}
    → Inv base st
    → release st i ≡ ok st'
    → Inv base st'
unfolding release
release-Inv base st i v h = elim (Option-cases (get_elem? st.grants i)) [
  | inl n ↦ absurd (ground arith)
  | inr (g, e) ↦ release_grant-Inv base st v i g e (ground arith)
]

try_acquire-Inv :
    (base : ℕ → ℤ) (st : Store) (i : ℕ) {r : Store × Bool}
    → Inv base st
    → try_acquire st i ≡ ok r
    → Inv base r.0
unfolding try_acquire
try_acquire-Inv base st i {r} v h = elim (Option-cases (get_elem? st.grants i)) [
  | inl n ↦ absurd (ground arith)
  | inr (g, e) ↦ try_acquire_grant-Inv base st v i g e {r = r} (ground arith)
]

-- A new grant holds nothing.
append-Inv :
    (base : ℕ → ℤ) (st : Store) (sem : Option ℕ)
    → Inv base st
    → Inv base
        (record st { grants = st.grants ++ (record { sem = sem; f_have_grant = false } ∷ []) })
unfolding held weight orphan
append-Inv base st sem v = record {
  balanced = λ s. omega (
    arith,
    v.balanced s,
    total-append (weight s) st.grants (record { sem = sem; f_have_grant = false } ∷ []),
  );
  floor = v.floor;
  owned = omega (
    arith,
    v.owned,
    total-append orphan st.grants (record { sem = sem; f_have_grant = false } ∷ []),
  );
}

abbrev with_grant : Store → ℕ → Store
with_grant st s = record st {
  grants = st.grants ++ (record { sem = some s; f_have_grant = false } ∷ []);
}

construct-Inv :
    (base : ℕ → ℤ) (st : Store) (s : ℕ) (f_try : Bool) {st' : Store}
    → Inv base st
    → construct st s f_try ≡ ok st'
    → Inv base st'
unfolding construct
construct-Inv base st s true {st'} v h =
    elim (Result-cases (try_acquire (with_grant st s) (length st.grants))) [
      | inl (r, e) ↦
          let q : st' ≡ r.0 = ground arith in
          rw q (
            try_acquire-Inv base (with_grant st s) (length st.grants)
              (append-Inv base st (some s) v) e)
      | inr (x, e) ↦ absurd (ground arith)
    ]
construct-Inv base st s false v h =
    acquire-Inv base (with_grant st s) (length st.grants) (append-Inv base st (some s) v) h

-- The places of `s` that a call brings from outside the grants: by `post`, and by a copy of a grant
-- that is held. Those that it takes there: by `wait`, and by a `try_wait` that finds one.
abbrev pub gives : ℕ → Store → Call → ℕ
gives s st (posts_to t) = if t == s then 1 else 0
gives s st (copies i) = elim (get_elem? st.grants i) [ none ↦ 0 | some g ↦ weight s g ]
gives s st _ = 0

abbrev pub takes : ℕ → Store → Call → ℕ
takes s st (waits_on t) = if t == s then 1 else 0
takes s st (tries_on t) = if (t == s) && not (below_one (st.value t)) then 1 else 0
takes s st _ = 0

-- The accounts after a call, with the values that the semaphores might have been made with.
abbrev pub Next : (ℕ → ℤ) → Store → Call → Store → Type 0
Next base st c st' =
    (base' : ℕ → ℤ) × Inv base' st'
    × ((s : ℕ)
        → neg_part (base s) ≡ 0
        → (neg_part (base' s) ≡ 0)
          × (pos_part (base' s) + takes s st c ≡ pos_part (base s) + gives s st c))

same :
    (base : ℕ → ℤ) (st : Store) (c : Call) {st' : Store}
    → Inv base st'
    → ((s : ℕ) → (gives s st c ≡ 0) × (takes s st c ≡ 0))
    → Next base st c st'
same base st c v none_moved = (base, v, λ s h. (h, omega (arith, none_moved s)))

copy-Next :
    (base : ℕ → ℤ) (st : Store) (i : ℕ) (g : Grant)
    → Inv base st
    → get_elem? st.grants i ≡ some g
    → Next base st (copies i) (record st { grants = st.grants ++ (g ∷ []) })
unfolding weight names orphan
copy-Next base st i g v e = elim (Bool-cases g.f_have_grant) [
  | inr old ↦ (base, unheld-Inv base st v g old, λ s h. (h, ground (arith, e, old)))
  | inl new ↦ elim (Option-cases g.sem) [
    | inl n ↦ absurd (ground (arith, v.owned, total-get_elem? orphan st.grants i g e, new, n))
    | inr (t, q) ↦ (
      update base t (increment (base t)),
      copied-Inv base st v i g t e new q,
      λ s h. (
        ground (arith, h, increment_signs (base t)),
        ground (arith, h, e, new, q, increment_signs (base t), increment_parts (base t)),
      ),
    )
  ]
]

take-Next :
    (base : ℕ → ℤ) (st : Store) (c : Call) (t : ℕ)
    → Inv base st
    → below_one (st.value t) ≡ false
    → ((s : ℕ) → (gives s st c ≡ 0) × (takes s st c ≡ (if t == s then 1 else 0)))
    → Next base st c (record st { value = update st.value t (decrement (st.value t)) })
take-Next base st c t v b moved = (
  update base t (decrement (base t)),
  taken-Inv base st v t b,
  λ s h. (
    ground (arith, h, decrement_signs (base t), v.balanced t, decrement_parts (st.value t) b),
    ground
        (arith, h, moved s, decrement_signs (base t), v.balanced t, decrement_parts (st.value t) b),
  ),
)

pub step-Next :
    (base : ℕ → ℤ) (st : Store) (c : Call) {st' : Store}
    → Inv base st
    → step st c ≡ ok st'
    → Next base st c st'
unfolding step construct_empty wait try_wait post
step-Next base st makes_empty {st'} v h =
    let q : st'
        ≡ record st { grants = st.grants ++ (record { sem = none; f_have_grant = false } ∷ []) } =
      ground arith in
    same base st makes_empty (rw q (append-Inv base st none v)) (λ s. (refl, refl))
step-Next base st (makes s f_try) v h =
    same base st (makes s f_try) (construct-Inv base st s f_try v h) (λ s. (refl, refl))
step-Next base st (acquires i) v h =
    same base st (acquires i) (acquire-Inv base st i v h) (λ s. (refl, refl))
step-Next base st (tries i) {st'} v h = elim (Result-cases (try_acquire st i)) [
  | inl (r, e) ↦
      let q : st' ≡ r.0 = ground arith in
      same base st (tries i) (rw q (try_acquire-Inv base st i v e)) (λ s. (refl, refl))
  | inr (x, e) ↦ absurd (ground arith)
]
step-Next base st (releases i) v h =
    same base st (releases i) (release-Inv base st i v h) (λ s. (refl, refl))
step-Next base st (moves i j) v h =
    same base st (moves i j) (move_to-Inv base st i j v h) (λ s. (refl, refl))
step-Next base st (copies i) {st'} v h = elim (Option-cases (get_elem? st.grants i)) [
  | inl n ↦ absurd (ground arith)
  | inr (g, e) ↦
      let q : st' ≡ record st { grants = st.grants ++ (g ∷ []) } = ground arith in
      rw q (copy-Next base st i g v e)
]
step-Next base st (waits_on t) {st'} v h = elim (Bool-cases (below_one (st.value t))) [
  | inl b ↦ absurd (ground arith)
  | inr b ↦
      let q : st' ≡ record st { value = update st.value t (decrement (st.value t)) } =
        ground arith in
      rw q (take-Next base st (waits_on t) t v b (λ s. (refl, refl)))
]
step-Next base st (tries_on t) {st'} v h = elim (Bool-cases (below_one (st.value t))) [
  | inl b ↦
      let q : st' ≡ st = ground arith in
      rw q (same base st (tries_on t) v (λ s. (refl, ground (arith, b))))
  | inr b ↦
      let q : st' ≡ record st { value = update st.value t (decrement (st.value t)) } =
        ground arith in
      rw q (take-Next base st (tries_on t) t v b (λ s. (refl, ground (arith, b))))
]
step-Next base st (posts_to t) {st'} v h =
    let q : st' ≡ record st { value = update st.value t (increment (st.value t)) } = ground arith in
    rw q (
      update base t (increment (base t)),
      posted-Inv base st v t,
      λ s h. (
        ground (arith, h, increment_signs (base t)),
        ground (arith, h, increment_signs (base t), increment_parts (base t)),
      ),
    )
