-- ===== src/Semaphore/Reach.antt =====
-- boostthreadcontrol/sync.h: what holds of the semaphores and grants after any calls.
use learn_framework.Common.{
  ℕ, ◌+◌, ◌≤◌, ◌≡◌, refl, false, some, List, [], ◌∷◌, arith, Result-cases, inl, inr, ok, err,
  get_elem?,
}
use learn_framework.Common.Int.{ℤ, pos, pos_part, neg_part}
use learn_framework.Semaphore.{Store, Grant, release}
use learn_framework.Semaphore.Balance.{held, Inv, release_grant_total}
use learn_framework.Semaphore.Move.{release_grant_drops}
use learn_framework.Semaphore.Calls.{Call, step, run}
use learn_framework.Semaphore.Steps.{gives, takes, step-Next}

-- Semaphores made with the values `base`, before any grant.
abbrev pub start : (ℕ → ℤ) → Store
start base = record { value = base; grants = [] }

start-Inv : (base : ℕ → ℤ) → Inv base (start base)
unfolding held
start-Inv base = record { balanced = λ s. omega arith; floor = λ s. omega arith; owned = refl }

-- Over the calls that return.
pub tally : (Store → Call → ℕ) → Store → List Call → ℕ
tally w st [] = 0
tally w st (c ∷ cs) = elim (step st c) [ ok t ↦ w st c + tally w t cs | err e ↦ 0 ]

-- The accounts after any calls that return, in any order.
abbrev Books : (ℕ → ℤ) → Store → List Call → Store → Type 0
Books base st cs st' =
    (base' : ℕ → ℤ) × Inv base' st'
    × ((s : ℕ)
        → neg_part (base s) ≡ 0
        → (neg_part (base' s) ≡ 0)
          × (pos_part (base' s) + tally (takes s) st cs
              ≡ pos_part (base s) + tally (gives s) st cs))

run-Books :
    (base : ℕ → ℤ) (st : Store) (cs : List Call) {st' : Store}
    → Inv base st
    → run st cs ≡ ok st'
    → Books base st cs st'
unfolding run tally
run-Books base st [] {st'} v h = let q : st' ≡ st = ground arith in rw q (base, v, λ s n. (n, refl))
run-Books base st (c ∷ cs) {st'} v h = elim (Result-cases (step st c)) [
  | inl (t, e) ↦
      let (base1, v1, moved1) = step-Next base st c v e in
      let (base2, v2, moved2) = run-Books base1 t cs {st' = st'} v1 (ground arith) in
      (
        base2,
        v2,
        λ s n.
            let (n1, moves1) = moved1 s n in
            let (n2, moves2) = moved2 s n1 in (n2, ground (arith, e, moves1, moves2)),
      )
  | inr (x, e) ↦ absurd (ground arith)
]

-- A semaphore is made with `n`, and the methods of grants and semaphores are called in any order and
-- return: its value is never negative, and it and the grants that it has out make up `n` and what came from
-- outside the grants (a direct `post`, a copy of a grant that is held) less what was taken there (a
-- direct `wait`, a direct `try_wait` that found a place). So without such calls it never has more
-- than `n` grants out.
pub grants_bounded :
    (base : ℕ → ℤ) (cs : List Call) (s n : ℕ) {st : Store}
    → base s ≡ pos n
    → run (start base) cs ≡ ok st
    → (st.value s ≡ pos (pos_part (st.value s)))
      × (pos_part (st.value s) + held s st + tally (takes s) (start base) cs
          ≡ n + tally (gives s) (start base) cs)
      × (tally (gives s) (start base) cs ≡ 0 → held s st ≤ n)
grants_bounded base cs s n {st} e h =
    let (base', v, moved) = run-Books base (start base) cs (start-Inv base) h in
    let (sign, sum) = moved s (rw e refl) in
    let sums : pos_part (st.value s) + held s st + tally (takes s) (start base) cs
        ≡ n + tally (gives s) (start base) cs =
      ground (arith, e, sign, sum, v.balanced s, v.floor s) in
    (ground (arith, sign, v.floor s), sums, λ none_given. omega (arith, sums, none_given))

-- After any calls the destructor of a grant, which is `Release`, never follows a null pointer and
-- never waits, and the grant is then not held.
pub release_total :
    (base : ℕ → ℤ) (cs : List Call) (i : ℕ) (g : Grant) {st : Store}
    → run (start base) cs ≡ ok st
    → get_elem? st.grants i ≡ some g
    → (st' : Store) × (release st i ≡ ok st')
      × (get_elem? st'.grants i ≡ some (record g { f_have_grant = false }))
unfolding release
release_total base cs i g {st} h e =
    let (base', v, moved) = run-Books base (start base) cs (start-Inv base) h in
    let (st', r) = release_grant_total base' st i g v e in
    (st', ground arith, release_grant_drops st st' i g e r)
