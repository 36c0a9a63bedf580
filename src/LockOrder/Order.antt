-- ===== src/LockOrder/Order.antt =====
-- `push_lock` of boostthreadcontrol/sync.cpp: what it records, and when it stops the program.
use native.Mathlib.Decide.{ℕ_discrete}
use learn_framework.Common.{
  ℕ, ◌≡◌, ◌≢◌, refl, Bool, true, false, ◌||◌, ◌&&◌, inl, inr, Option, [], ◌∷◌, ◌++◌, arith, ◌==◌,
  if◌then◌else◌, ◌∙◌, sym, Bool-cases, ok,
}
use learn_framework.LockOrder.{LockData, LockStack, Location, or_empty, record_orders, push_lock}
use learn_framework.LockOrder.Round.{
  IsConsistent, halts, recorded, has-recorded, recorded-IsConsistent, record_order-halts,
  record_order-recorded,
}
use learn_framework.LockOrder.Maps.{has}

-- Some lock held ahead of the first `c` of the stack has been locked under `c` before.
unfoldable pub reversed : LockData → ℕ → LockStack → Bool
reversed d c [] = false
reversed d c ((i, _) ∷ s) = if i == c then false else (has (c, i) d.lockorders || reversed d c s)

-- The lock `a` is held ahead of the first `c` of the stack.
unfoldable pub ahead : ℕ → ℕ → LockStack → Bool
ahead c a [] = false
ahead c a ((i, _) ∷ s) = if i == c then false else (i == a || ahead c a s)

reversed-recorded :
    (d : LockData) (c : ℕ) (s : LockStack) (i : ℕ) (rest : LockStack)
    → i ≢ c
    → reversed (recorded d c s i) c rest ≡ reversed d c rest
unfolding reversed
reversed-recorded d c s i [] ne = refl
reversed-recorded d c s i ((j, l) ∷ rest) ne =
    ground (arith, reversed-recorded d c s i rest ne, has-recorded d c s i (c, j))

reversed-append :
    (d : LockData) (c : ℕ) (s : LockStack) (l : Location)
    → reversed d c (s ++ ((c, l) ∷ [])) ≡ reversed d c s
unfolding reversed
reversed-append d c [] l = ground arith
reversed-append d c ((j, k) ∷ s) l = ground (arith, reversed-append d c s l)

ahead-append :
    (c a : ℕ) (s : LockStack) (l : Location) → ahead c a (s ++ ((c, l) ∷ [])) ≡ ahead c a s
unfolding ahead
ahead-append c a [] l = ground arith
ahead-append c a ((j, k) ∷ s) l = ground (arith, ahead-append c a s l)

-- `d'` orders just what `d` orders, and `c` under the locks ahead of it.
pub record Extended (d : LockData) (c : ℕ) (s : LockStack) (d' : LockData) : Type 0 where
  pub consistent : IsConsistent d'
  pub exact :
      (a b : ℕ) → has (a, b) d'.lockorders ≡ (has (a, b) d.lockorders || (b == c && ahead c a s))
  pub available_kept : d'.available ≡ d.available

record_orders_stop :
    (d : LockData) (c : ℕ) (s : LockStack) (i : ℕ) (l : Location) (rest : LockStack)
    → i ≡ c
    → record_orders d c s ((i, l) ∷ rest) ≡ ok d
unfolding record_orders
record_orders_stop d c s i l rest e = ground arith

record_orders_fail :
    (d : LockData) (c : ℕ) (s : LockStack) (i : ℕ) (l : Location) (rest : LockStack)
    → IsConsistent d
    → i ≢ c
    → has (c, i) d.lockorders ≡ true
    → halts (record_orders d c s ((i, l) ∷ rest)) ≡ true
unfolding record_orders
record_orders_fail d c s i l rest v ne h = ground (arith, record_order-halts d c s i v ne h)

record_orders_next :
    (d : LockData) (c : ℕ) (s : LockStack) (i : ℕ) (l : Location) (rest : LockStack)
    → i ≢ c
    → has (c, i) d.lockorders ≡ false
    → record_orders d c s ((i, l) ∷ rest) ≡ record_orders (recorded d c s i) c s rest
unfolding record_orders
record_orders_next d c s i l rest ne h = ground (arith, record_order-recorded d c s i ne h)

-- The three ways in which a round of the loop can go.
data Round (d : LockData) (c i : ℕ) : Type 0 where
  stop : i ≡ c → Round d c i
  fail : i ≢ c → has (c, i) d.lockorders ≡ true → Round d c i
  next : i ≢ c → has (c, i) d.lockorders ≡ false → Round d c i

round : (d : LockData) (c i : ℕ) → Round d c i
round d c i = elim (ℕ_discrete i c) [
  | yes e ↦ stop e
  | no ne ↦ elim (Bool-cases (has (c, i) d.lockorders)) [ inl h ↦ fail ne h | inr h ↦ next ne h ]
]

reversed_next :
    (d : LockData) (c : ℕ) (s : LockStack) (i : ℕ) (l : Location) (rest : LockStack) (b : Bool)
    → i ≢ c
    → has (c, i) d.lockorders ≡ false
    → reversed d c ((i, l) ∷ rest) ≡ b
    → reversed (recorded d c s i) c rest ≡ b
unfolding reversed
reversed_next d c s i l rest b ne h r = ground (arith, reversed-recorded d c s i rest ne)

record_orders-halts :
    (d : LockData) (c : ℕ) (s rest : LockStack)
    → IsConsistent d
    → reversed d c rest ≡ true
    → halts (record_orders d c s rest) ≡ true
unfolding reversed
record_orders-halts d c s [] v h = cc
record_orders-halts d c s ((i, l) ∷ rest) v h = elim (round d c i) [
  | stop e ↦ ground arith
  | fail ne q ↦ record_orders_fail d c s i l rest v ne q
  | next ne q ↦ rw (record_orders_next d c s i l rest ne q) (
      record_orders-halts (recorded d c s i) c s rest (recorded-IsConsistent d c s i v ne q)
        (reversed_next d c s i l rest true ne q h))
]

recorded-available :
    (d : LockData) (c : ℕ) (s : LockStack) (i : ℕ) → (recorded d c s i).available ≡ d.available
recorded-available d c s i = ground arith

Extended-cons :
    (d : LockData) (c : ℕ) (s : LockStack) (i : ℕ) (l : Location) (rest : LockStack)
    → i ≢ c
    → (d' : LockData) → Extended (recorded d c s i) c rest d'
    → Extended d c ((i, l) ∷ rest) d'
unfolding ahead
Extended-cons d c s i l rest ne d' x = record {
  consistent = x.consistent;
  exact = λ a b. ground (arith, x.exact a b, has-recorded d c s i (a, b));
  available_kept = x.available_kept ∙ recorded-available d c s i;
}

record_orders_ok :
    (d : LockData) (c : ℕ) (s rest : LockStack)
    → IsConsistent d
    → reversed d c rest ≡ false
    → (d' : LockData) × (record_orders d c s rest ≡ ok d') × Extended d c rest d'
unfolding record_orders reversed ahead
record_orders_ok d c s [] v h =
    (d, refl, record { consistent = v; exact = λ a b. ground arith; available_kept = refl })
record_orders_ok d c s ((i, l) ∷ rest) v h = elim (round d c i) [
  | stop e ↦ (
    d,
    record_orders_stop d c s i l rest e,
    record { consistent = v; exact = λ a b. ground arith; available_kept = refl },
  )
  | fail ne q ↦ absurd (ground arith)
  | next ne q ↦
      let (d', e, x) =
        record_orders_ok (recorded d c s i) c s rest (recorded-IsConsistent d c s i v ne q)
          (reversed_next d c s i l rest false ne q h) in
      (d', record_orders_next d c s i l rest ne q ∙ e, Extended-cons d c s i l rest ne d' x)
]

pub push_lock-halts :
    (d : LockData) (lockstack : Option LockStack) (c : ℕ) (l : Location)
    → IsConsistent d
    → reversed d c (or_empty lockstack) ≡ true
    → halts (push_lock d lockstack c l) ≡ true
unfolding push_lock
push_lock-halts d lockstack c l v h =
    let s = or_empty lockstack ++ ((c, l) ∷ []) in
    ground (arith, record_orders-halts d c s s v (reversed-append d c (or_empty lockstack) l ∙ h))

-- If no lock held ahead of `c` has been locked under `c` before, `push_lock` adds `c` to the stack,
-- and just the pairs of the locks ahead of `c` with `c` to the orders.
pub push_lock_ok :
    (d : LockData) (lockstack : Option LockStack) (c : ℕ) (l : Location)
    → IsConsistent d
    → reversed d c (or_empty lockstack) ≡ false
    → (d' : LockData) × (push_lock d lockstack c l ≡ ok (d', or_empty lockstack ++ ((c, l) ∷ [])))
      × Extended d c (or_empty lockstack) d'
unfolding push_lock
push_lock_ok d lockstack c l v h =
    let s = or_empty lockstack ++ ((c, l) ∷ []) in
    let (d', e, x) = record_orders_ok d c s s v (reversed-append d c (or_empty lockstack) l ∙ h) in
    (
      d',
      ground arith,
      record {
        consistent = x.consistent;
        exact = λ a b. ground (arith, x.exact a b, ahead-append c a (or_empty lockstack) l);
        available_kept = x.available_kept;
      },
    )

-- With consistent orders, `push_lock` stops the program exactly if some lock held ahead of `c` has
-- been locked under `c` before.
pub halts-push_lock :
    (d : LockData) (lockstack : Option LockStack) (c : ℕ) (l : Location)
    → IsConsistent d
    → halts (push_lock d lockstack c l) ≡ reversed d c (or_empty lockstack)
halts-push_lock d lockstack c l v = elim (Bool-cases (reversed d c (or_empty lockstack))) [
  | inl h ↦ push_lock-halts d lockstack c l v h ∙ sym h
  | inr h ↦ let (d', e, x) = push_lock_ok d lockstack c l v h in rw (e, h)
]

pub reversed_of_ahead :
    (d : LockData) (c i : ℕ) (s : LockStack)
    → has (c, i) d.lockorders ≡ true
    → ahead c i s ≡ true
    → reversed d c s ≡ true
unfolding reversed ahead
reversed_of_ahead d c i [] h q = q
reversed_of_ahead d c i ((j, l) ∷ s) h q = ground (arith, reversed_of_ahead d c i s h)

pub ahead_of_reversed :
    (d : LockData) (c : ℕ) (s : LockStack)
    → reversed d c s ≡ true
    → (i : ℕ) × (ahead c i s ≡ true) × (has (c, i) d.lockorders ≡ true)
unfolding reversed ahead
ahead_of_reversed d c [] h = cc
ahead_of_reversed d c ((j, l) ∷ s) h = elim (Bool-cases (has (c, j) d.lockorders)) [
  | inl q ↦ (j, ground arith, q)
  | inr q ↦ let (i, p, r) = ahead_of_reversed d c s (ground arith) in (i, ground arith, r)
]
