-- ===== src/LockOrder/Round.antt =====
-- One round of the loop of `push_lock` of boostthreadcontrol/sync.cpp.
use learn_framework.Common.{
  ℕ, ◌≡◌, ◌≢◌, refl, Bool, true, false, inl, inr, arith, if◌then◌else◌, Bool-cases, Result, ok, err,
}
use learn_framework.LockOrder.{LockData, LockStack, Halt, init, record_order}
use learn_framework.LockOrder.Maps.{
  Pair, pair_eq, has, mem, assign, insert, has-assign, mem-insert, lookup, has_same,
}

-- The inverse orders mirror the orders, and no two locks are ordered both ways.
pub record IsConsistent (d : LockData) : Type 0 where
  pub mirrored : (a b : ℕ) → mem (b, a) d.invlockorders ≡ has (a, b) d.lockorders
  pub antisym : (a b : ℕ) → has (a, b) d.lockorders ≡ true → has (b, a) d.lockorders ≡ false

pub init-IsConsistent : IsConsistent init
unfolding has lookup mem
init-IsConsistent = record { mirrored = λ a b. refl; antisym = λ a b h. refl }

abbrev pub halts {ℓ} : {A : Type ℓ} → Result Halt A → Bool
halts (ok a) = false
halts (err h) = true

-- The orders behind one round that goes on.
abbrev pub recorded : LockData → ℕ → LockStack → ℕ → LockData
recorded d c s i = if has (i, c) d.lockorders then d else record d {
  lockorders = assign (i, c) s d.lockorders;
  invlockorders = insert (c, i) d.invlockorders;
}

pub has-recorded :
    (d : LockData) (c : ℕ) (s : LockStack) (i : ℕ) (p : Pair)
    → has p (recorded d c s i).lockorders ≡ (if pair_eq (i, c) p then true else has p d.lockorders)
has-recorded d c s i p = elim (Bool-cases (has (i, c) d.lockorders)) [
  | inl old ↦ rw old (elim (Bool-cases (pair_eq (i, c) p)) [
    | inl e ↦ rw e (has_same (i, c) p d.lockorders old e)
    | inr e ↦ rw e
  ])
  | inr new ↦ rw new (has-assign (i, c) p s d.lockorders)
]

pub recorded-IsConsistent :
    (d : LockData) (c : ℕ) (s : LockStack) (i : ℕ)
    → IsConsistent d
    → i ≢ c
    → has (c, i) d.lockorders ≡ false
    → IsConsistent (recorded d c s i)
recorded-IsConsistent d c s i v ne h = record {
  mirrored = λ a b. mirror a b;
  antisym = λ a b q. ground (
    arith,
    has-recorded d c s i (a, b),
    has-recorded d c s i (b, a),
    v.antisym a b,
    v.antisym b a,
  );
}
  where
    mirror :
        (a b : ℕ)
        → mem (b, a) (recorded d c s i).invlockorders ≡ has (a, b) (recorded d c s i).lockorders
    mirror a b = elim (Bool-cases (has (i, c) d.lockorders)) [
      | inl old ↦ rw old (v.mirrored a b)
      | inr new ↦ rw new (
          ground (
            arith,
            has-assign (i, c) (a, b) s d.lockorders,
            mem-insert (c, i) (b, a) d.invlockorders,
            v.mirrored a b,
          ))
    ]

pub record_order-halts :
    (d : LockData) (c : ℕ) (s : LockStack) (i : ℕ)
    → IsConsistent d
    → i ≢ c
    → has (c, i) d.lockorders ≡ true
    → halts (record_order d c s i) ≡ true
unfolding record_order
record_order-halts d c s i v ne h =
    ground (arith, v.antisym c i, has-assign (i, c) (c, i) s d.lockorders)

pub record_order-recorded :
    (d : LockData) (c : ℕ) (s : LockStack) (i : ℕ)
    → i ≢ c
    → has (c, i) d.lockorders ≡ false
    → record_order d c s i ≡ ok (recorded d c s i)
unfolding record_order
record_order-recorded d c s i ne h = ground (arith, has-assign (i, c) (c, i) s d.lockorders)
