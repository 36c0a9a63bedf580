-- ===== src/LockOrder/Delete.antt =====
-- `DeleteLock` of boostthreadcontrol/sync.cpp: the orders without the lock.
use learn_framework.Common.{
  ℕ, ◌≡◌, refl, true, false, ◌||◌, inl, inr, List, [], ◌∷◌, arith, ◌==◌, if◌then◌else◌, Bool-cases,
}
use learn_framework.LockOrder.{LockData, erase_order, erase_orders, erase_inverses, delete_lock}
use learn_framework.LockOrder.Round.{IsConsistent}
use learn_framework.LockOrder.Maps.{
  Pair, has, mem, has-erase, mem-remove, keys_from, members_from, mem-keys_from, mem-members_from,
}

erase_orders-has :
    (ks : List Pair) (d : LockData) (a b : ℕ)
    → has (a, b) (erase_orders ks d).lockorders
      ≡ (if mem (a, b) ks then false else has (a, b) d.lockorders)
unfolding erase_orders mem
erase_orders-has [] d a b = refl
erase_orders-has ((x, y) ∷ ks) d a b =
    ground
      (arith, erase_orders-has ks (erase_order x y d) a b, has-erase (x, y) (a, b) d.lockorders)

erase_orders-mem :
    (ks : List Pair) (d : LockData) (a b : ℕ)
    → mem (b, a) (erase_orders ks d).invlockorders
      ≡ (if mem (a, b) ks then false else mem (b, a) d.invlockorders)
unfolding erase_orders mem
erase_orders-mem [] d a b = refl
erase_orders-mem ((x, y) ∷ ks) d a b =
    ground
      (arith, erase_orders-mem ks (erase_order x y d) a b, mem-remove (y, x) (b, a) d.invlockorders)

erase_inverses-has :
    (ks : List Pair) (d : LockData) (a b : ℕ)
    → has (b, a) (erase_inverses ks d).lockorders
      ≡ (if mem (a, b) ks then false else has (b, a) d.lockorders)
unfolding erase_inverses mem
erase_inverses-has [] d a b = refl
erase_inverses-has ((x, y) ∷ ks) d a b =
    ground
      (arith, erase_inverses-has ks (erase_order y x d) a b, has-erase (y, x) (b, a) d.lockorders)

erase_inverses-mem :
    (ks : List Pair) (d : LockData) (a b : ℕ)
    → mem (a, b) (erase_inverses ks d).invlockorders
      ≡ (if mem (a, b) ks then false else mem (a, b) d.invlockorders)
unfolding erase_inverses mem
erase_inverses-mem [] d a b = refl
erase_inverses-mem ((x, y) ∷ ks) d a b =
    ground (
      arith,
      erase_inverses-mem ks (erase_order y x d) a b,
      mem-remove (x, y) (a, b) d.invlockorders,
    )

-- With consistent orders and the data alive, `DeleteLock` takes away just the pairs that name the
-- lock, from the orders and from the inverse orders.
pub delete_lock-exact :
    (d : LockData) (cs a b : ℕ)
    → IsConsistent d
    → d.available ≡ true
    → (has (a, b) (delete_lock d cs).lockorders
        ≡ (if a == cs || b == cs then false else has (a, b) d.lockorders))
      × (mem (b, a) (delete_lock d cs).invlockorders
          ≡ (if a == cs || b == cs then false else has (a, b) d.lockorders))
unfolding delete_lock
delete_lock-exact d cs a b v up =
    let d' = erase_orders (keys_from cs d.lockorders) d in
    let ks = members_from cs d'.invlockorders in
    (
      ground (
        arith,
        erase_orders-has (keys_from cs d.lockorders) d a b,
        erase_orders-mem (keys_from cs d.lockorders) d a b,
        erase_inverses-has ks d' b a,
        mem-keys_from cs (a, b) d.lockorders,
        mem-members_from cs (b, a) d'.invlockorders,
        v.mirrored a b,
      ),
      ground (
        arith,
        erase_orders-has (keys_from cs d.lockorders) d a b,
        erase_orders-mem (keys_from cs d.lockorders) d a b,
        erase_inverses-mem ks d' b a,
        mem-keys_from cs (a, b) d.lockorders,
        mem-members_from cs (b, a) d'.invlockorders,
        v.mirrored a b,
      ),
    )

erase_orders-available :
    (ks : List Pair) (d : LockData) → (erase_orders ks d).available ≡ d.available
unfolding erase_orders
erase_orders-available [] d = refl
erase_orders-available ((a, b) ∷ ks) d = erase_orders-available ks _

erase_inverses-available :
    (ks : List Pair) (d : LockData) → (erase_inverses ks d).available ≡ d.available
unfolding erase_inverses
erase_inverses-available [] d = refl
erase_inverses-available ((a, b) ∷ ks) d = erase_inverses-available ks _

pub delete_lock-available : (d : LockData) (cs : ℕ) → (delete_lock d cs).available ≡ d.available
unfolding delete_lock
delete_lock-available d cs =
    let d' = erase_orders (keys_from cs d.lockorders) d in
    ground (
      arith,
      erase_orders-available (keys_from cs d.lockorders) d,
      erase_inverses-available (members_from cs d'.invlockorders) d',
    )

pub delete_lock_down : (d : LockData) (cs : ℕ) → d.available ≡ false → delete_lock d cs ≡ d
unfolding delete_lock
delete_lock_down d cs down = rw down

-- `DeleteLock` keeps the orders consistent, also once the global data is gone.
pub delete_lock-IsConsistent :
    (d : LockData) (cs : ℕ) → IsConsistent d → IsConsistent (delete_lock d cs)
delete_lock-IsConsistent d cs v = elim (Bool-cases d.available) [
  | inl up ↦ record {
    mirrored = λ a b. ground (arith, delete_lock-exact d cs a b v up);
    antisym = λ a b h.
        ground
          (arith, v.antisym a b, delete_lock-exact d cs a b v up, delete_lock-exact d cs b a v up);
  }
  | inr down ↦ rw (delete_lock_down d cs down) v
]
