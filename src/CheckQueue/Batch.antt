-- ===== src/CheckQueue/Batch.antt =====
-- boostthreadcontrol/checkqueue.h: how many checks a thread takes from the queue.
use learn_framework.Common.{
  ℕ, zero, suc, ◌≤◌, ◌≡◌, refl, Bool, false, some, List, [], ◌∷◌, arith, length, take, drop, max,
}
use learn_framework.CheckQueue.{Queue, working, pop_batch, batch_size, take_batch, look, is_empty}

module _ {A : Type 0} where
  pop_batch-take :
      (n : ℕ) (queue : List A)
      → n ≤ length queue
      → pop_batch n queue ≡ some (take n queue, drop n queue)
  unfolding pop_batch
  pop_batch-take zero queue h = refl
  pop_batch-take (suc n) [] h = absurd (omega arith)
  pop_batch-take (suc n) (a ∷ queue) h = ground (arith, pop_batch-take n queue)

  not_empty : (queue : List A) → is_empty queue ≡ false → 1 ≤ length queue
  not_empty [] h = cc
  not_empty (a ∷ queue) h = omega arith

  batch_size-bounds :
      (q : Queue A)
      → (1 ≤ batch_size q)
        × (batch_size q ≤ max 1 q.n_batch_size)
        × (batch_size q ≤ max 1 (length q.queue))
  unfolding batch_size
  batch_size-bounds q = (omega arith, omega arith, omega arith)

  -- From a queue that is not empty a thread takes at least one check and at most `nBatchSize` of
  -- them (one, if that is 0), never more than there are, those at the back of the vector, and works
  -- on them with the result so far.
  pub look-take :
      (q : Queue A) (f_master : Bool)
      → is_empty q.queue ≡ false
      → (n : ℕ) × (1 ≤ n)
        × (n ≤ max 1 q.n_batch_size)
        × (n ≤ length q.queue)
        × (look q f_master
            ≡ (record q { queue = drop n q.queue }, working f_master n (take n q.queue) q.f_all_ok))
  unfolding look take_batch
  look-take q f_master h =
      let (lo, hi, fits) = batch_size-bounds q in
      let pos : 1 ≤ length q.queue = not_empty q.queue h in
      let fits' : batch_size q ≤ length q.queue = omega arith in
      (batch_size q, lo, hi, fits', ground (arith, pop_batch-take (batch_size q) q.queue fits'))
