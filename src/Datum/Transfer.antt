-- ===== src/Datum/Transfer.antt =====
-- learneth/src/main.cpp: `RandomizedTransfer`. Crypto++'s `ByteQueue` and its random numbers are the
-- argument `buffers`; the target is the list of what it is given, call by call.
use learn_framework.Common.{
  ℕ, zero, suc, ◌+◌, ◌*◌, ◌/◌, ◌≤◌, ◌≡◌, Bool, List, [], ◌∷◌, ◌++◌, ltb, leb, if◌then◌else◌, length,
  take, drop, min, Result, ok, err, ◌>>=◌,
}
use learn_framework.Datum.{Stop, outside_buffer, unfinished}

-- A queue of bytes, read at its front, and a random number between two bounds, by the number of
-- calls made before.
pub record Buffers : Type 1 where
  pub Queue : Type 0
  pub contents : Queue → List ℕ
  pub fresh : Queue
  pub put : Queue → List ℕ → Queue
  pub get : Queue → ℕ → List ℕ × Queue
  pub draw : ℕ → ℕ → ℕ → ℕ
  pub contents-fresh : contents fresh ≡ []
  pub contents-put : (q : Queue) (bytes : List ℕ) → contents (put q bytes) ≡ contents q ++ bytes
  pub get-contents :
      (q : Queue) (n : ℕ)
      → ((get q n).0 ≡ take n (contents q)) × (contents (get q n).1 ≡ drop n (contents q))
  pub draw_bounds : (k lo hi : ℕ) → lo ≤ hi → (lo ≤ draw k lo hi) × (draw k lo hi ≤ hi)

module _ (buffers : Buffers) where
  open buffers use {Queue, contents, put, get, draw}

  -- The source, what the target was given, and the number of random numbers drawn.
  pub record Moving : Type 0 where
    pub source : Queue
    pub target : List (List ℕ)
    pub draws : ℕ

  -- The body of the loop: at most `len` bytes at `start` in a buffer of 4096 + 64.
  unfoldable pub move_some : Moving → Result Stop Moving
  move_some m =
      let available = length (contents m.source) in
      let start = draw m.draws 0 63 in
      let len = draw (m.draws + 1) 1 (min 4096 (3 * available / 2)) in
      let r = get m.source len in
      if leb (start + len) (4096 + 64)
      then ok (record { source = r.1; target = m.target ++ (r.0 ∷ []); draws = m.draws + 2 })
      else err outside_buffer

  -- `while (source.MaxRetrievable() > (finish ? 0 : 4096))`
  unfoldable pub transfer : ℕ → Bool → Moving → Result Stop Moving
  unfolding move_some
  transfer zero finish m = err unfinished
  transfer (suc fuel) finish m =
      let rest = move_some m >>= λ m'. transfer fuel finish m' in
      if ltb (if finish then 0 else 4096) (length (contents m.source)) then rest else ok m

  -- Each round takes a byte at least, so there are no more rounds than bytes, and one for the test.
  unfoldable pub randomized_transfer : Bool → Moving → Result Stop Moving
  unfolding transfer
  randomized_transfer finish m = transfer (suc (length (contents m.source))) finish m
