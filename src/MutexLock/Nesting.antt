-- ===== src/MutexLock/Nesting.antt =====
-- boostthreadcontrol/sync.h and sync.cpp: a thread's lock stack against the order of its locks.
use learn_framework.Common.{
  ℕ, ◌≡◌, refl, ap, sym, ◌∙◌, Bool, true, false, ◌||◌, Option, List, [], ◌∷◌, ◌++◌, arith, ◌==◌,
  inl, inr, Bool-cases, ok,
}
use learn_framework.LockOrder.{LockData, LockStack, Location, or_empty, holds, enter_critical, Text}
use learn_framework.LockOrder.Maps.{has}
use learn_framework.LockOrder.Round.{IsConsistent}
use learn_framework.LockOrder.Order.{ahead, reversed, Extended, push_lock_ok, halts-push_lock}
use learn_framework.LockOrder.Stack.{enter_critical-stack}
use learn_framework.MutexLock.Scopes.{among}

-- The mutexes of a stack.
unfoldable pub keys : LockStack → List ℕ
keys [] = []
keys ((m, l) ∷ s) = m ∷ keys s

pub keys-append : (s t : LockStack) → keys (s ++ t) ≡ keys s ++ keys t
unfolding keys
keys-append [] t = refl
keys-append ((m, l) ∷ s) t = ap (◌∷◌ m) (keys-append s t)

-- A stack whose last mutex is known, taken apart there.
pub split_last :
    (s : LockStack) (xs : List ℕ) (m : ℕ)
    → keys s ≡ xs ++ (m ∷ [])
    → (t : LockStack) × (y : ℕ × Location) × (s ≡ t ++ (y ∷ [])) × (keys t ≡ xs)
unfolding keys
split_last [] [] m h = absurd (ground (arith, h))
split_last [] (x ∷ xs) m h = absurd (ground (arith, h))
split_last ((n, l) ∷ []) [] m h = ([], (n, l), refl, refl)
split_last ((n, l) ∷ (k, j) ∷ s) [] m h = absurd (ground (arith, h))
split_last ((n, l) ∷ s) (x ∷ xs) m h =
    let same : n ≡ x = ground (arith, h) in
    let tails : keys s ≡ xs ++ (m ∷ []) = ground (arith, h) in
    let (t, y, e, k) = split_last s xs m tails in
    ((n, l) ∷ t, y, ap (◌∷◌ (n, l)) e, ground (arith, same, k))

-- The locks of the stack were taken in an order that is recorded: what lies ahead of the first hold
-- of a lock is ordered before it.
abbrev pub Ordered : LockData → LockStack → Type 0
Ordered d s = (a c : ℕ) → holds c s ≡ true → ahead c a s ≡ true → has (a, c) d.lockorders ≡ true

holds-append :
    (c : ℕ) (s : LockStack) (x : ℕ) (l : Location)
    → holds c (s ++ ((x, l) ∷ [])) ≡ (holds c s || x == c)
unfolding holds
holds-append c [] x l = ground arith
holds-append c ((y, k) ∷ s) x l = ground (arith, holds-append c s x l)

ahead-append_held :
    (c a : ℕ) (s : LockStack) (x : ℕ) (l : Location)
    → holds c s ≡ true
    → ahead c a (s ++ ((x, l) ∷ [])) ≡ ahead c a s
unfolding holds ahead
ahead-append_held c a [] x l h = absurd (ground (arith, h))
ahead-append_held c a ((y, k) ∷ s) x l h = ground (arith, ahead-append_held c a s x l)

ahead-append_same :
    (c a : ℕ) (s : LockStack) (l : Location) → ahead c a (s ++ ((c, l) ∷ [])) ≡ ahead c a s
unfolding ahead
ahead-append_same c a [] l = ground arith
ahead-append_same c a ((y, k) ∷ s) l = ground (arith, ahead-append_same c a s l)

pub Ordered-push :
    (d d' : LockData) (s : LockStack) (c : ℕ) (l : Location)
    → Ordered d s
    → Extended d c s d'
    → Ordered d' (s ++ ((c, l) ∷ []))
Ordered-push d d' s c l o x a b h q = elim (Bool-cases (holds b s)) [
  | inl old ↦ ground (arith, x.exact a b, o a b old (sym (ahead-append_held b a s c l old) ∙ q))
  | inr new ↦
      let same : c ≡ b = ground (arith, holds-append b s c l) in
      ground (arith, x.exact a b, same, ahead-append_same c a s l)
]

pub Ordered-pop :
    (d : LockData) (s : LockStack) (y : ℕ × Location) → Ordered d (s ++ (y ∷ [])) → Ordered d s
Ordered-pop d s (x, l) o a b h q =
    o a b (ground (arith, holds-append b s x l)) (ahead-append_held b a s x l h ∙ q)

pub Ordered-mono :
    (d d' : LockData) (s : LockStack)
    → ((a b : ℕ) → has (a, b) d.lockorders ≡ true → has (a, b) d'.lockorders ≡ true)
    → Ordered d s
    → Ordered d' s
Ordered-mono d d' s m o a b h q = m a b (o a b h q)

holds-last : (s : LockStack) (xs : List ℕ) (b : ℕ) → keys s ≡ xs ++ (b ∷ []) → holds b s ≡ true
unfolding keys holds
holds-last [] [] b h = absurd (ground (arith, h))
holds-last [] (x ∷ xs) b h = absurd (ground (arith, h))
holds-last ((n, l) ∷ s) [] b h = ground (arith, h)
holds-last ((n, l) ∷ s) (x ∷ xs) b h =
    let tails : keys s ≡ xs ++ (b ∷ []) = ground (arith, h) in
    ground (arith, holds-last s xs b tails)

ahead-last :
    (s : LockStack) (xs : List ℕ) (a b : ℕ)
    → keys s ≡ xs ++ (b ∷ [])
    → among a xs ≡ true
    → among b xs ≡ false
    → ahead b a s ≡ true
unfolding keys among ahead
ahead-last s [] a b h ina notb = absurd (ground (arith, ina))
ahead-last [] (x ∷ xs) a b h ina notb = absurd (ground (arith, h))
ahead-last ((n, l) ∷ s) (x ∷ xs) a b h ina notb =
    let same : n ≡ x = ground (arith, h) in
    let tails : keys s ≡ xs ++ (b ∷ []) = ground (arith, h) in
    elim (Bool-cases (n == a)) [
      | inl here ↦ ground (arith, same, here, notb)
      | inr there ↦ ground (
        arith,
        same,
        notb,
        ahead-last s xs a b tails (ground (arith, ina, same, there)) (ground (arith, notb)),
      )
    ]

-- What a stack in order says of a lock `a` that is held where `b` is taken last.
pub Ordered-last :
    (d : LockData) (s : LockStack) (xs : List ℕ) (a b : ℕ)
    → Ordered d s
    → keys s ≡ xs ++ (b ∷ [])
    → among a xs ≡ true
    → among b xs ≡ false
    → has (a, b) d.lockorders ≡ true
Ordered-last d s xs a b o h ina notb = o a b (holds-last s xs b h) (ahead-last s xs a b h ina notb)

pub ahead-holds : (c a : ℕ) (s : LockStack) → ahead c a s ≡ true → holds a s ≡ true
unfolding ahead holds
ahead-holds c a [] h = absurd (ground (arith, h))
ahead-holds c a ((x, l) ∷ s) h = ground (arith, h, ahead-holds c a s)

-- What `EnterCritical` has done where it returned.
pub record Entered (d : LockData) (k : Option LockStack) (c : ℕ) (d' : LockData) (s : LockStack)
    : Type 0 where
  pub extended : Extended d c (or_empty k) d'
  pub location : Location
  pub pushed : s ≡ or_empty k ++ ((c, location) ∷ [])

pub enter_critical-Entered :
    (d d' : LockData) (k : Option LockStack) (s : LockStack) (name file : Text) (line c : ℕ)
    (f_try : Bool)
    → IsConsistent d
    → enter_critical d k name file line c f_try ≡ ok (d', s)
    → Entered d k c d' s
unfolding enter_critical
enter_critical-Entered d d' k s name file line c f_try v h =
    let l : Location = record {
      f_try = f_try;
      mutex_name = name;
      source_file = file;
      source_line = line;
    } in
    elim (Bool-cases (reversed d c (or_empty k))) [
      | inl q ↦ absurd (ground (arith, h, halts-push_lock d k c l v))
      | inr q ↦
          let (e, returns, x) = push_lock_ok d k c l v q in
          let same : d' ≡ e = ground (arith, h, returns) in
          record {
            extended = rw same x;
            location = l;
            pushed = enter_critical-stack d d' k s name file line c f_try h;
          }
    ]
