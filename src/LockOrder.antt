-- ===== src/LockOrder.antt =====
-- boostthreadcontrol/sync.cpp: the lock-order detector (`DEBUG_LOCKORDER`). A lock's address is a
-- number, a text the list of its bytes. `LockData` is the global `lockdata`; the argument of type
-- `Option LockStack` is the calling thread's `lockstack`, `none` while its pointer is null. Each
-- operation holds `dd_mutex` while it reads or writes the orders, so it is one step.
pub mod Maps
pub mod Stack
pub mod Round
pub mod Order
pub mod Delete
pub mod Threads
pub mod History
pub mod Alarm
pub mod Tests
use learn_framework.Common.{
  ℕ, Bool, true, false, Option, none, some, List, [], ◌∷◌, ◌++◌, ◌==◌, if◌then◌else◌, Result, ok,
  err, ◌>>=◌,
}
use Maps.{Pair, lookup, has, assign, erase, keys_from, mem, insert, remove, members_from}

abbrev pub Text : Type 0
Text = List ℕ

-- `struct CLockLocation`
pub record Location : Type 0 where
  pub f_try : Bool
  pub mutex_name : Text
  pub source_file : Text
  pub source_line : ℕ

-- `itostr` is not a part of the repository.
unfoldable pub to_string : (ℕ → Text) → Location → Text
to_string itostr l =
    l.mutex_name ++ (32 ∷ 32 ∷ (l.source_file ++ (58 ∷ (itostr l.source_line ++ mark))))
  where
    mark : Text
    mark = if l.f_try then 32 ∷ 40 ∷ 84 ∷ 82 ∷ 89 ∷ 41 ∷ [] else []

-- In the order of the vector: `push_back` adds at the end.
abbrev pub LockStack : Type 0
LockStack = List (ℕ × Location)

pub record LockData : Type 0 where
  pub available : Bool
  pub lockorders : List (Pair × LockStack)
  pub invlockorders : List Pair

-- How a call ends the program: the failed assertion of `potential_deadlock_detected` with its
-- arguments, the `abort` of `AssertLockHeldInternal`, or undefined behaviour on the lock stack.
pub data Halt : Type 0 where
  potential_deadlock : (mismatch : Pair) (s1 s2 : LockStack) → Halt
  lock_not_held : (cs : ℕ) (held : Text) → Halt
  null_stack empty_stack : Halt

abbrev pub or_empty : Option LockStack → LockStack
or_empty none = []
or_empty (some s) = s

abbrev pub init : LockData
init = record { available = true; lockorders = []; invlockorders = [] }

-- The body of the loop of `push_lock` behind its `break`, for a held lock `i`.
pub record_order : LockData → ℕ → LockStack → ℕ → Result Halt LockData
record_order d c s i =
    let d' = record d {
      lockorders = assign (i, c) s d.lockorders;
      invlockorders = insert (c, i) d.invlockorders;
    } in
    if has (i, c) d.lockorders
    then ok d
    else if has (c, i) d'.lockorders
    then err (potential_deadlock (i, c) (or_empty (lookup (c, i) d'.lockorders)) s)
    else ok d'

-- The loop of `push_lock` over the stack `s`, from its element `rest` on.
record_orders : LockData → ℕ → LockStack → LockStack → Result Halt LockData
unfolding record_order
record_orders d c s [] = ok d
record_orders d c s ((i, _) ∷ rest) =
    if i == c then ok d else record_order d c s i >>= λ d'. record_orders d' c s rest

unfoldable pub push_lock :
    LockData → Option LockStack → ℕ → Location → Result Halt (LockData × LockStack)
unfolding record_orders
push_lock d lockstack c location =
    let s = or_empty lockstack ++ ((c, location) ∷ []) in record_orders d c s s >>= λ d'. ok (d', s)

drop_last : ℕ × Location → LockStack → LockStack
drop_last x [] = []
drop_last x (y ∷ s) = x ∷ drop_last y s

-- `pop_back` of an empty vector and a null pointer are undefined behaviour.
unfoldable pub pop_lock : Option LockStack → Result Halt LockStack
unfolding drop_last
pop_lock none = err null_stack
pop_lock (some []) = err empty_stack
pop_lock (some (x ∷ s)) = ok (drop_last x s)

unfoldable pub enter_critical :
    LockData → Option LockStack → Text → Text → ℕ → ℕ → Bool → Result Halt (LockData × LockStack)
unfolding push_lock
enter_critical d lockstack name file line cs f_try =
    push_lock d lockstack cs
      (record { f_try = f_try; mutex_name = name; source_file = file; source_line = line })

unfoldable pub leave_critical : Option LockStack → Result Halt LockStack
unfolding pop_lock
leave_critical lockstack = pop_lock lockstack

lines_of : (ℕ → Text) → LockStack → Text
unfolding to_string
lines_of itostr [] = []
lines_of itostr ((_, l) ∷ s) = to_string itostr l ++ (10 ∷ lines_of itostr s)

unfoldable pub locks_held : (ℕ → Text) → Option LockStack → Result Halt Text
unfolding lines_of
locks_held itostr none = err null_stack
locks_held itostr (some s) = ok (lines_of itostr s)

unfoldable pub holds : ℕ → LockStack → Bool
holds cs [] = false
holds cs ((i, _) ∷ s) = if i == cs then true else holds cs s

-- `ok` where the function returns.
unfoldable pub assert_lock_held : (ℕ → Text) → Option LockStack → ℕ → Result Halt (Unit {0})
unfolding holds locks_held
assert_lock_held itostr none cs = err null_stack
assert_lock_held itostr (some s) cs =
    if holds cs s then ok tt else locks_held itostr (some s) >>= λ held. err (lock_not_held cs held)

abbrev erase_order : ℕ → ℕ → LockData → LockData
erase_order a b d = record d {
  invlockorders = remove (b, a) d.invlockorders;
  lockorders = erase (a, b) d.lockorders;
}

-- The first loop of `DeleteLock`, over the orders that start with the lock.
erase_orders : List Pair → LockData → LockData
erase_orders [] d = d
erase_orders ((a, b) ∷ ks) d = erase_orders ks (erase_order a b d)

-- The second loop, over the inverse orders that start with the lock.
erase_inverses : List Pair → LockData → LockData
erase_inverses [] d = d
erase_inverses ((a, b) ∷ ks) d = erase_inverses ks (erase_order b a d)

unfoldable pub delete_lock : LockData → ℕ → LockData
unfolding erase_orders erase_inverses
delete_lock d cs =
    let d' = erase_orders (keys_from cs d.lockorders) d in
    let d'' = erase_inverses (members_from cs d'.invlockorders) d' in if d.available then d'' else d
