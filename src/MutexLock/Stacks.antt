-- ===== src/MutexLock/Stacks.antt =====
-- boostthreadcontrol/sync.h: what an event does to its own thread's lock stack.
use learn_framework.Common.{
  ℕ, ◌≡◌, refl, ap, sym, subst, ◌∙◌, Bool, true, false, Option, none, some, List, [], ◌∷◌, ◌++◌,
  arith, ◌==◌, inl, inr, Bool-cases, ok, Result-cases,
}
use mathlib.Core.List.{append-nil}
use learn_framework.LockOrder.{
  Location, LockData, LockStack, or_empty, enter_critical, leave_critical,
}
use learn_framework.LockOrder.Maps.{has}
use learn_framework.LockOrder.Round.{IsConsistent}
use learn_framework.LockOrder.Stack.{leave_critical-append}
use learn_framework.MutexLock.{Site, try_enter, destroy}
use learn_framework.MutexLock.Scopes.{
  Guard, owning, idle, Thread, World, put, begin, try, end, owned,
}
use learn_framework.MutexLock.Nesting.{
  keys, keys-append, split_last, Ordered, Ordered-push, Ordered-pop, Ordered-mono, Entered,
  enter_critical-Entered,
}

abbrev pub waited : Option ℕ → List ℕ
waited none = []
waited (some m) = m ∷ []

-- The stack has the mutexes that the thread's guards own, in the order of the scopes, and behind them
-- the one in whose `lock` the thread is.
abbrev pub IsExact : Thread → Type 0
IsExact th = keys (or_empty th.lockstack) ≡ owned th.guards ++ waited th.waits_for

pub record ThreadInv (d : LockData) (th : Thread) : Type 0 where
  pub exact : IsExact th
  pub ordered : Ordered d (or_empty th.lockstack)

pub record WorldInv (w : World) : Type 0 where
  pub consistent : IsConsistent w.lockdata
  pub each : (t : ℕ) → ThreadInv w.lockdata (w.threads t)

-- The orders only grow.
abbrev pub Grows : LockData → LockData → Type 0
Grows d d' = (a b : ℕ) → has (a, b) d.lockorders ≡ true → has (a, b) d'.lockorders ≡ true

pub ThreadInv-mono : (d d' : LockData) (th : Thread) → Grows d d' → ThreadInv d th → ThreadInv d' th
ThreadInv-mono d d' th g v = record {
  exact = v.exact;
  ordered = Ordered-mono d d' (or_empty th.lockstack) g v.ordered;
}

pub put-Inv :
    (w : World) (t : ℕ) (d : LockData) (th : Thread)
    → WorldInv w
    → IsConsistent d
    → Grows w.lockdata d
    → ThreadInv d th
    → WorldInv (put w t d th)
put-Inv w t d th v c g v' = record {
  consistent = c;
  each = λ u. elim (Bool-cases (t == u)) [
    | inl here ↦ rw here v'
    | inr there ↦ rw there (ThreadInv-mono w.lockdata d (w.threads u) g (v.each u))
  ];
}

-- What a thread's own step leaves.
abbrev pub Leaves : LockData → LockData × Thread → Type 0
Leaves d r = IsConsistent r.0 × Grows d r.0 × ThreadInv r.0 r.1

Extended-Grows :
    (d d' : LockData) (k : Option LockStack) (c : ℕ) (s : LockStack)
    → Entered d k c d' s
    → Grows d d'
Extended-Grows d d' k c s x a b h = ground (arith, x.extended.exact a b, h)

Entered-ThreadInv :
    (d d' : LockData) (k : Option LockStack) (c : ℕ) (s : LockStack)
    → Ordered d (or_empty k)
    → Entered d k c d' s
    → Ordered d' s × (keys s ≡ keys (or_empty k) ++ (c ∷ []))
unfolding keys
Entered-ThreadInv d d' k c s o x = (
  rw (x.pushed) (Ordered-push d d' (or_empty k) c x.location o x.extended),
  ap keys x.pushed ∙ keys-append (or_empty k) ((c, x.location) ∷ []),
)

pub all_owned :
    (th : Thread)
    → th.waits_for ≡ none
    → IsExact th
    → keys (or_empty th.lockstack) ≡ owned th.guards
all_owned th runs h = h ∙ rw runs (append-nil (owned th.guards))

pub begin-Leaves :
    (d : LockData) (th : Thread) (site : Site) (m : ℕ) (r : LockData × Thread)
    → IsConsistent d
    → ThreadInv d th
    → th.waits_for ≡ none
    → begin d th site m ≡ ok r
    → Leaves d r
unfolding begin
begin-Leaves d th site m r c v runs h =
    elim (Result-cases (enter_critical d th.lockstack site.name site.file site.line m false)) [
      | inl ((d', s), e) ↦
          let x =
            enter_critical-Entered d d' th.lockstack s site.name site.file site.line m false c e in
          let (o, k) = Entered-ThreadInv d d' th.lockstack m s v.ordered x in
          let same : r ≡ (d', record th { lockstack = some s; waits_for = some m }) =
            ground (arith, h, e) in
          rw same (
            x.extended.consistent,
            Extended-Grows d d' th.lockstack m s x,
            record { exact = k ∙ ap (λ l. l ++ (m ∷ [])) (all_owned th runs v.exact); ordered = o },
          )
      | inr (x, e) ↦ absurd (ground (arith, h, e))
    ]

pub try-Leaves :
    (d : LockData) (th : Thread) (site : Site) (m : ℕ) (got : Bool) (r : LockData × Thread)
    → IsConsistent d
    → ThreadInv d th
    → th.waits_for ≡ none
    → try d th site m got ≡ ok r
    → Leaves d r
unfolding try try_enter owned
try-Leaves d th site m got r c v runs h =
    elim (Result-cases (enter_critical d th.lockstack site.name site.file site.line m true)) [
      | inl ((d', s), e) ↦
          let x =
            enter_critical-Entered d d' th.lockstack s site.name site.file site.line m true c e in
          let (o, k) = Entered-ThreadInv d d' th.lockstack m s v.ordered x in
          let grows = Extended-Grows d d' th.lockstack m s x in
          elim (Bool-cases got) [
            | inl taken ↦
                let same : r
                    ≡ (d', record th { lockstack = some s; guards = owning m ∷ th.guards }) =
                  ground (arith, h, e, taken) in
                rw same (
                  x.extended.consistent,
                  grows,
                  record {
                    exact = rw runs (
                        k
                        ∙ ap (λ l. l ++ (m ∷ [])) (all_owned th runs v.exact)
                        ∙ sym (append-nil (owned th.guards ++ (m ∷ []))));
                    ordered = o;
                  },
                )
            | inr busy ↦
                let same : r ≡ (
                  d',
                  record th { lockstack = some (or_empty th.lockstack); guards = idle ∷ th.guards },
                ) =
                  ground (
                    arith,
                    h,
                    e,
                    busy,
                    x.pushed,
                    leave_critical-append (or_empty th.lockstack) (m, x.location),
                  ) in
                rw same (
                  x.extended.consistent,
                  grows,
                  record {
                    exact = v.exact;
                    ordered = Ordered-mono d d' (or_empty th.lockstack) grows v.ordered;
                  },
                )
          ]
      | inr (x, e) ↦ absurd (ground (arith, h, e))
    ]

leaves_last :
    (k : Option LockStack) (t : LockStack) (y : ℕ × Location)
    → or_empty k ≡ t ++ (y ∷ [])
    → leave_critical k ≡ ok t
leaves_last none [] y h = absurd (ground (arith, h))
leaves_last none (z ∷ t) y h = absurd (ground (arith, h))
leaves_last (some s) t y h = rw h (leave_critical-append t y)

-- The destructor of the innermost guard returns.
pub end-ThreadInv :
    (d : LockData) (th : Thread) (g : Guard) (gs : List Guard)
    → ThreadInv d th
    → th.waits_for ≡ none
    → th.guards ≡ g ∷ gs
    → (th' : Thread) × (end th g gs ≡ ok th') × ThreadInv d th'
unfolding end destroy owned
end-ThreadInv d th idle gs v runs e =
    (record th { guards = gs }, refl, record { exact = v.exact ∙ rw e refl; ordered = v.ordered })
end-ThreadInv d th (owning m) gs v runs e =
    let last : keys (or_empty th.lockstack) ≡ owned gs ++ (m ∷ []) =
      all_owned th runs v.exact ∙ ap owned e in
    let (t, y, split, rest) = split_last (or_empty th.lockstack) (owned gs) m last in
    (
      record th { lockstack = some t; guards = gs },
      ground (arith, leaves_last th.lockstack t y split),
      record {
        exact = rw runs (rest ∙ sym (append-nil (owned gs)));
        ordered = Ordered-pop d t y (subst (Ordered d) split v.ordered);
      },
    )
