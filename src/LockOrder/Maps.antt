-- ===== src/LockOrder/Maps.antt =====
-- boostthreadcontrol/sync.cpp: the std::map `lockorders` and the std::set `invlockorders`, as lists
-- of their entries. A std::map has one entry for each key; `erase` removes every entry of its key.
use learn_framework.Common.{
  ℕ, ◌≡◌, refl, Bool, true, false, ◌&&◌, Option, none, some, List, [], ◌∷◌, arith, ◌==◌,
  if◌then◌else◌, is_some,
}

abbrev pub Pair : Type 0
Pair = ℕ × ℕ

abbrev pub pair_eq : Pair → Pair → Bool
pair_eq p q = p.0 == q.0 && p.1 == q.1

module _ {V : Type 0} where
  unfoldable pub lookup : Pair → List (Pair × V) → Option V
  lookup k [] = none
  lookup k ((j, v) ∷ m) = if pair_eq j k then some v else lookup k m

  -- `map.count(k)`
  unfoldable pub has : Pair → List (Pair × V) → Bool
  unfolding lookup
  has k m = is_some (lookup k m)

  -- `map[k] = v`
  unfoldable pub assign : Pair → V → List (Pair × V) → List (Pair × V)
  assign k v [] = (k, v) ∷ []
  assign k v ((j, w) ∷ m) = if pair_eq j k then (k, v) ∷ m else (j, w) ∷ assign k v m

  unfoldable pub erase : Pair → List (Pair × V) → List (Pair × V)
  erase k [] = []
  erase k ((j, v) ∷ m) = let rest = erase k m in if pair_eq j k then rest else (j, v) ∷ rest

  -- The keys from `lower_bound((c, 0))` on while their first part is `c`: those that start with `c`.
  unfoldable pub keys_from : ℕ → List (Pair × V) → List Pair
  keys_from c [] = []
  keys_from c ((j, v) ∷ m) = let rest = keys_from c m in if j.0 == c then j ∷ rest else rest

  pub lookup-assign :
      (k j : Pair) (v : V) (m : List (Pair × V))
      → lookup j (assign k v m) ≡ (if pair_eq k j then some v else lookup j m)
  unfolding lookup assign
  lookup-assign k j v [] = refl
  lookup-assign k j v ((i, w) ∷ m) = ground (arith, lookup-assign k j v m)

  pub has-assign :
      (k j : Pair) (v : V) (m : List (Pair × V))
      → has j (assign k v m) ≡ (if pair_eq k j then true else has j m)
  unfolding has
  has-assign k j v m = ground (arith, lookup-assign k j v m)

  lookup_same : (k j : Pair) (m : List (Pair × V)) → pair_eq k j ≡ true → lookup k m ≡ lookup j m
  unfolding lookup
  lookup_same k j [] e = refl
  lookup_same k j ((i, v) ∷ m) e = ground (arith, lookup_same k j m)

  pub has_same :
      (k j : Pair) (m : List (Pair × V)) → has k m ≡ true → pair_eq k j ≡ true → has j m ≡ true
  unfolding has
  has_same k j m h e = rw (← lookup_same k j m e) h

  pub lookup-erase :
      (k j : Pair) (m : List (Pair × V))
      → lookup j (erase k m) ≡ (if pair_eq k j then none else lookup j m)
  unfolding lookup erase
  lookup-erase k j [] = ground arith
  lookup-erase k j ((i, w) ∷ m) = ground (arith, lookup-erase k j m)

  pub has-erase :
      (k j : Pair) (m : List (Pair × V))
      → has j (erase k m) ≡ (if pair_eq k j then false else has j m)
  unfolding has
  has-erase k j m = ground (arith, lookup-erase k j m)

-- The set of inverse orders.
unfoldable pub mem : Pair → List Pair → Bool
mem k [] = false
mem k (j ∷ s) = if pair_eq j k then true else mem k s

-- `set.insert(k)`
unfoldable pub insert : Pair → List Pair → List Pair
unfolding mem
insert k s = if mem k s then s else k ∷ s

unfoldable pub remove : Pair → List Pair → List Pair
remove k [] = []
remove k (j ∷ s) = let rest = remove k s in if pair_eq j k then rest else j ∷ rest

unfoldable pub members_from : ℕ → List Pair → List Pair
members_from c [] = []
members_from c (j ∷ s) = let rest = members_from c s in if j.0 == c then j ∷ rest else rest

mem_same : (k j : Pair) (s : List Pair) → mem k s ≡ true → pair_eq k j ≡ true → mem j s ≡ true
unfolding mem
mem_same k j [] h e = cc
mem_same k j (i ∷ s) h e = ground (arith, mem_same k j s)

pub mem-insert :
    (k j : Pair) (s : List Pair) → mem j (insert k s) ≡ (if pair_eq k j then true else mem j s)
unfolding insert
mem-insert k j s = ground (arith, mem_same k j s)

pub mem-remove :
    (k j : Pair) (s : List Pair) → mem j (remove k s) ≡ (if pair_eq k j then false else mem j s)
unfolding mem remove
mem-remove k j [] = ground arith
mem-remove k j (i ∷ s) = ground (arith, mem-remove k j s)

pub mem-keys_from :
    {V : Type 0} (c : ℕ) (j : Pair) (m : List (Pair × V))
    → mem j (keys_from c m) ≡ (j.0 == c && has j m)
unfolding mem keys_from has
mem-keys_from c j [] = ground arith
mem-keys_from c j ((i, v) ∷ m) = ground (arith, mem-keys_from c j m)

pub mem-members_from :
    (c : ℕ) (j : Pair) (s : List Pair) → mem j (members_from c s) ≡ (j.0 == c && mem j s)
unfolding mem members_from
mem-members_from c j [] = ground arith
mem-members_from c j (i ∷ s) = ground (arith, mem-members_from c j s)
