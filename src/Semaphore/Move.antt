-- ===== src/Semaphore/Move.antt =====
-- boostthreadcontrol/sync.h: `CSemaphoreGrant::MoveTo`, also of a grant to itself.
use learn_framework.Common.{
  ℕ, ◌≡◌, ◌≢◌, refl, sym, ◌∙◌, false, some, arith, Option-cases, Bool-cases, inl, inr, ok,
  get_elem?, set, total, total-set, get_elem?-set, get_elem?-set_copy, get_elem?-set_ne,
}
use learn_framework.Common.Int.{ℤ}
use learn_framework.Semaphore.{Store, Grant, get, put, release_grant, release, move_to}
use learn_framework.Semaphore.Balance.{
  weight, orphan, held, Inv, release_grant-Inv, release_grant_total,
}

abbrev pub dropped : Grant → Grant
dropped g = record g { f_have_grant = false }

-- Behind `Release` the grant is not held.
pub release_grant_drops :
    (st a : Store) (j : ℕ) (g : Grant)
    → get_elem? st.grants j ≡ some g
    → release_grant st j g ≡ ok a
    → get_elem? a.grants j ≡ some (dropped g)
unfolding release_grant
release_grant_drops st a j g here h = elim (Bool-cases g.f_have_grant) [
  | inr old ↦ ground arith
  | inl new ↦ elim (Option-cases g.sem) [
    | inl n ↦ absurd (ground arith)
    | inr (s, q) ↦ ground (arith, get_elem?-set st.grants j g (dropped g) here)
  ]
]

-- The grants at `i` and `j` behind the two assignments of `MoveTo`, where `j` held nothing.
transfer : Store → ℕ → ℕ → Grant → Store
transfer a i j g = put (put a a.value j g) a.value i (dropped g)

transfer-total :
    (w : Grant → ℕ) (a : Store) (i j : ℕ) (g k : Grant)
    → get_elem? a.grants i ≡ some g
    → get_elem? a.grants j ≡ some (dropped k)
    → w (dropped k) ≡ 0
    → w (dropped g) ≡ 0
    → total w (transfer a i j g).grants ≡ total w a.grants
unfolding transfer
transfer-total w a i j g k at_i at_j zk zg = omega (
  arith,
  total-set w a.grants j (dropped k) g at_j,
  total-set w (set a.grants j g) i g (dropped g) (get_elem?-set_copy a.grants i j g at_i),
  zk,
  zg,
)

transfer-Inv :
    (base : ℕ → ℤ) (a : Store) (i j : ℕ) (g k : Grant)
    → Inv base a
    → get_elem? a.grants i ≡ some g
    → get_elem? a.grants j ≡ some (dropped k)
    → Inv base (transfer a i j g)
unfolding held weight orphan transfer
transfer-Inv base a i j g k v at_i at_j = record {
  balanced =
      λ s. omega (arith, v.balanced s, transfer-total (weight s) a i j g k at_i at_j refl refl);
  floor = v.floor;
  owned = omega (arith, v.owned, transfer-total orphan a i j g k at_i at_j refl refl);
}

move_to-transfer :
    (st a : Store) (i j : ℕ) (g k : Grant)
    → get_elem? st.grants j ≡ some k
    → release_grant st j k ≡ ok a
    → get_elem? a.grants i ≡ some g
    → move_to st i j ≡ ok (transfer a i j g)
unfolding move_to release transfer
move_to-transfer st a i j g k at_j h at_i = ground (arith, get_elem?-set_copy a.grants i j g at_i)

release_grant-others :
    (st a : Store) (j : ℕ) (k : Grant) (i : ℕ)
    → j ≢ i
    → release_grant st j k ≡ ok a
    → get_elem? a.grants i ≡ get_elem? st.grants i
unfolding release_grant
release_grant-others st a j k i ne h = elim (Bool-cases k.f_have_grant) [
  | inr old ↦ ground arith
  | inl new ↦ elim (Option-cases k.sem) [
    | inl n ↦ absurd (ground arith)
    | inr (s, q) ↦
        let e : a.grants ≡ set st.grants j (dropped k) = ground arith in
        rw e (get_elem?-set_ne st.grants j i (dropped k) ne)
  ]
]

-- In a well-formed store `MoveTo` between two grants returns: the target is then what the source
-- was, and the source holds nothing. The values of the semaphores are those behind a `Release` of
-- the target.
pub move_to-moves :
    (base : ℕ → ℤ) (st : Store) (i j : ℕ) (g k : Grant)
    → Inv base st
    → i ≢ j
    → get_elem? st.grants i ≡ some g
    → get_elem? st.grants j ≡ some k
    → (a st' : Store) × (release st j ≡ ok a)
      × (move_to st i j ≡ ok st')
      × (st'.value ≡ a.value)
      × (get_elem? st'.grants j ≡ some g)
      × (get_elem? st'.grants i ≡ some (record g { f_have_grant = false }))
unfolding release transfer
move_to-moves base st i j g k v ne at_i at_j =
    let (a, h) = release_grant_total base st j k v at_j in
    let b_i : get_elem? a.grants i ≡ some g =
      release_grant-others st a j k i (λ e. ne (sym e)) h ∙ at_i in
    let b_j = release_grant_drops st a j k at_j h in
    (
      a,
      transfer a i j g,
      ground arith,
      move_to-transfer st a i j g k at_j h b_i,
      refl,
      get_elem?-set_ne (set a.grants j g) i j (dropped g) ne
          ∙ get_elem?-set a.grants j (dropped k) g b_j,
      get_elem?-set (set a.grants j g) i g (dropped g) (get_elem?-set_copy a.grants i j g b_i),
    )

get_ok : (st : Store) (i : ℕ) {g : Grant} → get st i ≡ ok g → get_elem? st.grants i ≡ some g
get_ok st i h = ground arith

pub move_to-Inv :
    (base : ℕ → ℤ) (st : Store) (i j : ℕ) {st' : Store}
    → Inv base st
    → move_to st i j ≡ ok st'
    → Inv base st'
unfolding move_to release
move_to-Inv base st i j {st'} v h = elim (Option-cases (get_elem? st.grants j)) [
  | inl n ↦ absurd (ground arith)
  | inr (k, at_j) ↦
      let (a, r) = release_grant_total base st j k v at_j in
      let v' = release_grant-Inv base st v j k at_j r in
      elim (Option-cases (get_elem? a.grants i)) [
        | inl n ↦ absurd (ground arith)
        | inr (g, at_i) ↦
            let e : st' ≡ transfer a i j g =
              ground (arith, move_to-transfer st a i j g k at_j r at_i) in
            rw e (transfer-Inv base a i j g k v' at_i (release_grant_drops st a j k at_j r))
      ]
]
