-- ===== src/Ecc.antt =====
-- learnopenssl/src/open_ecc.cpp: `OpenEcc` (learneth/src/open_ecc.cpp is the same text), and the test
-- of learnopenssl/src/main.cpp. OpenSSL is the argument `lib`. The object owns what its pointers refer
-- to, so a member is the value behind its pointer, `none` before it is set.
pub mod Keys
pub mod Trial
pub mod Exchange
pub mod Tests
use learn_framework.Common.{
  ℕ, suc, ◌+◌, ◌≡◌, Bool, true, false, Option, none, some, List, [], ◌∷◌, get_elem?, length, Result,
  ok, err, ◌>>=◌, ◌==◌,
}
use learn_framework.Common.Int.{ℤ, pos, negsuc}

abbrev pub Text : Type 0
Text = List ℕ

-- The calls of OpenSSL, each of which changes a key as a function to the changed key; the number of
-- the call stands for its random numbers. `Pair` says that a key's two parts belong together.
pub record Library : Type 1 where
  pub Key : Type 0
  pub Group : Type 0
  pub Point : Type 0
  pub Pair : Key → Type 0
  pub builtin_curves : List ℕ
  pub new_key : Key
  pub group_by_name : ℕ → Group
  pub set_group : Key → Group → Key
  pub generate : Key → ℕ → Key
  pub set_private : Key → ℕ → Key
  pub private_of : Key → ℕ
  pub public_of : Key → Point
  pub hex_of_number : ℕ → Text
  pub number_of_hex : Text → ℕ
  pub hex_of_point : Group → Point → Text
  pub point_of_hex : Group → Text → Point
  pub sign : Key → Text → ℕ → Text
  pub verify : Key → Text → Text → ℤ
  pub compute_key : Point → Key → List ℕ  -- the buffer of 32 bytes
  pub private_of-set_private : (k : Key) (n : ℕ) → private_of (set_private k n) ≡ n
  pub public_of-set_private : (k : Key) (n : ℕ) → public_of (set_private k n) ≡ public_of k
  pub number-hex : (n : ℕ) → number_of_hex (hex_of_number n) ≡ n
  pub point-hex : (g : Group) (p : Point) → point_of_hex g (hex_of_point g p) ≡ p
  pub generate-Pair : (g : Group) (r : ℕ) → Pair (generate (set_group new_key g) r)
  pub verify-sign : (k : Key) (m : Text) (r : ℕ) → Pair k → verify k m (sign k m r) ≡ pos 1
  pub length-compute_key : (p : Point) (k : Key) → length (compute_key p k) ≡ 32

-- A pointer that was never set, or an access outside of an array.
pub data Fault : Type 0 where
  not_set outside : Fault

abbrev pub deref : {A : Type 0} → Option A → Result Fault A
deref none = err not_set
deref (some a) = ok a

abbrev pub entry : List ℕ → ℕ → Result Fault ℕ
entry xs i = elim (get_elem? xs i) [ none ↦ err outside | some x ↦ ok x ]

abbrev pub is_one : ℤ → Bool
is_one (pos n) = n == 1
is_one (negsuc n) = false

module _ (lib : Library) where
  open lib use {
    Key, Group, Point, builtin_curves, new_key, group_by_name, set_group, generate, set_private,
    private_of, public_of, hex_of_number, number_of_hex, hex_of_point, point_of_hex, sign, verify,
    compute_key,
  }

  pub record OpenEcc : Type 0 where
    pub priv_key : Option Key
    pub group : Option Group
    pub curves : Option (List ℕ)
    pub draws : ℕ  -- the calls that took random numbers so far

  -- `OpenEcc()` sets nothing.
  unfoldable pub construct : OpenEcc
  construct = record { priv_key = none; group = none; curves = none; draws = 0 }

  -- `initEccCurves`, whose argument it does not use.
  unfoldable pub init_ecc_curves : OpenEcc → Result Fault OpenEcc
  init_ecc_curves o = entry builtin_curves 25 >>= λ nid.
      let g = group_by_name nid in
      ok (record {
        priv_key = some (generate (set_group new_key g) o.draws);
        group = some g;
        curves = some builtin_curves;
        draws = o.draws + 1;
      })

  unfoldable pub str_to_priv_key : OpenEcc → Text → Result Fault OpenEcc
  str_to_priv_key o text =
      let bn = number_of_hex text in
      deref o.priv_key >>= λ freed. deref o.curves >>= λ curves. entry curves 25 >>= λ nid.
      let g = group_by_name nid in
      ok (record o {
        priv_key = some (set_private (generate (set_group new_key g) o.draws) bn);
        group = some g;
        draws = o.draws + 1;
      })

  unfoldable pub import_priv_key : OpenEcc → Text → Result Fault OpenEcc
  unfolding str_to_priv_key
  import_priv_key o text = str_to_priv_key o text

  unfoldable pub priv_key_to_str : OpenEcc → Result Fault Text
  priv_key_to_str o = deref o.priv_key >>= λ k. ok (hex_of_number (private_of k))

  unfoldable pub dump_priv_key : OpenEcc → Result Fault Text
  unfolding priv_key_to_str
  dump_priv_key o = priv_key_to_str o

  unfoldable pub sign_message : OpenEcc → Text → Result Fault (OpenEcc × Text)
  sign_message o message =
      deref o.priv_key >>= λ k. ok (record o { draws = o.draws + 1 }, sign k message o.draws)

  -- `pub_key` is an argument that the code does not use.
  unfoldable pub verify_message : OpenEcc → Text → Text → Text → Result Fault Bool
  verify_message o message signature pub_key =
      deref o.priv_key >>= λ k. ok (is_one (verify k message signature))

  unfoldable pub get_pub_key : OpenEcc → Result Fault Text
  get_pub_key o = deref o.priv_key >>= λ k. deref o.group >>= λ g. ok (hex_of_point g (public_of k))

  unfoldable pub str_to_pub_key : OpenEcc → Text → Result Fault Point
  str_to_pub_key o text = deref o.group >>= λ g. ok (point_of_hex g text)

  unfoldable pub calc_ecdh_key : OpenEcc → Text → Result Fault (List ℕ)
  unfolding str_to_pub_key
  calc_ecdh_key o pub_key =
      str_to_pub_key o pub_key >>= λ p. deref o.priv_key >>= λ k. ok (compute_key p k)
