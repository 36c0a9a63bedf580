-- ===== src/Ecc/Tests.antt =====
-- learnopenssl/src/open_ecc.cpp: a library whose keys are two numbers.
use learn_framework.Common.{
  ℕ, zero, suc, ◌+◌, ◌≤◌, ◌≡◌, refl, ap, true, false, some, List, [], ◌∷◌, arith, ◌==◌,
  if◌then◌else◌, get_elem?, length, ok, err,
}
use learn_framework.Common.Int.{pos, negsuc}
use learn_framework.Ecc.{
  Library, Text, not_set, OpenEcc, construct, import_priv_key, dump_priv_key, get_pub_key,
}
use learn_framework.Ecc.Keys.{IsReady, dump-import}
use learn_framework.Ecc.Exchange.{
  Answers, Printed, key_error, key_exchange, key_exchange_lem, verdict,
}
use learn_framework.Ecc.Trial.{test_open_ecc, Shown, test_open_ecc_lem, from_key}

abbrev zeros : ℕ → List ℕ
zeros zero = []
zeros (suc n) = 0 ∷ zeros n

abbrev head_or_0 : Text → ℕ
head_or_0 [] = 0
head_or_0 (c ∷ s) = c

verify_self : (k : ℕ × ℕ) → k.0 ≡ k.1 → (if k.0 == k.1 then pos 1 else pos 0) ≡ pos 1
verify_self k h = ground arith

abbrev numbers : Library
numbers = record {
  Key = ℕ × ℕ;
  Group = ℕ;
  Point = ℕ;
  Pair = λ k. k.0 ≡ k.1;
  builtin_curves = zeros 30;
  new_key = (0, 0);
  group_by_name = λ nid. nid;
  set_group = λ k g. k;
  generate = λ k r. (r + 1, r + 1);
  set_private = λ k n. (n, k.1);
  private_of = λ k. k.0;
  public_of = λ k. k.1;
  hex_of_number = λ n. n ∷ [];
  number_of_hex = head_or_0;
  hex_of_point = λ g p. p ∷ [];
  point_of_hex = λ g s. head_or_0 s;
  sign = λ k m r. k.0 ∷ zeros 39;
  verify = λ k m s. if head_or_0 s == k.1 then pos 1 else pos 0;
  compute_key = λ p k. (p + k.0) ∷ zeros 31;
  private_of-set_private = λ k n. refl;
  public_of-set_private = λ k n. refl;
  number-hex = λ n. refl;
  point-hex = λ g p. refl;
  generate-Pair = λ g r. refl;
  verify-sign = λ k m r h. verify_self k h;
  length-compute_key = λ p k. refl;
}

-- An object that nobody has set up.
no_key : dump_priv_key numbers (construct numbers) ≡ err not_set
unfolding dump_priv_key construct
no_key = refl

abbrev object : OpenEcc numbers
object = record { priv_key = some (7, 7); group = some 0; curves = some (zeros 30); draws = 4 }

object-IsReady : IsReady numbers object
object-IsReady = record {
  key = (7, 7);
  nid = 0;
  has_key = refl;
  has_group = refl;
  has_curves = refl;
  curve = refl;
}

dump-import_example :
    (o' : OpenEcc numbers) × (import_priv_key numbers object (11 ∷ []) ≡ ok o')
    × IsReady numbers o'
    × (dump_priv_key numbers o' ≡ ok (11 ∷ []))
    × (get_pub_key numbers o' ≡ ok (5 ∷ []))
    × (o'.draws ≡ 5)
dump-import_example = dump-import numbers object (11 ∷ []) object-IsReady

long_enough : (k : ℕ × ℕ) (m : Text) (r : ℕ) → 31 ≤ length (numbers.sign k m r)
long_enough k m r = omega arith

test_open_ecc_lem_example :
    (nid : ℕ) × (out : Shown) × (test_open_ecc numbers ≡ ok out)
    × (get_elem? (zeros 30) 25 ≡ some nid)
    × (out.verified ≡ true)
    × (out.from_priv_key ≡ head_or_0 from_key ∷ [])
    × (out.pub_key1 ≡ 4 ∷ [])
    × (length out.ecdh_key ≡ 32)
test_open_ecc_lem_example = test_open_ecc_lem numbers (omega arith) long_enough

abbrev answers : Answers
answers = record {
  key1_made = true;
  key2_made = true;
  group1_made = true;
  group2_made = true;
  group1_set = true;
  group2_set = true;
  key1_generated = true;
  key2_generated = true;
  key1_checked = true;
  signature_size = 48;
  signed = true;
  len1 = 21;
  len2 = 21;
  aes_key_set = true;
}

keys_agree :
    (p : Printed) × (key_exchange numbers answers ≡ ok p)
    × (p.code ≡ pos 0)
    × (verdict numbers p.lines ≡ some true)
keys_agree =
    key_exchange_lem numbers (λ g r t. ap (λ n. n ∷ zeros 31) (omega arith)) answers 0 refl refl
      (omega arith)

-- Without the second key it ends with its error.
no_second_key :
    key_exchange numbers (record answers { key2_made = false })
    ≡ ok (record { lines = key_error ∷ []; code = negsuc 0 })
unfolding key_exchange
no_second_key = refl
