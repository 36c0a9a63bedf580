-- ===== src/Ecc/Trial.antt =====
-- learnopenssl/src/main.cpp: `PrintStrHex` and `TestOpenEcc`, which `main` calls before it returns.
use learn_framework.Common.{
  ℕ, ◌+◌, ◌≤◌, ◌<◌, ◌≡◌, refl, ap, Bool, true, some, List, [], ◌∷◌, ◌++◌, arith, leb, if◌then◌else◌,
  get_elem?, length, take, Result, ok, err, ◌>>=◌,
}
use learn_framework.Common.Ascii.{codes}
use learn_framework.Ecc.{
  Library, Text, Fault, outside, OpenEcc, construct, init_ecc_curves, import_priv_key,
  dump_priv_key, sign_message, verify_message, get_pub_key, calc_ecdh_key, is_one,
}
use learn_framework.Ecc.Keys.{get_elem?-lt}

-- The bytes that `PrintStrHex` prints: 32 of `c_str()`, which has one byte 0 behind the text.
unfoldable pub print_str_hex : Text → Result Fault (List ℕ)
print_str_hex s = if leb 32 (length s + 1) then ok (take 32 (s ++ (0 ∷ []))) else err outside

-- What `TestOpenEcc` prints and the answers that it gets, in the order of the calls.
pub record Shown : Type 0 where
  pub priv_key : Text
  pub pub_key : Text
  pub verified : Bool
  pub verified_other : Bool
  pub verified_imported : Bool
  pub verified_again : Bool
  pub pub_key1 : Text
  pub from_priv_key : Text
  pub ecdh_key : List ℕ

abbrev pub message : Text
message = codes "asdaescaeesafawwqgavcq2123bwjuert"

abbrev pub message_error : Text
message_error = codes "adfafafwedaceq121322134321"

abbrev pub from_key : Text
from_key = codes "0207408978889F432ECFB0409827FBA813128ED73B"

abbrev pub other_pub_key : Text
other_pub_key = codes "030583A682FDCC91086F3BB90004EF8E864A2EEA1245"

module _ (lib : Library) where
  open lib use {
    Key, Group, Pair, builtin_curves, new_key, group_by_name, set_group, generate, set_private,
    private_of, public_of, hex_of_number, number_of_hex, hex_of_point, sign,
  }

  -- The part up to the import: the object, what is printed, and the last signature.
  unfoldable pub before_import : Result Fault (OpenEcc lib × Text × Text × Bool × Bool)
  before_import = do
    o ← init_ecc_curves lib (construct lib)
    priv_key ← dump_priv_key lib o
    s1 ← sign_message lib o message
    p1 ← print_str_hex s1.1
    s2 ← sign_message lib s1.0 message
    p2 ← print_str_hex s2.1
    pub_key ← get_pub_key lib s2.0
    verified ← verify_message lib s2.0 message s2.1 pub_key
    other ← verify_message lib s2.0 message_error s2.1 pub_key
    ok (s2.0, priv_key, pub_key, verified, other)

  unfoldable pub test_open_ecc : Result Fault Shown
  test_open_ecc = do
    b ← before_import
    o ← import_priv_key lib b.0 from_key
    s1 ← sign_message lib o message
    p1 ← print_str_hex s1.1
    imported ← verify_message lib s1.0 message s1.1 b.2
    s2 ← sign_message lib s1.0 message
    p2 ← print_str_hex s2.1
    again ← verify_message lib s2.0 message s2.1 b.2
    pub_key1 ← get_pub_key lib s2.0
    from_priv_key ← dump_priv_key lib s2.0
    ecdh_key ← calc_ecdh_key lib s2.0 other_pub_key
    ok (record {
      priv_key = b.1;
      pub_key = b.2;
      verified = b.3;
      verified_other = b.4;
      verified_imported = imported;
      verified_again = again;
      pub_key1 = pub_key1;
      from_priv_key = from_priv_key;
      ecdh_key = ecdh_key;
    })

  print_str_hex-ok : (s : Text) → 31 ≤ length s → print_str_hex s ≡ ok (take 32 (s ++ (0 ∷ [])))
  unfolding print_str_hex
  print_str_hex-ok s h = ground arith

  -- The key of the object at first, and the key behind the import.
  abbrev first_key : ℕ → Key
  first_key nid = generate (set_group new_key (group_by_name nid)) 0

  abbrev fresh_key : ℕ → Key
  fresh_key nid = generate (set_group new_key (group_by_name nid)) 3

  abbrev second_key : ℕ → Key
  second_key nid = set_private (fresh_key nid) (number_of_hex from_key)

  abbrev object : Key → ℕ → ℕ → OpenEcc lib
  object key nid draws = record {
    priv_key = some key;
    group = some (group_by_name nid);
    curves = some builtin_curves;
    draws = draws;
  }

  module _ (nid : ℕ) (curve : get_elem? builtin_curves 25 ≡ some nid)
      (long : (k : Key) (m : Text) (r : ℕ) → 31 ≤ length (sign k m r)) where
    abbrev pub_text : Text
    pub_text = hex_of_point (group_by_name nid) (public_of (first_key nid))

    init_lem : init_ecc_curves lib (construct lib) ≡ ok (object (first_key nid) nid 1)
    unfolding init_ecc_curves construct
    init_lem = ground (arith, curve)

    import_lem :
        import_priv_key lib (object (first_key nid) nid 3) from_key
        ≡ ok (object (second_key nid) nid 4)
    unfolding import_priv_key
    import_lem = ground (arith, curve)

    -- The answer for the other message.
    abbrev other_answer : Bool
    other_answer =
        is_one (lib.verify (first_key nid) message_error (sign (first_key nid) message 2))

    before_import_lem :
        before_import
        ≡ ok (
          object (first_key nid) nid 3,
          hex_of_number (private_of (first_key nid)),
          pub_text,
          true,
          other_answer,
        )
    unfolding before_import dump_priv_key sign_message get_pub_key verify_message
    before_import_lem =
        rw
          (
            init_lem,
            print_str_hex-ok (sign (first_key nid) message 1) (long (first_key nid) message 1),
            print_str_hex-ok (sign (first_key nid) message 2) (long (first_key nid) message 2),
            lib.verify-sign (first_key nid) message 2 (lib.generate-Pair (group_by_name nid) 0),
          )
          refl

    abbrev shown : Shown
    shown = record {
      priv_key = hex_of_number (private_of (first_key nid));
      pub_key = pub_text;
      verified = true;
      verified_other = other_answer;
      verified_imported =
          is_one (lib.verify (second_key nid) message (sign (second_key nid) message 4));
      verified_again =
          is_one (lib.verify (second_key nid) message (sign (second_key nid) message 5));
      pub_key1 = hex_of_point (group_by_name nid) (public_of (second_key nid));
      from_priv_key = hex_of_number (private_of (second_key nid));
      ecdh_key =
          lib.compute_key (lib.point_of_hex (group_by_name nid) other_pub_key) (second_key nid);
    }

    test_open_ecc-shown : test_open_ecc ≡ ok shown
    unfolding test_open_ecc dump_priv_key sign_message get_pub_key verify_message calc_ecdh_key
    test_open_ecc-shown =
        rw
          (
            before_import_lem,
            import_lem,
            print_str_hex-ok (sign (second_key nid) message 4) (long (second_key nid) message 4),
            print_str_hex-ok (sign (second_key nid) message 5) (long (second_key nid) message 5),
          )
          refl

  -- Where OpenSSL lists more than 25 curves and each signature has at least 31 bytes, `TestOpenEcc`
  -- runs through. Its first verification answers true, the private key that it shows last is the
  -- imported one in its normal form, and the public key beside it is the public part of a key that the
  -- import has generated. The shared key has 32 bytes.
  pub test_open_ecc_lem :
      25 < length builtin_curves
      → ((k : Key) (m : Text) (r : ℕ) → 31 ≤ length (sign k m r))
      → (nid : ℕ) × (out : Shown) × (test_open_ecc ≡ ok out)
        × (get_elem? builtin_curves 25 ≡ some nid)
        × (out.verified ≡ true)
        × (out.from_priv_key ≡ hex_of_number (number_of_hex from_key))
        × (out.pub_key1 ≡ hex_of_point (group_by_name nid) (public_of (fresh_key nid)))
        × (length out.ecdh_key ≡ 32)
  test_open_ecc_lem h long =
      let (nid, e) = get_elem?-lt builtin_curves 25 h in
      (
        nid,
        shown nid e long,
        test_open_ecc-shown nid e long,
        e,
        refl,
        ap hex_of_number (lib.private_of-set_private (fresh_key nid) (number_of_hex from_key)),
        ap (hex_of_point (group_by_name nid))
            (lib.public_of-set_private (fresh_key nid) (number_of_hex from_key)),
        lib.length-compute_key (lib.point_of_hex (group_by_name nid) other_pub_key)
            (second_key nid),
      )
