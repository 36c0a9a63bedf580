-- ===== src/Ecc/Exchange.antt =====
-- learnopenssl/src/main.cpp: what stands in `main` behind its `return`, two keys that agree on a shared
-- one, with the helpers that only it calls. It is never reached. What OpenSSL's calls return is the
-- argument `answers`; the line of the shared bytes stands for both loops that print them.
use learn_framework.Common.{
  ℕ, zero, suc, ◌+◌, ◌≤◌, ◌≡◌, refl, ◌∙◌, Bool, true, false, ◌&&◌, Option, none, some, List, [],
  ◌∷◌, ◌++◌, ◌==◌, arith, if◌then◌else◌, leb, get_elem?, take, Result, ok, err, ◌>>=◌,
}
use learn_framework.Common.Int.{ℤ, pos, negsuc}
use learn_framework.Common.Ascii.{same, same_self}
use learn_framework.Ecc.{Library, Text, Fault, outside, entry, is_one}

pub data Line : Type 0 where
  key_error group_error set_group_error generate_error check_error sign_error verify_error : Line
  nid_line size_line : (n : ℕ) → Line
  key_line point_line str_to_pub_key_line : (text : Text) → Line
  share_line : (bytes : List ℕ) → Line
  length_error create_success create_failed test_ok aes_failed : Line

pub record Answers : Type 0 where
  pub key1_made : Bool
  pub key2_made : Bool
  pub group1_made : Bool
  pub group2_made : Bool
  pub group1_set : Bool
  pub group2_set : Bool
  pub key1_generated : Bool
  pub key2_generated : Bool
  pub key1_checked : Bool
  pub signature_size : ℕ
  pub signed : Bool
  pub len1 : ℕ  -- int, as its bit pattern
  pub len2 : ℕ  -- int, as its bit pattern
  pub aes_key_set : Bool

pub record Printed : Type 0 where
  pub lines : List Line
  pub code : ℤ

-- `digest`: the bytes 1 to 20.
abbrev bytes_from : ℕ → ℕ → List ℕ
bytes_from i zero = []
bytes_from i (suc n) = i ∷ bytes_from (i + 1) n

abbrev pub digest : List ℕ
digest = bytes_from 1 20

abbrev pub say : List Line → Result Fault Printed → Result Fault Printed
say ls r = r >>= λ p. ok (record p { lines = ls ++ p.lines })

-- `if (ret != 1) { printf(...); return -1; }`
abbrev pub guard : Bool → Line → Result Fault Printed → Result Fault Printed
guard b l r = if b then r else ok (record { lines = l ∷ []; code = negsuc 0 })

module _ (lib : Library) where
  open lib use {
    Key, Point, builtin_curves, new_key, group_by_name, set_group, generate, private_of, public_of,
    hex_of_number, hex_of_point, point_of_hex, sign, verify, compute_key,
  }

  -- `PubKeyToStr`, on a group of its own.
  unfoldable pub pub_key_to_str : Point → Text
  pub_key_to_str p = hex_of_point (group_by_name 722) p

  -- `StrToPubKey`: the point that it makes is lost, since `pubkey` is its own copy of the pointer.
  unfoldable pub str_to_pub_key_lines : Text → List Line
  unfolding pub_key_to_str
  str_to_pub_key_lines text =
      str_to_pub_key_line text
      ∷ point_line (pub_key_to_str (point_of_hex (group_by_name 722) text))
      ∷ []

  -- From the two lengths on, and the end.
  unfoldable pub compare_keys : Answers → List ℕ → List ℕ → Result Fault Printed
  compare_keys a share_key1 share_key2 =
      let last = test_ok ∷ (if a.aes_key_set then [] else aes_failed ∷ []) in
      if a.len1 == a.len2
      then (if leb a.len1 32
          then ok (record {
            lines =
                share_line share_key1
                ∷ share_line share_key2
                ∷ (if same (take a.len1 share_key1) (take a.len1 share_key2)
                    then create_success
                    else create_failed)
                ∷ last;
            code = pos 0;
          })
          else err outside)
      else ok (record { lines = length_error ∷ last; code = pos 0 })

  -- Both keys are there.
  unfoldable pub agree : Answers → Key → Key → Result Fault Printed
  unfolding compare_keys str_to_pub_key_lines
  agree a key1 key2 =
      let pub_data = pub_key_to_str (public_of key1) in
      guard a.key1_checked check_error (
        say (size_line a.signature_size ∷ []) (
          guard a.signed sign_error (
            guard (is_one (verify key1 digest (sign key1 digest 2))) verify_error (
              say (point_line pub_data ∷ str_to_pub_key_lines pub_data) (
                compare_keys a (compute_key (public_of key2) key1)
                  (compute_key (public_of key1) key2))))))

  unfoldable pub key_exchange : Answers → Result Fault Printed
  unfolding agree
  key_exchange a = guard a.key1_made key_error (
      guard a.key2_made key_error (
        entry builtin_curves 25 >>= λ nid.
        let key1 = generate (set_group new_key (group_by_name nid)) 0 in
        let key2 = generate (set_group new_key (group_by_name nid)) 1 in
        say (nid_line nid ∷ []) (
          guard a.group1_made group_error (
            guard a.group2_made group_error (
              guard a.group1_set set_group_error (
                guard a.group2_set set_group_error (
                  guard a.key1_generated generate_error (
                    say (key_line (hex_of_number (private_of key1)) ∷ [])
                      (guard a.key2_generated generate_error (agree a key1 key2))))))))))

  -- Whether each call that `main` looks at went well.
  abbrev pub all_went : Answers → Bool
  all_went a =
      a.key1_made
      && (a.key2_made
          && (a.group1_made
              && (a.group2_made
                  && (a.group1_set
                      && (a.group2_set
                          && (a.key1_generated
                              && (a.key2_generated && (a.key1_checked && a.signed))))))))

  -- Whether the keys are said to be the same.
  unfoldable pub verdict : List Line → Option Bool
  verdict [] = none
  verdict (create_success ∷ ls) = some true
  verdict (create_failed ∷ ls) = some false
  verdict (l ∷ ls) = verdict ls

  -- It returns, with 0 and the same keys if all went well, and with -1 and no keys if not.
  Ends : Bool → Result Fault Printed → Type 0
  Ends b r =
      (p : Printed) × (r ≡ ok p)
      × (p.code ≡ (if b then pos 0 else negsuc 0))
      × (verdict p.lines ≡ (if b then some true else none))

  guard-Ends :
      (b c : Bool) (l : Line) (r : Result Fault Printed)
      → verdict (l ∷ []) ≡ none
      → Ends c r
      → Ends (b && c) (guard b l r)
  unfolding Ends
  guard-Ends true c l r n e = e
  guard-Ends false c l r n e = (record { lines = l ∷ []; code = negsuc 0 }, refl, refl, n)

  guard_last-Ends :
      (b : Bool) (l : Line) (r : Result Fault Printed)
      → verdict (l ∷ []) ≡ none
      → Ends true r
      → Ends b (guard b l r)
  unfolding Ends
  guard_last-Ends true l r n e = e
  guard_last-Ends false l r n e = (record { lines = l ∷ []; code = negsuc 0 }, refl, refl, n)

  say-Ends :
      (c : Bool) (ls : List Line) (r : Result Fault Printed)
      → ((more : List Line) → verdict (ls ++ more) ≡ verdict more)
      → Ends c r
      → Ends c (say ls r)
  unfolding Ends
  say-Ends c ls r n (p, e, code, says) =
      (record p { lines = ls ++ p.lines }, rw e refl, code, n p.lines ∙ says)

  compare_keys-Ends :
      (a : Answers) (key1 key2 : List ℕ)
      → a.len1 ≡ a.len2
      → a.len1 ≤ 32
      → key1 ≡ key2
      → Ends true (compare_keys a key1 key2)
  unfolding Ends compare_keys verdict
  compare_keys-Ends a key1 key2 e few same_keys =
      let front : same (take a.len1 key1) (take a.len1 key2) ≡ true =
        rw same_keys (same_self (take a.len1 key2)) in
      let last = test_ok ∷ (if a.aes_key_set then [] else aes_failed ∷ []) in
      (
        record { lines = share_line key1 ∷ share_line key2 ∷ create_success ∷ last; code = pos 0 },
        ground (arith, front),
        refl,
        refl,
      )

  module _
      (exchanges : (g : lib.Group) (r t : ℕ)
        → let key1 = generate (set_group new_key g) r in
          let key2 = generate (set_group new_key g) t in
          compute_key (public_of key2) key1 ≡ compute_key (public_of key1) key2) where
    agree-Ends :
        (a : Answers) (g : lib.Group)
        → a.len1 ≡ a.len2
        → a.len1 ≤ 32
        → Ends
            (a.key1_checked && a.signed)
            (agree a (generate (set_group new_key g) 0) (generate (set_group new_key g) 1))
    unfolding agree verdict str_to_pub_key_lines
    agree-Ends a g e few =
        let key1 = generate (set_group new_key g) 0 in
        let key2 = generate (set_group new_key g) 1 in
        let pub_data = pub_key_to_str (public_of key1) in
        let verified : is_one (verify key1 digest (sign key1 digest 2)) ≡ true =
          rw (lib.verify-sign key1 digest 2 (lib.generate-Pair g 0)) refl in
        let compared =
          compare_keys-Ends a (compute_key (public_of key2) key1)
            (compute_key (public_of key1) key2) e few (exchanges g 0 1) in
        guard-Ends a.key1_checked a.signed _ _ refl (
          say-Ends a.signed (size_line a.signature_size ∷ []) _ (λ more. refl)
            (guard_last-Ends a.signed _ _ refl (
              rw verified (
                say-Ends true (point_line pub_data ∷ str_to_pub_key_lines pub_data) _ (λ more. refl)
                  compared))))

    -- The part of `main` behind its `return`, if it were reached, where OpenSSL has a 26th curve, the
    -- two lengths are the same and fit the buffers, and each of two keys of a group makes the same
    -- secret with the other's public part: it returns, with 0 and the line that says that both shared
    -- keys are the same exactly if each call went well whose answer it looks at, and else with -1 and
    -- without a word on the keys.
    pub key_exchange_lem :
        (a : Answers) (nid : ℕ)
        → get_elem? builtin_curves 25 ≡ some nid
        → a.len1 ≡ a.len2
        → a.len1 ≤ 32
        → (p : Printed) × (key_exchange a ≡ ok p)
          × (p.code ≡ (if all_went a then pos 0 else negsuc 0))
          × (verdict p.lines ≡ (if all_went a then some true else none))
    unfolding key_exchange Ends verdict
    key_exchange_lem a nid curve e few =
        let key1 = generate (set_group new_key (group_by_name nid)) 0 in
        let ready : entry builtin_curves 25 ≡ ok nid = rw (curve, entry) refl in
        let agreed = a.key1_checked && a.signed in
        let generated = a.key1_generated && (a.key2_generated && agreed) in
        let grouped =
          a.group1_made && (a.group2_made && (a.group1_set && (a.group2_set && generated))) in
        guard-Ends a.key1_made (a.key2_made && grouped) _ _ refl (
          guard-Ends a.key2_made grouped _ _ refl (
            rw ready (
              say-Ends grouped (nid_line nid ∷ []) _ (λ more. refl)
                (guard-Ends a.group1_made
                  (a.group2_made && (a.group1_set && (a.group2_set && generated))) _ _ refl
                  (guard-Ends a.group2_made (a.group1_set && (a.group2_set && generated)) _ _ refl (
                    guard-Ends a.group1_set (a.group2_set && generated) _ _ refl (
                      guard-Ends a.group2_set generated _ _ refl (
                        guard-Ends a.key1_generated (a.key2_generated && agreed) _ _ refl (
                          say-Ends (a.key2_generated && agreed)
                            (key_line (hex_of_number (private_of key1)) ∷ []) _ (λ more. refl)
                            (guard-Ends a.key2_generated agreed _ _ refl
                              (agree-Ends a (group_by_name nid) e few)))))))))))
