-- ===== src/Ecc/Keys.antt =====
-- learnopenssl/src/open_ecc.cpp: the two parts of a key behind an import, and keys of two objects.
use learn_framework.Common.{
  ℕ, suc, ◌+◌, ◌<◌, ◌≡◌, refl, ap, some, List, [], ◌∷◌, zero, arith, get_elem?, length, ok,
}
use learn_framework.Ecc.{
  Library, Text, OpenEcc, init_ecc_curves, import_priv_key, dump_priv_key, get_pub_key,
}

pub get_elem?-lt {ℓ} :
    {A : Type ℓ} (xs : List A) (i : ℕ) → i < length xs → (x : A) × (get_elem? xs i ≡ some x)
get_elem?-lt [] i h = absurd (omega arith)
get_elem?-lt (x ∷ xs) zero h = (x, refl)
get_elem?-lt (x ∷ xs) (suc i) h = get_elem?-lt xs i (omega arith)

module _ (lib : Library) where
  open lib use {
    Key, Group, Point, Pair, builtin_curves, new_key, group_by_name, set_group, generate,
    set_private, private_of, public_of, hex_of_number, number_of_hex, hex_of_point, point_of_hex,
    sign, verify, compute_key,
  }

  -- An object that `initEccCurves` has set up, after any imports and signatures: it has a key, and
  -- the group and the curves are the library's.
  pub record IsReady (o : OpenEcc lib) : Type 0 where
    pub key : Key
    pub nid : ℕ
    pub has_key : o.priv_key ≡ some key
    pub has_group : o.group ≡ some (group_by_name nid)
    pub has_curves : o.curves ≡ some builtin_curves
    pub curve : get_elem? builtin_curves 25 ≡ some nid

  pub init-IsReady :
      (o : OpenEcc lib)
      → 25 < length builtin_curves
      → (o' : OpenEcc lib) × (init_ecc_curves lib o ≡ ok o') × IsReady o'
  unfolding init_ecc_curves
  init-IsReady o h =
      let (nid, e) = get_elem?-lt builtin_curves 25 h in
      let key = generate (set_group new_key (group_by_name nid)) o.draws in
      (
        record {
          priv_key = some key;
          group = some (group_by_name nid);
          curves = some builtin_curves;
          draws = o.draws + 1;
        },
        ground (arith, e),
        record {
          key = key;
          nid = nid;
          has_key = refl;
          has_group = refl;
          has_curves = refl;
          curve = e;
        },
      )

  -- What an import leaves.
  abbrev imported : OpenEcc lib → ℕ → Text → OpenEcc lib
  imported o nid text = record o {
    priv_key = some (
        set_private (generate (set_group new_key (group_by_name nid)) o.draws)
          (number_of_hex text));
    group = some (group_by_name nid);
    draws = o.draws + 1;
  }

  import-imported :
      (o : OpenEcc lib) (text : Text)
      → (v : IsReady o) → import_priv_key lib o text ≡ ok (imported o v.nid text)
  unfolding import_priv_key
  import-imported o text v = ground (arith, v.has_key, v.has_curves, v.curve)

  imported-IsReady :
      (o : OpenEcc lib) (text : Text) → (v : IsReady o) → IsReady (imported o v.nid text)
  imported-IsReady o text v = record {
    key =
        set_private (generate (set_group new_key (group_by_name v.nid)) o.draws)
          (number_of_hex text);
    nid = v.nid;
    has_key = refl;
    has_group = refl;
    has_curves = v.has_curves;
    curve = v.curve;
  }

  -- On an object that is set up, the import of any text returns, and the object is still set up.
  -- `dumpPrivKey` then gives the number of the text in its normal form; but `getPubKey` gives the public
  -- part of the key that the import has generated with the next random numbers, whatever the text.
  pub dump-import :
      (o : OpenEcc lib) (text : Text)
      → (v : IsReady o)
      → let group = group_by_name v.nid in
        (o' : OpenEcc lib) × (import_priv_key lib o text ≡ ok o')
        × IsReady o'
        × (dump_priv_key lib o' ≡ ok (hex_of_number (number_of_hex text)))
        × (get_pub_key lib o'
            ≡ ok (hex_of_point group (public_of (generate (set_group new_key group) o.draws))))
        × (o'.draws ≡ o.draws + 1)
  unfolding dump_priv_key get_pub_key
  dump-import o text v =
      let group = group_by_name v.nid in
      let key = generate (set_group new_key group) o.draws in
      (
        imported o v.nid text,
        import-imported o text v,
        imported-IsReady o text v,
        ap (λ n. ok (hex_of_number n)) (lib.private_of-set_private key (number_of_hex text)),
        ap (λ p. ok (hex_of_point group p)) (lib.public_of-set_private key (number_of_hex text)),
        refl,
      )
