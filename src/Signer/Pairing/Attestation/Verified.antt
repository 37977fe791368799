-- ===== src/Signer/Pairing/Attestation/Verified.antt =====
-- What pairing data has passed that is verified.
use greenlight.Prelude.{
  ℕ, ◌≡◌, ◌∙◌, refl, ap, Bool, true, false, Option, none, some, List, [], ◌∷◌, ◌++◌, length, drop,
  starts_with, bytes_eq, bytes_eq→eq, codes, arith, ◌==◌, if◌then◌else◌,
}
use greenlight.Prelude.Outcome.{ok, ok_or, >>=-eq-ok}
use greenlight.Signer.Pairing.Attestation.{
  find_split, count_matches, ends_in, begins_with, restriction_contains_pubkey_exactly_once,
  PairingData, bad_csr, verify_pairing_data,
}

starts_with-append : (s t : List ℕ) → starts_with s t ≡ true → s ≡ t ++ drop (length t) s
unfolding starts_with
starts_with-append s [] h = refl
starts_with-append [] (y ∷ t) h = cc
starts_with-append (x ∷ s) (y ∷ t) h = ground (arith, h, starts_with-append s t)

some_pair :
    (a b before after : List ℕ)
    → ◌≡◌ {A = Option (List ℕ × List ℕ)} (some (a, b)) (some (before, after))
    → (before ≡ a) × (after ≡ b)
some_pair a b before after h = ground (arith, h)

find_split-append :
    (s t before after : List ℕ) → find_split s t ≡ some (before, after) → s ≡ before ++ (t ++ after)
unfolding find_split starts_with
find_split-append [] [] before after h =
    let (e, g) = some_pair [] [] before after h in rw (e, g) refl
find_split-append [] (y ∷ t) before after h = cc
find_split-append (c ∷ s) t before after h =
    found (starts_with (c ∷ s) t) (find_split s t) refl h (find_split-append s t)
  where
    found :
        (b : Bool) (later : Option (List ℕ × List ℕ))
        → starts_with (c ∷ s) t ≡ b
        → (if b
            then some ([], drop (length t) (c ∷ s))
            else elim later as (λ x. Option (List ℕ × List ℕ)) [
              | none ↦ none
              | some f ↦ some (c ∷ f.0, f.1)
            ])
          ≡ some (before, after)
        → ((x y : List ℕ) → later ≡ some (x, y) → s ≡ x ++ (t ++ y))
        → c ∷ s ≡ before ++ (t ++ after)
    found true later e q ih =
        let (e1, e2) = some_pair [] (drop (length t) (c ∷ s)) before after q in
        rw (e1, e2) (starts_with-append (c ∷ s) t e)
    found false none e q ih = cc
    found false (some (x, y)) e q ih =
        let (e1, e2) = some_pair (c ∷ x) y before after q in
        rw (e1, e2) (ap (λ l. c ∷ l) (ih x y refl))

restriction_lem :
    (s field : List ℕ) (o : Option (List ℕ × List ℕ))
    → find_split s field ≡ o
    → elim o as (λ x. Bool) [
      | none ↦ false
      | some found ↦
          if ends_in found.0 b'|'
          then false
          else if begins_with found.1 b'|'
          then false
          else count_matches (length s) s field == 1
    ]
      ≡ true
    → (before : List ℕ) × ((after : List ℕ) × (s ≡ before ++ (field ++ after))
        × (ends_in before b'|' ≡ false)
        × (begins_with after b'|' ≡ false)
        × (count_matches (length s) s field ≡ 1))
restriction_lem s field none e h = cc
restriction_lem s field (some (before, after)) e h = (
  before,
  (
    after,
    find_split-append s field before after e,
    ground (arith, h),
    ground (arith, h),
    ground (arith, h),
  ),
)

-- Pairing data that is verified has the device's id as the key of its signing request, and its
-- restrictions contain `pubkey=` with this id, once, and neither behind nor in front of a `|`.
pub verify_pairing_data_lem :
    (public_key : List ℕ → Option (List ℕ)) (pd : PairingData)
    → verify_pairing_data public_key pd ≡ ok tt
    → (before : List ℕ) × ((after : List ℕ) × (public_key pd.csr ≡ some pd.device_id)
        × (pd.restrictions ≡ before ++ ((codes "pubkey=" ++ pd.device_id) ++ after))
        × (ends_in before b'|' ≡ false)
        × (begins_with after b'|' ≡ false)
        × (count_matches (length pd.restrictions) pd.restrictions (codes "pubkey=" ++ pd.device_id)
            ≡ 1))
unfolding verify_pairing_data restriction_contains_pubkey_exactly_once
verify_pairing_data_lem public_key pd h =
    let (pk, keyed, h1) = >>=-eq-ok (ok_or bad_csr (public_key pd.csr)) _ h in
    let exact = restriction_contains_pubkey_exactly_once pd.restrictions pd.device_id in
    let same : bytes_eq pk pd.device_id ≡ true = ground (arith, h1) in
    let once : exact ≡ true = ground (arith, h1) in
    let (before, (after, parts, no_bar, no_bar_behind, one)) =
      restriction_lem pd.restrictions (codes "pubkey=" ++ pd.device_id) _ refl once in
    let key : public_key pd.csr ≡ some pk = ground (arith, keyed) in
    (
      before,
      (after, key ∙ ap some (bytes_eq→eq pk pd.device_id same), parts, no_bar, no_bar_behind, one),
    )
