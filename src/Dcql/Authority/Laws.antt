-- ===== src/Dcql/Authority/Laws.antt =====
-- Identifiers, and trusted authorities that are read and written.
use text.Mathlib.TextEquality.{eq_iff}
use openid4vp.Common.{
  String, List, [], ◌∷◌, map as vec_map, Result, ok, Anyhow, >>=-eq-ok, ◌==◌, string_eq, ℕ, ◌≡◌,
  ◌≢◌, refl, inl, inr, All, Bool-cases, arith,
}
use openid4vp.Utils.NonEmpty
use openid4vp.Utils.NonEmpty.{NonEmptyVec, IsNonEmpty, try_from-IsNonEmpty}
use openid4vp.Dcql.Authority.{
  KeyIdentifier, TrustedAuthority, aki, etsi_tl, openid_federation, other, RawTrustedAuthority,
  from_base64url, collect_keys, aki_from, try_from, into_raw,
}

try_from_of_ne :
    {A : Type 0} (xs : List A) → xs ≢ [] → NonEmpty.try_from xs ≡ ok (record { vec = xs })
unfolding NonEmpty.try_from
try_from_of_ne [] h = elim (h refl) [ ]
try_from_of_ne (x ∷ xs) h = refl

raw_eq :
    (raw : RawTrustedAuthority) {t : String} {vs : List String}
    → raw.type ≡ t
    → vs ≡ raw.values.vec
    → Path RawTrustedAuthority (record { type = t; values = record { vec = vs } }) raw
raw_eq raw e f = rw (← e, f) refl

module _ (trim : String → String) (decode : String → Result Anyhow (List ℕ)) where
  -- The text of a key identifier decodes to its bytes, of which there are some.
  abbrev pub IsDecoded : KeyIdentifier → Type 0
  IsDecoded k = from_base64url trim decode k.encoded ≡ ok k

  -- An authority as it is read: its keys are decoded, its lists are not empty, and a type without
  -- a constructor of its own is none of those that have one.
  abbrev pub IsRead : TrustedAuthority → Type 0
  IsRead (aki values) = All IsDecoded values.vec × IsNonEmpty values
  IsRead (other type values) = (type ≢ "aki") × (type ≢ "etsi_tl") × (type ≢ "openid_federation")
  IsRead _ = Unit

  from_base64url-encoded :
      (s : String) (k : KeyIdentifier) → from_base64url trim decode s ≡ ok k → k.encoded ≡ s
  unfolding from_base64url
  from_base64url-encoded s k h =
      let (bytes, e, rest) = >>=-eq-ok (decode (trim s)) _ h in ground arith

  collect_keys-encoded :
      (ks : List KeyIdentifier)
      → All IsDecoded ks
      → collect_keys trim decode (vec_map (λ k. k.encoded) ks) ≡ ok ks
  unfolding collect_keys
  collect_keys-encoded [] h = refl
  collect_keys-encoded (k ∷ ks) (h, hs) = rw (collect_keys, h, collect_keys-encoded ks hs) refl

  encoded_of_collect_keys :
      (values : List String) (ks : List KeyIdentifier)
      → collect_keys trim decode values ≡ ok ks
      → All IsDecoded ks × (vec_map (λ k. k.encoded) ks ≡ values)
  unfolding collect_keys
  encoded_of_collect_keys [] ks h = ground arith
  encoded_of_collect_keys (v ∷ vs) ks h =
      let (k, e, r) = >>=-eq-ok (from_base64url trim decode v) _ h in
      let (js, f, g) = >>=-eq-ok (collect_keys trim decode vs) _ r in
      let same = from_base64url-encoded v k e in
      let (hs, texts) = encoded_of_collect_keys vs js f in
      let done : ks ≡ k ∷ js = ground arith in rw (done, same, texts) ((e, hs), refl)

  -- An authority whose keys are decoded from their texts, whose list of keys is not empty and
  -- whose type, if it has no constructor of its own, is none of those that have one, is read
  -- back from what it is written as.
  pub try_from-into_raw :
      (a : TrustedAuthority) → IsRead a → try_from trim decode (into_raw a) ≡ ok a
  unfolding try_from into_raw aki_from NonEmpty.map
  try_from-into_raw (aki values) (h, n) =
      rw (collect_keys-encoded values.vec h, try_from_of_ne values.vec n) refl
  try_from-into_raw (etsi_tl values) h = refl
  try_from-into_raw (openid_federation values) h = refl
  try_from-into_raw (other type values) (h, k, l) =
      ground (arith, eq_iff type "aki", eq_iff type "etsi_tl", eq_iff type "openid_federation")

  -- An authority that is read has keys that are decoded from their texts, a list of keys that
  -- is not empty and, if its type has no constructor of its own, none of the types that have
  -- one; and it is written as what it was read from.
  pub into_raw-try_from :
      (raw : RawTrustedAuthority) (a : TrustedAuthority)
      → try_from trim decode raw ≡ ok a
      → IsRead a × (into_raw a ≡ raw)
  unfolding try_from into_raw aki_from NonEmpty.map
  into_raw-try_from raw a h = elim (Bool-cases (raw.type == "aki")) [
    | inl is_aki ↦
        let (ks, e, r) = >>=-eq-ok (collect_keys trim decode raw.values.vec) _ (rw is_aki at h) in
        let (vs, f, g) = >>=-eq-ok (NonEmpty.try_from ks) _ r in
        let (hs, texts) = encoded_of_collect_keys raw.values.vec ks e in
        let (n, same) = try_from-IsNonEmpty ks vs f in
        let type = (eq_iff raw.type "aki").0 is_aki in
        let done : a ≡ aki vs = ground arith in
        rw done ((rw same hs, n), raw_eq raw type (rw same texts))
    | inr other_type ↦ elim (Bool-cases (raw.type == "etsi_tl")) [
      | inl is_etsi ↦
          let done : a ≡ etsi_tl raw.values = ground arith in
          rw done (tt, raw_eq raw ((eq_iff raw.type "etsi_tl").0 is_etsi) refl)
      | inr not_etsi ↦ elim (Bool-cases (raw.type == "openid_federation")) [
        | inl is_federation ↦
            let done : a ≡ openid_federation raw.values = ground arith in
            rw done (tt, raw_eq raw ((eq_iff raw.type "openid_federation").0 is_federation) refl)
        | inr not_federation ↦
            let done : a ≡ other raw.type raw.values = ground arith in
            rw done (
              (
                ground (arith, eq_iff raw.type "aki"),
                ground (arith, eq_iff raw.type "etsi_tl"),
                ground (arith, eq_iff raw.type "openid_federation"),
              ),
              refl,
            )
      ]
    ]
  ]
