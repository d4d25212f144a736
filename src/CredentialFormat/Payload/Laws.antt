-- ===== src/CredentialFormat/Payload/Laws.antt =====
-- When one payload contains another.
use openid4vp.Common.{String, ◌≡◌, ◌↔◌, true, List, string_eq, arith}
use openid4vp.Json.{Json, json_eq}
use openid4vp.Utils.Laws.{Shares, contains_any_iff}
use openid4vp.CredentialFormat.Payload.{
  ClaimFormatPayload, alg, alg_values_supported, proof_type, sd_jwt_alg_values, json,
  contains_payload,
}

-- Two payloads of one kind with an algorithm in common: for SD-JWT one for the issuer's signature
-- and one for the key binding. Two payloads of free form have to be equal.
pub data Overlaps : ClaimFormatPayload → ClaimFormatPayload → Type 0 where
  algs : {xs ys : List String} → Shares xs ys → Overlaps (alg xs) (alg ys)
  values :
      {xs ys : List String}
      → Shares xs ys
      → Overlaps (alg_values_supported xs) (alg_values_supported ys)
  proofs : {xs ys : List String} → Shares xs ys → Overlaps (proof_type xs) (proof_type ys)
  sd_jwt :
      {sd kb sd' kb' : List String}
      → Shares sd sd'
      → Shares kb kb'
      → Overlaps (sd_jwt_alg_values sd kb) (sd_jwt_alg_values sd' kb')
  same : {v w : Json} → v ≡ w → Overlaps (json v) (json w)

contains_payload_sound : (p q : ClaimFormatPayload) → contains_payload p q ≡ true → Overlaps p q
unfolding contains_payload
contains_payload_sound (alg xs) (alg ys) h = algs ((contains_any_iff xs ys).0 h)
contains_payload_sound (alg_values_supported xs) (alg_values_supported ys) h =
    values ((contains_any_iff xs ys).0 h)
contains_payload_sound (proof_type xs) (proof_type ys) h = proofs ((contains_any_iff xs ys).0 h)
contains_payload_sound (sd_jwt_alg_values sd kb) (sd_jwt_alg_values sd' kb') h =
    sd_jwt ((contains_any_iff sd sd').0 (ground arith)) ((contains_any_iff kb kb').0 (ground arith))
contains_payload_sound (json v) (json w) h = same (ground arith)
contains_payload_sound _ _ h = cc

contains_payload_complete : {p q : ClaimFormatPayload} → Overlaps p q → contains_payload p q ≡ true
unfolding contains_payload
contains_payload_complete (algs {xs} {ys} s) = (contains_any_iff xs ys).1 s
contains_payload_complete (values {xs} {ys} s) = (contains_any_iff xs ys).1 s
contains_payload_complete (proofs {xs} {ys} s) = (contains_any_iff xs ys).1 s
contains_payload_complete (sd_jwt {sd} {kb} {sd'} {kb'} s t) =
    rw ((contains_any_iff sd sd').1 s) ((contains_any_iff kb kb').1 t)
contains_payload_complete (same e) = ground arith

-- A payload contains another exactly when they overlap: they are of one kind and have an
-- algorithm in common, for SD-JWT one for the signature of the issuer and one for the key
-- binding, or they are free-form and equal.
pub contains_payload_iff : (p q : ClaimFormatPayload) → (contains_payload p q ≡ true) ↔ Overlaps p q
contains_payload_iff p q = (contains_payload_sound p q, contains_payload_complete)
