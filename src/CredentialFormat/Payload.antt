-- ===== src/CredentialFormat/Payload.antt =====
-- core/credential_format/mod.rs: `ClaimFormatPayload`, what a claim format is restricted to, and
-- `ClaimFormatMap`.
pub mod Laws
use openid4vp.Common.{
  String, Bool, true, false, ◌&&◌, List, Eq, derived, ◌==◌, string_eq, String-discrete, push, arith,
}
use openid4vp.Common.Dict.{Dict}
use openid4vp.Json.{Json, Json-discrete, json_eq}
use openid4vp.Utils.{contains_any}
use openid4vp.CredentialFormat.Designation.{ClaimFormatDesignation}

pub data ClaimFormatPayload : Type 0 where
  alg alg_values_supported proof_type : List String → ClaimFormatPayload
  sd_jwt_alg_values : (sd_jwt kb_jwt : List String) → ClaimFormatPayload
  json : Json → ClaimFormatPayload

-- A `HashMap`; the order of the entries stands for the order of its iteration.
abbrev pub ClaimFormatMap : Type 0
ClaimFormatMap = Dict ClaimFormatDesignation ClaimFormatPayload

unfoldable pub add_alg : ClaimFormatPayload → String → ClaimFormatPayload
add_alg (alg algs) a = alg (push algs a)
add_alg (alg_values_supported algs) a = alg_values_supported (push algs a)
add_alg p a = p

unfoldable pub add_proof_type : ClaimFormatPayload → String → ClaimFormatPayload
add_proof_type (proof_type proof_types) t = proof_type (push proof_types t)
add_proof_type p t = p

-- `contains` of the payload.
unfoldable pub contains_payload : ClaimFormatPayload → ClaimFormatPayload → Bool
contains_payload (alg algs) (alg others) = contains_any algs others
contains_payload (alg_values_supported algs) (alg_values_supported others) =
    contains_any algs others
contains_payload (proof_type proofs) (proof_type others) = contains_any proofs others
contains_payload (sd_jwt_alg_values sd kb) (sd_jwt_alg_values other_sd other_kb) =
    contains_any sd other_sd && contains_any kb other_kb
contains_payload (json v) (json w) = v == w
contains_payload _ _ = false
