-- ===== src/Dcql/Query.antt =====
-- core/dcql.rs: credential queries, credential sets, metadata and claims, with their builders.
use openid4vp.Common.{ℕ, String, Bool, Option, none, some, Result, Anyhow}
use openid4vp.Json.{Json}
use openid4vp.Utils.{from_string_or_value}
use openid4vp.Utils.NonEmpty
use openid4vp.Utils.NonEmpty.{NonEmptyVec}
use openid4vp.CredentialFormat.Designation.{ClaimFormatDesignation}
use openid4vp.Dcql.Authority.{DcqlId, TrustedAuthority}

-- The branches of the `if let` of the builders that add to an optional list.
abbrev pub add_to {ℓ} : {A : Type ℓ} → Option (NonEmptyVec A) → A → Option (NonEmptyVec A)
add_to none item = some (NonEmpty.new item)
add_to (some items) item = some (NonEmpty.push items item)

pub data PathValue : Type 0 where
  string : String → PathValue
  usize : ℕ → PathValue
  null : PathValue

pub data ValueType : Type 0 where
  string : String → ValueType
  integer : ℕ → ValueType
  boolean : Bool → ValueType

pub record DcqlClaim : Type 0 where
  pub id : Option DcqlId
  pub path : NonEmptyVec PathValue
  pub values : Option (NonEmptyVec ValueType)

pub record DcqlMeta : Type 0 where
  pub vct_values : Option (NonEmptyVec String)
  pub type_values : Option (NonEmptyVec (NonEmptyVec String))
  pub doctype_value : Option String

pub record DcqlCredentialSet : Type 0 where
  pub options : NonEmptyVec (NonEmptyVec String)
  pub required : Option Bool

pub record DcqlCredential : Type 0 where
  pub id : DcqlId
  pub format : ClaimFormatDesignation
  pub meta : DcqlMeta
  pub multiple : Option Bool
  pub claims : Option (NonEmptyVec DcqlClaim)
  pub claim_sets : Option (NonEmptyVec (NonEmptyVec String))
  pub require_cryptographic_holder_binding : Option Bool
  pub trusted_authorities : Option (NonEmptyVec TrustedAuthority)

pub record Dcql : Type 0 where
  pub credentials : NonEmptyVec DcqlCredential
  pub credential_sets : Option (NonEmptyVec DcqlCredentialSet)

unfoldable pub new_dcql : NonEmptyVec DcqlCredential → Dcql
new_dcql credentials = record { credentials = credentials; credential_sets = none }

unfoldable pub add_credential : Dcql → DcqlCredential → Dcql
unfolding NonEmpty.push
add_credential d credential = record d { credentials = NonEmpty.push d.credentials credential }

unfoldable pub add_credential_set : Dcql → DcqlCredentialSet → Dcql
unfolding NonEmpty.push NonEmpty.new
add_credential_set d credential_set = record d {
  credential_sets = add_to d.credential_sets credential_set;
}

-- `TryFrom<Json> for DCQL`; the parameters are `from_str` and `from_value` at the type.
unfoldable pub dcql_try_from :
    (String → Result Anyhow Dcql) → (Json → Result Anyhow Dcql) → Json → Result Anyhow Dcql
unfolding from_string_or_value
dcql_try_from from_str from_value raw = from_string_or_value from_str from_value raw

unfoldable pub new_credential : DcqlId → ClaimFormatDesignation → DcqlMeta → DcqlCredential
new_credential id format meta = record {
  id = id;
  format = format;
  meta = meta;
  multiple = none;
  claims = none;
  claim_sets = none;
  require_cryptographic_holder_binding = none;
  trusted_authorities = none;
}

unfoldable pub set_credential_id : DcqlCredential → DcqlId → DcqlCredential
set_credential_id c id = record c { id = id }

unfoldable pub set_format : DcqlCredential → ClaimFormatDesignation → DcqlCredential
set_format c format = record c { format = format }

unfoldable pub set_meta : DcqlCredential → DcqlMeta → DcqlCredential
set_meta c meta = record c { meta = meta }

unfoldable pub set_multiple : DcqlCredential → Bool → DcqlCredential
set_multiple c multiple = record c { multiple = some multiple }

unfoldable pub set_require_cryptographic_holder_binding : DcqlCredential → Bool → DcqlCredential
set_require_cryptographic_holder_binding c require = record c {
  require_cryptographic_holder_binding = some require;
}

unfoldable pub set_claims : DcqlCredential → NonEmptyVec DcqlClaim → DcqlCredential
set_claims c claims = record c { claims = some claims }

unfoldable pub add_claim : DcqlCredential → DcqlClaim → DcqlCredential
unfolding NonEmpty.push NonEmpty.new
add_claim c claim = record c { claims = add_to c.claims claim }

unfoldable pub set_claim_sets : DcqlCredential → NonEmptyVec (NonEmptyVec String) → DcqlCredential
set_claim_sets c sets = record c { claim_sets = some sets }

unfoldable pub add_claim_set : DcqlCredential → NonEmptyVec String → DcqlCredential
unfolding NonEmpty.push NonEmpty.new
add_claim_set c claim_set = record c { claim_sets = add_to c.claim_sets claim_set }

unfoldable pub set_trusted_authorities :
    DcqlCredential → NonEmptyVec TrustedAuthority → DcqlCredential
set_trusted_authorities c authorities = record c { trusted_authorities = some authorities }

unfoldable pub new_credential_set : NonEmptyVec (NonEmptyVec String) → DcqlCredentialSet
new_credential_set options = record { options = options; required = none }

unfoldable pub add_option : DcqlCredentialSet → NonEmptyVec String → DcqlCredentialSet
unfolding NonEmpty.push
add_option s option = record s { options = NonEmpty.push s.options option }

unfoldable pub set_required : DcqlCredentialSet → Bool → DcqlCredentialSet
set_required s required = record s { required = some required }

unfoldable pub new_meta : DcqlMeta
new_meta = record { vct_values = none; type_values = none; doctype_value = none }

unfoldable pub set_vct_values : DcqlMeta → NonEmptyVec String → DcqlMeta
set_vct_values m values = record m { vct_values = some values }

unfoldable pub set_type_values : DcqlMeta → NonEmptyVec (NonEmptyVec String) → DcqlMeta
set_type_values m values = record m { type_values = some values }

unfoldable pub set_doctype_value : DcqlMeta → String → DcqlMeta
set_doctype_value m value = record m { doctype_value = some value }

unfoldable pub new_claim : NonEmptyVec PathValue → DcqlClaim
new_claim path = record { id = none; path = path; values = none }

unfoldable pub set_claim_id : DcqlClaim → DcqlId → DcqlClaim
set_claim_id c id = record c { id = some id }

unfoldable pub set_path : DcqlClaim → NonEmptyVec PathValue → DcqlClaim
set_path c path = record c { path = path }

unfoldable pub set_values : DcqlClaim → NonEmptyVec ValueType → DcqlClaim
set_values c values = record c { values = some values }
