-- ===== src/Tests/Metadata.antt =====
-- The metadata of a wallet, read, written and extended.
use openid4vp.Common.{List, [], ◌∷◌, ◌++◌, none, some, ok, ◌≡◌, ◌≢◌, ◌↔◌, refl}
use openid4vp.Json.{string, array, cons, nil, object, end}
use openid4vp.Object.{UntypedObject, get, get_or_default}
use openid4vp.Parameters.Prefix
use openid4vp.Parameters.Prefix.{ClientIdPrefix, x509_hash, pre_registered}
use openid4vp.Parameters.ResponseType.{ResponseType}
use openid4vp.Verification.Metadata
use openid4vp.Verification.Metadata.{WalletMetadata, MetadataSerde}
use openid4vp.Metadata.Parameters
use openid4vp.Metadata.Parameters.{default_client_id_prefixes}
use openid4vp.Metadata.Wallet.{
  new, is_client_id_prefix_supported, add_client_id_prefixes_supported, into_object, try_from,
}
use openid4vp.Metadata.Wallet.Reading.{Reads, try_from_metadata_iff}
use openid4vp.Metadata.Wallet.Writing.{Kept, try_from-into_object, into_object-new-IsUnreadable}
use openid4vp.Metadata.Wallet.Additions.{add_client_id_prefixes_supported_lem}
use openid4vp.Tests.Requests.{serde, metadata_serde, wallet_metadata, formats}

abbrev ms : MetadataSerde
ms = record metadata_serde { to_texts = λ v. ok ("vp_token" ∷ []) }

abbrev declared : UntypedObject
declared = record {
  map =
      ("authorization_endpoint", string "openid4vp:")
      ∷ ("vp_formats_supported", object end)
      ∷ ("response_types_supported", object end)
      ∷ [];
}

abbrev metadata : WalletMetadata
metadata = record (new "openid4vp:" formats (ResponseType.vp_token ∷ []) none) { inner = declared }

try_from_metadata_iff_example :
    (try_from serde ms declared ≡ ok metadata) ↔ Reads serde ms declared metadata
try_from_metadata_iff_example = try_from_metadata_iff serde ms declared metadata

-- Metadata whose endpoint and formats are in its fields only.
abbrev made : WalletMetadata
made =
    new "openid4vp:" formats (ResponseType.vp_token ∷ [])
      (some (record { map = ("response_types_supported", object end) ∷ [] }))

abbrev read_back : WalletMetadata
read_back = record made { inner = into_object serde ms made }

try_from-into_object_example :
    (try_from serde ms (into_object serde ms made) ≡ ok read_back) ↔ Kept serde ms made read_back
unfolding new
try_from-into_object_example = try_from-into_object serde ms made read_back refl refl refl

abbrev untyped : UntypedObject
untyped = record { map = ("issuer", string "wallet") ∷ [] }

holds_no_types :
    (ts : List ResponseType) → get (Parameters.response_types_supported ms) untyped ≢ some (ok ts)
unfolding get
holds_no_types ts h = cc

into_object-new-IsUnreadable_example :
    try_from serde ms
      (into_object serde ms (new "openid4vp:" formats (ResponseType.vp_token ∷ []) (some untyped)))
    ≢ ok metadata
into_object-new-IsUnreadable_example =
    into_object-new-IsUnreadable serde ms "openid4vp:" formats (ResponseType.vp_token ∷ [])
      (some untyped) metadata refl holds_no_types

abbrev extended : WalletMetadata
extended = record wallet_metadata {
  inner = record {
    map =
        (
          "client_id_prefixes_supported",
          array (cons (string "pre-registered") (cons (string "x509_hash") nil)),
        )
        ∷ [];
  };
}

adds_prefix :
    add_client_id_prefixes_supported serde ms wallet_metadata (x509_hash ∷ []) ≡ ok extended
unfolding add_client_id_prefixes_supported Prefix.into_string
adds_prefix = refl

add_client_id_prefixes_supported_lem_example :
    (before : List ClientIdPrefix) × (get_or_default
        (Metadata.client_id_prefixes_supported serde ms)
        default_client_id_prefixes
        wallet_metadata.inner
      ≡ ok before)
    × (get_or_default
          (Metadata.client_id_prefixes_supported serde ms)
          default_client_id_prefixes
          extended.inner
        ≡ ok (before ++ (x509_hash ∷ [])))
    × ((p : ClientIdPrefix)
        → is_client_id_prefix_supported extended p
          ≡ is_client_id_prefix_supported wallet_metadata p)
add_client_id_prefixes_supported_lem_example =
    add_client_id_prefixes_supported_lem serde ms wallet_metadata extended (x509_hash ∷ [])
      (λ t. refl) adds_prefix
