-- ===== src/Metadata/Wallet/Additions.antt =====
-- Client identifier prefixes that are added to the metadata of a wallet.
use openid4vp.Common.{
  String, List, [], ◌∷◌, ◌++◌, some, Result, ok, Anyhow, ◌≡◌, refl, >>=-eq-ok, string_eq, arith, ap,
  ◌∙◌,
}
use openid4vp.Json.{Json, string}
use openid4vp.Object.{UntypedObject, TypedParameter, get, get_or_default, insert}
use openid4vp.Object.Laws.{get-insert}
use openid4vp.Parameters.Prefix
use openid4vp.Parameters.Prefix.{ClientIdPrefix}
use openid4vp.AuthorizationRequest.Typed.{Serde}
use openid4vp.Verification.Metadata
use openid4vp.Verification.Metadata.{
  WalletMetadata, MetadataSerde, prefixes_from, parse_prefixes, prefixes_to,
}
use openid4vp.Metadata.Parameters.{default_client_id_prefixes}
use openid4vp.Metadata.Wallet.{is_client_id_prefix_supported, add_client_id_prefixes_supported}

-- What `serde_json::from_value` reads a text as.
abbrev pub ReadsTexts : (Json → Result Anyhow String) → Type 0
ReadsTexts to_text = (t : String) → to_text (string t) ≡ ok t

pub parse_prefixes-prefixes_to :
    (to_text : Json → Result Anyhow String)
    → ReadsTexts to_text
    → (ps : List ClientIdPrefix)
    → prefixes_from to_text (Json.array (openid4vp.Json.of_items (prefixes_to ps))) ≡ ok ps
unfolding prefixes_from parse_prefixes
parse_prefixes-prefixes_to to_text reads [] = refl
parse_prefixes-prefixes_to to_text reads (p ∷ ps) = ground (
  arith,
  reads (Prefix.into_string p),
  Prefix.try_from-into_string p,
  parse_prefixes-prefixes_to to_text reads ps,
)

get_or_default_of_get :
    {T : Type 0} (p : TypedParameter T) (default : T) (o : UntypedObject) {t : T}
    → get p o ≡ some (ok t)
    → get_or_default p default o ≡ ok t
unfolding get get_or_default
get_or_default_of_get p default o h = rw h

module _ (s : Serde) (ms : MetadataSerde) where
  -- Prefixes that are added are read from the untyped object behind those that it had before, and
  -- the list that `is_client_id_prefix_supported` consults does not change.
  pub add_client_id_prefixes_supported_lem :
      (w w' : WalletMetadata) (ps : List ClientIdPrefix)
      → ReadsTexts s.to_text
      → add_client_id_prefixes_supported s ms w ps ≡ ok w'
      → (before : List ClientIdPrefix) × (get_or_default
            (Metadata.client_id_prefixes_supported s ms)
            default_client_id_prefixes
            w.inner
          ≡ ok before)
        × (get_or_default
              (Metadata.client_id_prefixes_supported s ms)
              default_client_id_prefixes
              w'.inner
            ≡ ok (before ++ ps))
        × ((p : ClientIdPrefix)
            → is_client_id_prefix_supported w' p ≡ is_client_id_prefix_supported w p)
  unfolding add_client_id_prefixes_supported is_client_id_prefix_supported get_or_default insert
  add_client_id_prefixes_supported_lem w w' ps reads h =
      let (before, read, e) =
        >>=-eq-ok
          (get_or_default (Metadata.client_id_prefixes_supported s ms) default_client_id_prefixes
            w.inner)
          _ h in
      let p = Metadata.client_id_prefixes_supported s ms in
      let parsed = parse_prefixes-prefixes_to s.to_text reads (before ++ ps) in
      let stored = get-insert p p (before ++ ps) w.inner refl in
      let same : w'.inner ≡ (insert p (before ++ ps) w.inner).0 = cc in
      (
        before,
        read,
        rw same (get_or_default_of_get p default_client_id_prefixes _ (stored ∙ ap some parsed)),
        λ q. cc,
      )
