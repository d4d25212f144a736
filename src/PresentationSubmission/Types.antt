-- ===== src/PresentationSubmission/Types.antt =====
-- core/presentation_submission.rs: submissions, decoded inputs and the errors.
use openid4vp.Common.{ℕ, String, List, Option, Result}
use openid4vp.Common.Dict.{Dict}
use openid4vp.Json.{Json}
use openid4vp.CredentialFormat.Designation.{ClaimFormatDesignation}
use openid4vp.CredentialFormat.Payload.{ClaimFormatPayload}
use openid4vp.InputDescriptor.{GroupId, JsonPath}

-- The two constructors are a `path_nested` of `None` and of `Some`.
pub data DescriptorMap : Type 0 where
  flat : (id : String) (format : ClaimFormatDesignation) (path : JsonPath) → DescriptorMap
  nesting :
      (id : String) (format : ClaimFormatDesignation) (path : JsonPath)
      (path_nested : DescriptorMap)
      → DescriptorMap

abbrev pub map_id : DescriptorMap → String
map_id (flat id format path) = id
map_id (nesting id format path n) = id

unfoldable pub new : String → ClaimFormatDesignation → JsonPath → DescriptorMap
new id format path = flat id format path

abbrev with_id : String → DescriptorMap → DescriptorMap
with_id id (flat _ format path) = flat id format path
with_id id (nesting _ format path n) = nesting id format path n

-- The nested map gets the identifier of its parent.
unfoldable pub set_path_nested : DescriptorMap → DescriptorMap → DescriptorMap
set_path_nested (flat id format path) n = nesting id format path (with_id id n)
set_path_nested (nesting id format path _) n = nesting id format path (with_id id n)

pub record PresentationSubmission : Type 0 where
  pub id : String
  pub definition_id : String
  pub descriptor_map : List DescriptorMap

-- `nested` maps an identifier to indices of inputs.
pub record DecodedInput (T : Type 0) : Type 0 where
  pub descriptor_id : String
  pub format : ClaimFormatDesignation
  pub value : T
  pub nested : Dict String (List ℕ)

pub record MatchingInputs (T : Type 0) : Type 0 where
  pub inputs : List (DecodedInput T)
  pub by_descriptor : Dict String (List ℕ)

pub data ClaimDecodingError : Type 0 where
  unknown_format : ClaimFormatDesignation → ClaimDecodingError
  invalid : String → ClaimDecodingError

pub data SubmissionValidationError : Type 0 where
  missing_required_input : String → SubmissionValidationError
  selection_too_small : (group : GroupId) (min found : ℕ) → SubmissionValidationError
  selection_too_large : (group : GroupId) (max found : ℕ) → SubmissionValidationError
  selection_size_mismatch : (group : GroupId) (expected found : ℕ) → SubmissionValidationError

pub data SubmissionError : Type 0 where
  decoding : ClaimDecodingError → SubmissionError
  nesting_unsupported : ClaimFormatDesignation → SubmissionError
  undefined_input_descriptor : String → SubmissionError
  format_mismatch : ClaimFormatDesignation → SubmissionError
  validation : SubmissionValidationError → SubmissionError

-- What a call ends with when it does not return: its error, or the panic of an index out of range.
pub data Fault : Type 0 where
  failed : SubmissionError → Fault
  panicked : Fault

-- The trait `ClaimsDecoder<T>`, which an application implements.
abbrev pub ClaimsDecoder : Type 0 → Type 0
ClaimsDecoder T =
    Json
    → ClaimFormatDesignation
    → Option ClaimFormatPayload
    → Result ClaimDecodingError (T × Option Json)
