-- ===== src/Lib.antt =====
-- openid4vp is a library for OpenID for Verifiable Presentations. A verifier builds an authorization
-- request, which asks for credentials by a presentation definition or a DCQL query; a wallet reads
-- the request, verifies it and answers with a presentation and a presentation submission, in which
-- the verifier finds and validates the inputs that it asked for.
--
-- Which file models which part of the code:
--   Error: src/core/error.rs, the error values and their printed types.
--   Object: src/core/object/mod.rs, typed access to an untyped JSON object. A typed parameter is a
--     record of its key and its conversions.
--   Parameters: src/core/authorization_request/parameters.rs. ClientId, Prefix, ResponseMode,
--     ResponseType and Algorithms hold a type each, with what parses and prints it.
--   AuthorizationRequest: src/core/authorization_request/mod.rs. Typed holds the parameters of a
--     request object, Object reads a request object from an untyped one (try_from), Signed retrieves
--     and resolves signed requests (resolve_auth_request), Signed/Parsing is what serde derives from
--     the attributes of SignedAuthorizationRequest for reading one from a map, Url reads requests
--     from a URL and writes them to one (from_url, into_url), and resolves the query
--     (resolve_presentation_query).
--   Verification: src/core/authorization_request/verification/mod.rs. Metadata holds the fields of
--     WalletMetadata (src/core/metadata) that verification reads, Validation the checks against
--     them, Request the trait RequestVerifier and verify_request. A wallet is a record of the
--     functions that an application implements. X509 is x509_san.rs beside it (validate), Did is
--     did.rs (verify_with_resolver).
--   Metadata: src/core/metadata. Parameters holds the typed parameters and their defaults, Wallet
--     the construction of WalletMetadata, its reading and writing (try_from, into_object) and its
--     adders. The record itself is in Verification/Metadata.
--   Verifier: src/verifier. Client holds the clients of client.rs, which sign a request object,
--     Party the verifier and its builder (mod.rs), ByReference the form in which a request is sent,
--     Checks the checks of a query and RequestBuilder the rest of request_builder.rs (build). The
--     builder, which its methods take and return, is a record.
--   Response: src/core/response. Token holds ID tokens and VP tokens (parameters.rs), Authorization
--     the responses and their form (mod.rs).
--   Wallet: the methods of the trait in src/wallet.rs that it provides (validate_request,
--     submit_response, generate_did_based_id_token).
--   Signer: src/signer.rs, and the codecs and certificates that signing and verifying rely on.
--   Http: src/core/util/http.rs, requests and the trait of the client.
--   CredentialFormat: src/core/credential_format/mod.rs, designations, formats and payloads.
--   InputDescriptor: src/core/input_descriptor.rs, the constraints of a descriptor and how a value
--     is matched against them (matches, query_field).
--   PresentationDefinition: src/core/presentation_definition.rs, the definition, its adders and
--     is_credential_match.
--   PresentationSubmission: src/core/presentation_submission.rs. Types holds the data, Grouping
--     group_by_input_descriptor and the index by descriptor, Find the search for inputs
--     (find_inputs), Requirement the validation of submission requirements, which stands in
--     src/core/presentation_definition.rs, and find_and_validate_inputs.
--   Dcql: src/core/dcql.rs, identifiers and trusted authorities in Authority, queries and their
--     builders in Query.
--   Utils: src/utils.rs.
--   Json: JSON values as the code uses them. Common: the names that all files share, such as results,
--     maps as lists of entries, and the equality of keys.
--   Tests: the theorems at concrete inputs.
--
-- A vector is a list, a hash map a list of entries in the order of its iteration. The code that
-- pushes to a vector of inputs takes and returns the list. A failure that the code returns is an
-- error value; the search for inputs has the panic of an index out of range as an outcome of its
-- own. Every recursion is structural, so there is no fuel. Numbers are counts and indices of lists
-- in memory, which do not overflow.
--
-- Code of other crates is a parameter: serde's from_value at a type, the query of a JSONPath, JSON
-- Schema validation, regular expressions, base64url, SHA-256, DID parsing and resolution, the
-- parsing of X.509 certificates, the splitting and the verification of a JWT, the sending of an HTTP
-- request, the parts of a URL, form encoding, the clock, the decoding of claims, and the iteration
-- order of a HashSet, which is only assumed to hold the items that were collected. A URL, an origin,
-- a JSONPath and a compiled schema are the texts or values they are made from. An asynchronous call is a call,
-- so a wallet and a verifier are taken one step at a time. Whether debug assertions are on, which
-- decides how an error with a source is printed, is an argument.
--
-- Not modelled: the URL encoding of wallet metadata, the items of transaction data, hints of
-- credential types and requested fields, P256Verifier and ReqwestClient, which only call their
-- libraries, the frontend types; and src/verifier/session.rs, which no module declares.
pub mod AuthorizationRequest
pub mod Common
pub mod Json
pub mod Dcql
pub mod Error
pub mod Object
pub mod Parameters
pub mod Utils
pub mod Http
pub mod Metadata
pub mod Verification
pub mod Verifier
pub mod Wallet
pub mod Signer
pub mod CredentialFormat
pub mod InputDescriptor
pub mod PresentationDefinition
pub mod PresentationSubmission
pub mod Response
mod Tests
