-- ===== src/Add/Errors.antt =====
-- The error that a failed addition shows: frontend/src/utils/addErrors.ts.
use project_pn.Prelude.{
  String, Bool, true, false, Option, none, some, List, [], ◌∷◌, eqb, if◌then◌else◌, get,
}
use project_pn.Api.Client.{Error, api_error, plain_error}

pub record AddErrorInfo : Type 0 where
  pub code : String
  pub message_key : String
  pub retryable : Bool

-- An entry of `ADD_ERROR_INFO`.
abbrev entry : String → String → Bool → String × AddErrorInfo
entry code key retryable = (code, record { code = code; message_key = key; retryable = retryable })

abbrev pub add_error_info : List (String × AddErrorInfo)
add_error_info =
    entry "ADD-301" "add.error.invalidRequest" false
    ∷ entry "ADD-302" "add.error.senseNotFound" false
    ∷ entry "ADD-303" "add.error.noAdditionalSense" false
    ∷ entry "ADD-304" "add.error.translationUnavailable" false
    ∷ entry "ADD-305" "add.error.deckNotFound" false
    ∷ entry "ADD-306" "add.error.deckUnavailable" false
    ∷ entry "ADD-307" "add.error.languageInvalid" false
    ∷ entry "ADD-308" "add.error.alreadyAdded" false
    ∷ entry "ADD-401" "add.error.languageUnsupported" false
    ∷ entry "ADD-402" "add.error.enrichmentUnavailable" false
    ∷ entry "ADD-403" "add.error.providerUnavailable" true
    ∷ entry "ADD-404" "add.error.providerInvalid" true
    ∷ entry "AUTH-101" "add.error.signInRequired" false
    ∷ entry "AUTH-102" "add.error.authUnavailable" true
    ∷ entry "AUTH-599" "add.error.unknown" true
    ∷ entry "SEC-101" "add.error.securityCheck" true
    ∷ entry "SEC-102" "add.error.securityCheck" true
    ∷ entry "SEC-599" "add.error.unknown" true
    ∷ []

abbrev pub unknown : AddErrorInfo
unknown = record { code = "ADD-599"; message_key = "add.error.unknown"; retryable = true }

abbrev pub network : AddErrorInfo
network = record { code = "ADD-101"; message_key = "add.error.network"; retryable = true }

-- The entry of a code; the codes of the table are not empty.
unfoldable pub known_error : Option String → AddErrorInfo
known_error none = unknown
known_error (some code) = elim (get add_error_info code) [ none ↦ unknown | some info ↦ info ]

unfoldable pub classify_add_error : Error → AddErrorInfo
unfolding known_error
classify_add_error (plain_error message) = unknown
classify_add_error (api_error status message code retryable) =
    if eqb status 0 then network else known_error code
