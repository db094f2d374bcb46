-- ===== src/Auth/Tests.antt =====
-- Runs of the session's storage and renewal, and their theorems at concrete inputs.
use project_pn.Prelude.{
  ℕ, ◌≡◌, refl, String, true, false, Option, some, List, [], ◌∷◌, get, put, remove, get-put,
  get-remove,
}
use project_pn.Auth.Storage.{
  SessionResponse, KeyValue, IsMap, create_key_value_storage, local_storage, extension_storage,
}
use project_pn.Auth.StorageOps.{observe, set_session, set_token, Op, run, replay, run-replay}
use project_pn.Auth.Expiry.{ms_until_refresh}
use project_pn.Auth.Renewal.{no_renewal, begin_schedule, expiry_read, unmount, renew_bearer_session}
use project_pn.Auth.Timers.{start, Steps-HasOneTimer, unmounted-sets-timer}

abbrev table : KeyValue (List (String × String))
table = record { get_item = get; set_item = put; delete_item = remove }

table-IsMap : IsMap table
table-IsMap = record {
  get_set = λ w k v j. get-put w k j v;
  get_delete = λ w k j. get-remove w k j;
}

abbrev signed_in : SessionResponse
signed_in = record { token = "t"; refresh_token = "r"; expires_at = "e" }

abbrev calls : List Op
calls = set_session signed_in ∷ set_token "u" ∷ []

stored_test :
    observe (create_key_value_storage table) (run (create_key_value_storage table) calls [])
    ≡ record { token = some "u"; refresh_token = some "r"; expires_at = some "e" }
unfolding create_key_value_storage
stored_test = refl

run-replay_example :
    (observe (create_key_value_storage table) (run (create_key_value_storage table) calls [])
      ≡ replay calls (observe (create_key_value_storage table) []))
    × (observe
          (create_key_value_storage (local_storage table))
          (run (create_key_value_storage (local_storage table)) calls (some []))
        ≡ replay calls (observe (create_key_value_storage (local_storage table)) (some [])))
    × (observe (extension_storage table) (run (extension_storage table) calls [])
        ≡ replay calls (observe (extension_storage table) []))
run-replay_example = run-replay table table-IsMap calls []

renewal_test :
    renew_bearer_session
      (create_key_value_storage table)
      (λ token. some signed_in)
      (run (create_key_value_storage table) calls [])
    ≡ (true, run (create_key_value_storage table) (set_session signed_in ∷ []) [])
unfolding renew_bearer_session create_key_value_storage
renewal_test = refl

-- Every text is an hour.
abbrev hour : String → Option ℕ
hour text = some 3600000

unmounted-sets-timer_example :
    (expiry_read hour (some "e") 0 (unmount (begin_schedule true false no_renewal))).timers
    ≡ (0, 3300000) ∷ []
unfolding ms_until_refresh
unmounted-sets-timer_example =
    unmounted-sets-timer hour no_renewal (some "e") 0 3300000
      (Steps-HasOneTimer {time_of = hour} start) refl
