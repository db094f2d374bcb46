-- ===== src/App/Tests.antt =====
-- Runs of the app, and its theorems at concrete inputs.
use project_pn.Prelude.{
  ◌≡◌, ◌≢◌, refl, String, true, false, none, some, List, [], ◌∷◌, get, put, remove, arith,
}
use project_pn.Api.Client.{api_error}
use project_pn.Auth.Storage.{
  SessionResponse, SessionStorage, KeyValue, create_key_value_storage, create_browser_storage,
}
use project_pn.App.Store.{AppStorage, resolving}
use project_pn.App.Session.{
  from_launch, from_link, unauthenticated, authenticated, launched_app, main_screen, shown, Event,
  launched, opened, passed, failed, unauthorized, onboarded, run, handle, initialize, session_came,
  begin_check, check_passed, session_for_extension,
}
use project_pn.App.FailClosed.{fails-closed}
use project_pn.App.Extension.{run-sent}
use project_pn.App.Crossing.{crossing-clears}

abbrev table : KeyValue (List (String × String))
table = record { get_item = get; set_item = put; delete_item = remove }

abbrev phone : SessionStorage (List (String × String))
phone = create_key_value_storage table

abbrev resolving_phone : AppStorage (List (String × String))
resolving_phone = resolving phone

abbrev page : String
page = "page"

abbrev fresh : SessionResponse
fresh = record { token = "t"; refresh_token = "r"; expires_at = "e" }

abbrev signing_in : List Event
signing_in = launched (some fresh) ∷ onboarded ∷ []

shown_test :
    shown (
      run resolving_phone false false "soon"
        (launched (some fresh) ∷ onboarded ∷ passed from_launch ∷ [])
        (launched_app []))
    ≡ main_screen
unfolding shown handle initialize session_came begin_check check_passed session_for_extension
    create_key_value_storage
shown_test = refl

fails-closed_example :
    ((handle resolving_phone false false "soon"
        (failed from_launch (api_error 503 "down" none true))
        (run resolving_phone false false "soon" signing_in (launched_app []))).world
      ≡ [])
    × (shown (
          run resolving_phone false false "soon"
            (failed from_launch (api_error 503 "down" none true)
              ∷ opened (some fresh)
              ∷ unauthorized
              ∷ [])
            (run resolving_phone false false "soon" signing_in (launched_app [])))
        ≢ main_screen)
unfolding handle initialize session_came begin_check create_key_value_storage
fails-closed_example =
    fails-closed resolving_phone false false "soon"
      (failed from_launch (api_error 503 "down" none true))
      (opened (some fresh) ∷ unauthorized ∷ [])
      (run resolving_phone false false "soon" signing_in (launched_app [])) (omega arith)
      (refl, (refl, tt))

run-sent_example :
    (run
      (resolving create_browser_storage)
      true
      true
      "soon"
      (launched (some fresh) ∷ passed from_launch ∷ [])
      (launched_app page)).sent
    ≡ []
run-sent_example = run-sent true "soon" (launched (some fresh) ∷ passed from_launch ∷ []) page

crossing-clears_example :
    ((run resolving_phone false false "soon"
        (opened (some fresh) ∷ passed from_link ∷ [])
        (run resolving_phone false false "soon" signing_in (launched_app []))).auth_state
      ≡ authenticated)
    × ((run resolving_phone false false "soon"
          (opened (some fresh)
            ∷ passed from_link
            ∷ failed from_launch (api_error 401 "" none false)
            ∷ [])
          (run resolving_phone false false "soon" signing_in (launched_app []))).auth_state
        ≡ unauthenticated)
    × ((run resolving_phone false false "soon"
          (opened (some fresh)
            ∷ passed from_link
            ∷ failed from_launch (api_error 401 "" none false)
            ∷ [])
          (run resolving_phone false false "soon" signing_in (launched_app []))).world
        ≡ [])
unfolding handle initialize session_came begin_check create_key_value_storage
crossing-clears_example =
    crossing-clears phone false "soon" fresh (api_error 401 "" none false)
      (run resolving_phone false false "soon" signing_in (launched_app [])) from_launch false refl
      (omega arith)
