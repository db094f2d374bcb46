-- ===== src/Auth/Storage.antt =====
-- Where a session is kept: frontend/src/api/sessionStorage.ts, and extensionStorage of
-- browser-extension/src/auth/storage.ts.
-- The key-value stores (SecureStore, localStorage, chrome.storage.local) are a parameter over a
-- `World`; the promises of one call are awaited in turn.
use project_pn.Prelude.{String, Option, none, some, ◌==◌, ◌≡◌, if◌then◌else◌}

-- `SessionResponse`
pub record SessionResponse : Type 0 where
  pub token : String
  pub refresh_token : String
  pub expires_at : String

pub record KeyValue (World : Type 0) : Type 0 where
  pub get_item : World → String → Option String
  pub set_item : World → String → String → World
  pub delete_item : World → String → World

-- What the platforms document: a key reads as it was last written, until it is deleted.
pub record IsMap {World : Type 0} (kv : KeyValue World) : Type 0 where
  pub get_set :
      (w : World) (k : String) (v : String) (j : String)
      → kv.get_item (kv.set_item w k v) j ≡ (if k == j then some v else kv.get_item w j)
  pub get_delete :
      (w : World) (k j : String)
      → kv.get_item (kv.delete_item w k) j ≡ (if k == j then none else kv.get_item w j)

pub record SessionStorage (World : Type 0) : Type 0 where
  pub get_token : World → Option String
  pub get_refresh_token : World → Option String
  pub get_expires_at : World → Option String
  pub set_session : SessionResponse → World → World
  pub set_token : String → World → World
  pub remove_token : World → World
  pub clear_session : World → World

abbrev pub token_key : String
token_key = "project_pn_session_token"

abbrev pub refresh_token_key : String
refresh_token_key = "project_pn_refresh_token"

abbrev pub expires_at_key : String
expires_at_key = "project_pn_session_expires_at"

abbrev pub extension_token_key : String
extension_token_key = "pn_token"

abbrev pub extension_refresh_token_key : String
extension_refresh_token_key = "pn_refresh_token"

abbrev pub extension_expires_at_key : String
extension_expires_at_key = "pn_expires_at"

unfoldable pub create_browser_storage : {World : Type 0} → SessionStorage World
create_browser_storage = record {
  get_token = λ w. none;
  get_refresh_token = λ w. none;
  get_expires_at = λ w. none;
  set_session = λ session w. w;
  set_token = λ token w. w;
  remove_token = λ w. w;
  clear_session = λ w. w;
}

module _ {World : Type 0} (kv : KeyValue World) where
  unfoldable pub create_key_value_storage : SessionStorage World
  create_key_value_storage = record {
    get_token = λ w. kv.get_item w token_key;
    get_refresh_token = λ w. kv.get_item w refresh_token_key;
    get_expires_at = λ w. kv.get_item w expires_at_key;
    set_session = λ session w.
        kv.set_item
          (kv.set_item (kv.set_item w token_key session.token) refresh_token_key
            session.refresh_token)
          expires_at_key session.expires_at;
    set_token = λ token w. kv.set_item w token_key token;
    remove_token = λ w. kv.delete_item w token_key;
    clear_session = λ w.
        kv.delete_item (kv.delete_item (kv.delete_item w token_key) refresh_token_key)
          expires_at_key;
  }

  -- The callbacks of `createTauriStorage`; without a `localStorage` the world is `none`.
  unfoldable pub local_storage : KeyValue (Option World)
  local_storage = record {
    get_item = λ w key. elim w [ none ↦ none | some local ↦ kv.get_item local key ];
    set_item =
        λ w key value. elim w [ none ↦ none | some local ↦ some (kv.set_item local key value) ];
    delete_item = λ w key. elim w [ none ↦ none | some local ↦ some (kv.delete_item local key) ];
  }

  -- The session part of `extensionStorage`.
  unfoldable pub extension_storage : SessionStorage World
  extension_storage = record {
    get_token = λ w. kv.get_item w extension_token_key;
    get_refresh_token = λ w. kv.get_item w extension_refresh_token_key;
    get_expires_at = λ w. kv.get_item w extension_expires_at_key;
    set_session = λ session w.
        kv.set_item
          (kv.set_item (kv.set_item w extension_token_key session.token) extension_refresh_token_key
            session.refresh_token)
          extension_expires_at_key session.expires_at;
    set_token = λ token w. kv.set_item w extension_token_key token;
    remove_token = λ w. kv.delete_item w extension_token_key;
    clear_session = λ w.
        kv.delete_item
          (kv.delete_item (kv.delete_item w extension_token_key) extension_refresh_token_key)
          extension_expires_at_key;
  }

  -- The preferences beside it, by their keys.
  unfoldable pub get_default_deck_id : World → Option String
  get_default_deck_id w = kv.get_item w "pn_default_deck_id"

  unfoldable pub set_default_deck_id : String → World → World
  set_default_deck_id id w = kv.set_item w "pn_default_deck_id" id

  unfoldable pub get_target_language : World → Option String
  get_target_language w = kv.get_item w "pn_target_language"

  unfoldable pub set_target_language : String → World → World
  set_target_language code w = kv.set_item w "pn_target_language" code

  unfoldable pub get_display_language : World → Option String
  get_display_language w = kv.get_item w "pn_display_language"

  unfoldable pub set_display_language : String → World → World
  set_display_language code w = kv.set_item w "pn_display_language" code
