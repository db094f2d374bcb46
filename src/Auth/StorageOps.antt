-- ===== src/Auth/StorageOps.antt =====
-- Any sequence of calls of a session's storage: frontend/src/api/sessionStorage.ts and
-- browser-extension/src/auth/storage.ts.
use project_pn.Prelude.{◌≡◌, refl, sym, ap, ◌∙◌, String, Option, none, some, List, [], ◌∷◌}
use project_pn.Auth.Storage.{
  SessionResponse, KeyValue, IsMap, SessionStorage, create_key_value_storage, local_storage,
  extension_storage,
}

-- What a reader of the storage can see.
pub record Stored : Type 0 where
  pub token : Option String
  pub refresh_token : Option String
  pub expires_at : Option String

pub data Op : Type 0 where
  set_session : SessionResponse → Op
  set_token : String → Op
  remove_token : Op
  clear_session : Op

module _ {World : Type 0} (storage : SessionStorage World) where
  abbrev pub observe : World → Stored
  observe w = record {
    token = storage.get_token w;
    refresh_token = storage.get_refresh_token w;
    expires_at = storage.get_expires_at w;
  }

  abbrev pub apply_op : Op → World → World
  apply_op (set_session session) w = storage.set_session session w
  apply_op (set_token token) w = storage.set_token token w
  apply_op remove_token w = storage.remove_token w
  apply_op clear_session w = storage.clear_session w

  abbrev pub run : List Op → World → World
  run [] w = w
  run (op ∷ ops) w = run ops (apply_op op w)

-- The same calls on the three values: a session is set and cleared as a whole.
abbrev pub apply_abstract : Op → Stored → Stored
apply_abstract (set_session session) s = record {
  token = some session.token;
  refresh_token = some session.refresh_token;
  expires_at = some session.expires_at;
}
apply_abstract (set_token token) s = record s { token = some token }
apply_abstract remove_token s = record s { token = none }
apply_abstract clear_session s = record { token = none; refresh_token = none; expires_at = none }

abbrev pub replay : List Op → Stored → Stored
replay [] s = s
replay (op ∷ ops) s = replay ops (apply_abstract op s)

module _ {World : Type 0} (kv : KeyValue World) (laws : IsMap kv) where
  observe-apply_op :
      (op : Op) (w : World)
      → observe (create_key_value_storage kv) (apply_op (create_key_value_storage kv) op w)
        ≡ apply_abstract op (observe (create_key_value_storage kv) w)
  unfolding create_key_value_storage
  observe-apply_op (set_session session) w = simp (laws.get_set)
  observe-apply_op (set_token token) w = simp (laws.get_set)
  observe-apply_op remove_token w = simp (laws.get_delete)
  observe-apply_op clear_session w = simp (laws.get_delete)

  observe-apply_extension :
      (op : Op) (w : World)
      → observe (extension_storage kv) (apply_op (extension_storage kv) op w)
        ≡ apply_abstract op (observe (extension_storage kv) w)
  unfolding extension_storage
  observe-apply_extension (set_session session) w = simp (laws.get_set)
  observe-apply_extension (set_token token) w = simp (laws.get_set)
  observe-apply_extension remove_token w = simp (laws.get_delete)
  observe-apply_extension clear_session w = simp (laws.get_delete)

  -- With a `localStorage`, that of the desktop app is the key-value storage over it.
  apply-local :
      (op : Op) (w : World)
      → apply_op (create_key_value_storage (local_storage kv)) op (some w)
        ≡ some (apply_op (create_key_value_storage kv) op w)
  unfolding create_key_value_storage local_storage
  apply-local (set_session session) w = refl
  apply-local (set_token token) w = refl
  apply-local remove_token w = refl
  apply-local clear_session w = refl

  run-local :
      (ops : List Op) (w : World)
      → run (create_key_value_storage (local_storage kv)) ops (some w)
        ≡ some (run (create_key_value_storage kv) ops w)
  run-local [] w = refl
  run-local (op ∷ ops) w =
      ap (run (create_key_value_storage (local_storage kv)) ops) (apply-local op w)
      ∙ run-local ops (apply_op (create_key_value_storage kv) op w)

  run-key_value :
      (ops : List Op) (w : World)
      → observe (create_key_value_storage kv) (run (create_key_value_storage kv) ops w)
        ≡ replay ops (observe (create_key_value_storage kv) w)
  run-key_value [] w = refl
  run-key_value (op ∷ ops) w =
      run-key_value ops (apply_op (create_key_value_storage kv) op w)
      ∙ ap (replay ops) (observe-apply_op op w)

  run-extension :
      (ops : List Op) (w : World)
      → observe (extension_storage kv) (run (extension_storage kv) ops w)
        ≡ replay ops (observe (extension_storage kv) w)
  run-extension [] w = refl
  run-extension (op ∷ ops) w =
      run-extension ops (apply_op (extension_storage kv) op w)
      ∙ ap (replay ops) (observe-apply_extension op w)

  observe-local :
      (w : World)
      → observe (create_key_value_storage (local_storage kv)) (some w)
        ≡ observe (create_key_value_storage kv) w
  unfolding create_key_value_storage local_storage
  observe-local w = refl

  -- Over a store whose keys read as last written, after any calls the storage of the phone app, of
  -- the desktop app and of the extension each read as three values that are set, replaced and
  -- cleared by the same calls: the keys never mix.
  pub run-replay :
      (ops : List Op) (w : World)
      → (observe (create_key_value_storage kv) (run (create_key_value_storage kv) ops w)
          ≡ replay ops (observe (create_key_value_storage kv) w))
        × (observe
              (create_key_value_storage (local_storage kv))
              (run (create_key_value_storage (local_storage kv)) ops (some w))
            ≡ replay ops (observe (create_key_value_storage (local_storage kv)) (some w)))
        × (observe (extension_storage kv) (run (extension_storage kv) ops w)
            ≡ replay ops (observe (extension_storage kv) w))
  run-replay ops w = (
    run-key_value ops w,
    ap (observe (create_key_value_storage (local_storage kv))) (run-local ops w)
        ∙ observe-local (run (create_key_value_storage kv) ops w)
        ∙ run-key_value ops w
        ∙ ap (replay ops) (sym (observe-local w)),
    run-extension ops w,
  )
