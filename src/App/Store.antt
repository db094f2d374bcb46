-- ===== src/App/Store.antt =====
-- The storage of the session as frontend/App.tsx awaits it: the calls of
-- frontend/src/api/sessionStorage.ts, which may reject.
-- A read gives a value or an error; a change gives whether it resolved, and what is stored after it.
use project_pn.Prelude.{String, Bool, true, ◌⊎◌, inr, Option}
use project_pn.Api.Client.{Error}
use project_pn.Auth.Storage.{SessionResponse, SessionStorage}

pub record AppStorage (World : Type 0) : Type 0 where
  pub get_token : World → Error ⊎ Option String
  pub get_refresh_token : World → Error ⊎ Option String
  pub get_expires_at : World → Error ⊎ Option String
  pub set_session : SessionResponse → World → Bool × World
  pub clear_session : World → Bool × World

-- A storage whose calls never reject.
abbrev pub resolving : {World : Type 0} → SessionStorage World → AppStorage World
resolving storage = record {
  get_token = λ w. inr (storage.get_token w);
  get_refresh_token = λ w. inr (storage.get_refresh_token w);
  get_expires_at = λ w. inr (storage.get_expires_at w);
  set_session = λ session w. (true, storage.set_session session w);
  clear_session = λ w. (true, storage.clear_session w);
}
