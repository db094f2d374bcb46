-- ===== src/App/Crossing.antt =====
-- Two checks of the session that cross: checkAuth of frontend/App.tsx clears the stored session when it
-- fails, whichever session it checked.
use project_pn.Prelude.{◌≡◌, ◌<◌, refl, String, Bool, true, false, some, [], ◌∷◌, arith}
use project_pn.Api.Client.{Error}
use project_pn.Auth.Storage.{SessionResponse, SessionStorage}
use project_pn.App.Store.{resolving}
use project_pn.App.Session.{
  App, unauthenticated, authenticated, Caller, from_launch, from_link, checks_of, begun, answered,
  opened, passed, failed, is_missing, session_for_extension, begin_check, check_passed,
  check_failed, forget, session_came, open_url, handle, run,
}
use project_pn.App.Access.{waiting-eqb}

-- Of the check that is running and the one of the new link, the one that is answered first, and the
-- other.
abbrev pub first_of : (old : Caller) → (old_first : Bool) → Caller
first_of old true = old
first_of old false = from_link

abbrev pub second_of : (old : Caller) → (old_first : Bool) → Caller
second_of old true = from_link
second_of old false = old

module _ {World : Type 0} where
  both-wait :
      (old : Caller) (old_first : Bool) (a : App World) (w : World)
      → 0 < checks_of old a
      → (0 < checks_of (first_of old old_first) (begun from_link (record a { world = w })))
        × (0
            < checks_of
                (second_of old old_first)
                (answered (first_of old old_first) (begun from_link (record a { world = w }))))
  both-wait from_launch true a w h = (omega (arith, h), omega (arith, h))
  both-wait from_launch false a w h = (omega (arith, h), omega (arith, h))
  both-wait from_link true a w h = (omega (arith, h), omega (arith, h))
  both-wait from_link false a w h = (omega (arith, h), omega (arith, h))

module _ {World : Type 0} (storage : SessionStorage World) (is_extension : Bool)
    (in_an_hour : String) where
  stored :
      (session : SessionResponse) (a : App World)
      → is_missing (storage.get_token (storage.set_session session a.world)) ≡ false
      → session_came (resolving storage) false is_extension in_an_hour from_link session a
        ≡ begun from_link (record a { world = storage.set_session session a.world })
  unfolding session_came begin_check
  stored session a kept = rw kept refl

  passed-failed :
      (first second : Caller) (err : Error) (a : App World)
      → 0 < checks_of first a
      → 0 < checks_of second (answered first a)
      → ((run (resolving storage) false is_extension in_an_hour (passed first ∷ []) a).auth_state
          ≡ authenticated)
        × ((run
              (resolving storage)
              false
              is_extension
              in_an_hour
              (passed first ∷ failed second err ∷ [])
              a).auth_state
            ≡ unauthenticated)
        × ((run
              (resolving storage)
              false
              is_extension
              in_an_hour
              (passed first ∷ failed second err ∷ [])
              a).world
            ≡ storage.clear_session a.world)
  unfolding handle check_passed session_for_extension check_failed forget
  passed-failed from_launch from_launch err a h k =
      rw (waiting-eqb a.launch_checks h) (rw (waiting-eqb _ k) (refl, refl, refl))
  passed-failed from_launch from_link err a h k =
      rw (waiting-eqb a.launch_checks h) (rw (waiting-eqb _ k) (refl, refl, refl))
  passed-failed from_link from_launch err a h k =
      rw (waiting-eqb a.link_checks h) (rw (waiting-eqb _ k) (refl, refl, refl))
  passed-failed from_link from_link err a h k =
      rw (waiting-eqb a.link_checks h) (rw (waiting-eqb _ k) (refl, refl, refl))

  -- Off the browser, with a storage that does not reject, while a check is running, a link with a session
  -- that is stored with its token is opened, and one of the two checks passes: the user is in. When
  -- the other then fails, with any error, the new session is cleared from the storage and the user
  -- is out.
  pub crossing-clears :
      (session : SessionResponse) (err : Error) (a : App World) (old : Caller) (old_first : Bool)
      → is_missing (storage.get_token (storage.set_session session a.world)) ≡ false
      → 0 < checks_of old a
      → ((run
            (resolving storage)
            false
            is_extension
            in_an_hour
            (opened (some session) ∷ passed (first_of old old_first) ∷ [])
            a).auth_state
          ≡ authenticated)
        × ((run
              (resolving storage)
              false
              is_extension
              in_an_hour
              (opened (some session)
                ∷ passed (first_of old old_first)
                ∷ failed (second_of old old_first) err
                ∷ [])
              a).auth_state
            ≡ unauthenticated)
        × ((run
              (resolving storage)
              false
              is_extension
              in_an_hour
              (opened (some session)
                ∷ passed (first_of old old_first)
                ∷ failed (second_of old old_first) err
                ∷ [])
              a).world
            ≡ storage.clear_session (storage.set_session session a.world))
  unfolding handle open_url
  crossing-clears session err a old old_first kept waiting =
      let new : App World = record a { world = storage.set_session session a.world } in
      let both = both-wait old old_first a new.world waiting in
      rw (stored session a kept) (
        passed-failed (first_of old old_first) (second_of old old_first) err (begun from_link new)
          both.0 both.1)
