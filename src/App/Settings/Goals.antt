-- ===== src/App/Settings/Goals.antt =====
-- The requests that are running, of which at most one is for a goal:
-- frontend/src/features/profile/ProfileScreen.tsx.
use project_pn.Prelude.{
  ℕ, zero, suc, ◌+◌, ◌≡◌, ◌⊎◌, inl, inr, ap, ◌∙◌, Bool, true, false, some, List, [], ◌∷◌, ◌++◌,
  get_elem?, count_p, count_p-append, if◌then◌else◌, arith, All, All-append, All-get_elem?,
}
use project_pn.App.Settings.Requests.{
  Request, goal_request, retention_request, vacation_request, freeze_request, remove_at,
}

module _ {Decimal : Type 0} where
  abbrev pub is_goal : Request Decimal → Bool
  is_goal (goal_request next prev_goal) = true
  is_goal (retention_request decimal prev_percent) = false
  is_goal (vacation_request next_active prev_streak) = false
  is_goal freeze_request = false

  -- The goal that a handler captured is the saved one.
  abbrev pub IsCaptured : ℕ → Request Decimal → Type 0
  IsCaptured saved (goal_request next prev_goal) = prev_goal ≡ saved
  IsCaptured saved (retention_request decimal prev_percent) = Unit
  IsCaptured saved (vacation_request next_active prev_streak) = Unit
  IsCaptured saved freeze_request = Unit

  -- Without a request the selected goal is the saved one, and one request would put it back.
  abbrev pub IsSettled : (selected saved : ℕ) → List (Request Decimal) → Type 0
  IsSettled selected saved requests =
      ((count_p is_goal requests ≡ 0) × (selected ≡ saved))
      ⊎ ((count_p is_goal requests ≡ 1) × All (IsCaptured saved) requests)

  count-head :
      (r : Request Decimal) (n : ℕ)
      → (if is_goal r then suc n else n) ≡ (if is_goal r then 1 else 0) + n
  count-head r n = ground arith

  pub count-remove_at :
      (requests : List (Request Decimal)) (place : ℕ) (request : Request Decimal)
      → get_elem? requests place ≡ some request
      → count_p is_goal requests
        ≡ (if is_goal request then 1 else 0) + count_p is_goal (remove_at place requests)
  count-remove_at [] place request e = cc
  count-remove_at (r ∷ rest) zero request e =
      let same : r ≡ request = ground arith in
      count-head r (count_p is_goal rest)
      ∙ ap (λ q. (if is_goal q then 1 else 0) + count_p is_goal rest) same
  count-remove_at (r ∷ rest) (suc place) request e =
      ground (arith, count-remove_at rest place request e)

  All-remove_at :
      (P : Request Decimal → Type 0) (requests : List (Request Decimal)) (place : ℕ)
      → All P requests
      → All P (remove_at place requests)
  All-remove_at P [] place h = h
  All-remove_at P (r ∷ rest) zero h = h.1
  All-remove_at P (r ∷ rest) (suc place) h = (h.0, All-remove_at P rest place h.1)

  pub none-IsCaptured :
      (saved : ℕ) (requests : List (Request Decimal))
      → count_p is_goal requests ≡ 0
      → All (IsCaptured saved) requests
  none-IsCaptured saved [] h = tt
  none-IsCaptured saved (goal_request next prev_goal ∷ rest) h = absurd (omega (arith, h))
  none-IsCaptured saved (retention_request decimal prev_percent ∷ rest) h =
      (tt, none-IsCaptured saved rest h)
  none-IsCaptured saved (vacation_request next_active prev_streak ∷ rest) h =
      (tt, none-IsCaptured saved rest h)
  none-IsCaptured saved (freeze_request ∷ rest) h = (tt, none-IsCaptured saved rest h)

  -- Another kind of request is sent.
  pub sent-IsSettled :
      (request : Request Decimal) (selected saved : ℕ) (requests : List (Request Decimal))
      → is_goal request ≡ false
      → IsCaptured saved request
      → IsSettled selected saved requests
      → IsSettled selected saved (requests ++ request ∷ [])
  sent-IsSettled request selected saved requests other captured (inl (none_waits, same)) =
      inl (ground (arith, count_p-append is_goal requests (request ∷ [])), same)
  sent-IsSettled request selected saved requests other captured (inr (one_waits, h)) = inr (
    ground (arith, count_p-append is_goal requests (request ∷ [])),
    All-append (IsCaptured saved) requests (request ∷ []) h (captured, tt),
  )

  -- A request of another kind is answered.
  pub other-IsSettled :
      (request : Request Decimal) (place selected saved : ℕ) (requests : List (Request Decimal))
      → get_elem? requests place ≡ some request
      → is_goal request ≡ false
      → IsSettled selected saved requests
      → IsSettled selected saved (remove_at place requests)
  other-IsSettled request place selected saved requests e other (inl (none_waits, same)) =
      inl (ground (arith, count-remove_at requests place request e), same)
  other-IsSettled request place selected saved requests e other (inr (one_waits, h)) = inr (
    ground (arith, count-remove_at requests place request e),
    All-remove_at (IsCaptured saved) requests place h,
  )

  -- The goal's request is answered.
  pub goal-answered :
      (next prev_goal place selected saved : ℕ) (requests : List (Request Decimal))
      → get_elem? requests place ≡ some (goal_request next prev_goal)
      → IsSettled selected saved requests
      → (count_p is_goal (remove_at place requests) ≡ 0) × (prev_goal ≡ saved)
  goal-answered next prev_goal place selected saved requests e (inl (none_waits, same)) =
      absurd (omega (arith, none_waits, count-remove_at requests place _ e))
  goal-answered next prev_goal place selected saved requests e (inr (one_waits, h)) = (
    omega (arith, one_waits, count-remove_at requests place _ e),
    All-get_elem? (IsCaptured saved) requests place _ h e,
  )

  pub calm-settled :
      (selected saved : ℕ) (requests : List (Request Decimal))
      → count_p is_goal requests ≡ 0
      → IsSettled selected saved requests
      → selected ≡ saved
  calm-settled selected saved requests calm (inl (none_waits, same)) = same
  calm-settled selected saved requests calm (inr (one_waits, h)) =
      absurd (omega (arith, calm, one_waits))
