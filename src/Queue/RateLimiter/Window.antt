-- ===== src/Queue/RateLimiter/Window.antt =====
-- The sliding window holds at every time, not only when it is checked.
use think_tank.Prelude.{
  ℕ, ◌≤◌, ◌<◌, ℤ, pos, ◌≡◌, String, true, false, Option, none, some, List, [], ◌∷◌, Bool-cases, inl,
  inr, str_eq, All, eq_iff, leb_ℤ, ap, ◌∙◌, arith, ltb,
}
use think_tank.Queue.RateLimiter.{RateLimitUsage, recent_calls, acquire}

-- One call of the limiter, at its time and for its API.
pub record Call : Type 0 where
  pub at : ℕ
  pub api : String
  pub worker : String

-- The calls go through the limiter, each with the limit that is configured for its API.
abbrev pub issue : (String → Option ℤ) → ℕ → Call → List RateLimitUsage → List RateLimitUsage
issue limits window c usage = (acquire c.at c.api c.worker window (limits c.api) usage).1

-- The table after a series of calls, the first one first.
unfoldable pub issue_all :
    (String → Option ℤ) → ℕ → List Call → List RateLimitUsage → List RateLimitUsage
issue_all limits window [] usage = usage
issue_all limits window (c ∷ cs) usage = issue_all limits window cs (issue limits window c usage)

module _ (api : String) (window limit : ℕ) where
  -- Each row found room under the limit when it was written.
  abbrev pub Paced : List RateLimitUsage → Type 0
  Paced [] = Unit
  Paced (u ∷ us) =
      (str_eq u.api_name api ≡ true → recent_calls u.called_at api window us < limit) × Paced us

  recent-later :
      (t t' : ℕ) (us : List RateLimitUsage)
      → t ≤ t'
      → recent_calls t' api window us ≤ recent_calls t api window us
  unfolding recent_calls
  recent-later t t' [] h = omega arith
  recent-later t t' (u ∷ us) h = ground (arith, recent-later t t' us h)

  -- At any time that no row lies beyond, at most `limit` calls fall in the window.
  Paced-recent :
      (t : ℕ) (us : List RateLimitUsage)
      → Paced us
      → All (λ u. u.called_at ≤ t) us
      → recent_calls t api window us ≤ limit
  unfolding recent_calls
  Paced-recent t [] p h = omega arith
  Paced-recent t (u ∷ us) p h =
      ground (arith, p.0, h.0, recent-later u.called_at t us h.0, Paced-recent t us p.1 h.1)

  acquire-Paced :
      (now : ℕ) (a worker : String) (l : Option ℤ) (us : List RateLimitUsage)
      → (str_eq a api ≡ true → l ≡ some (pos limit))
      → Paced us
      → Paced (acquire now a worker window l us).1
  unfolding acquire
  acquire-Paced now a worker none us h p = p
  acquire-Paced now a worker (some l) us h p =
      elim (Bool-cases (leb_ℤ l (pos (recent_calls now a window us)))) [
        | inl full ↦ rw full p
        | inr room ↦ rw room (λ e. fits ((eq_iff a api).0 e) (h e) room, p)
      ]
    where
      fits :
          a ≡ api
          → some l ≡ some (pos limit)
          → leb_ℤ l (pos (recent_calls now a window us)) ≡ false
          → recent_calls now api window us < limit
      fits q e room = rw (← q) (ground (arith, room, e))

  acquire-times :
      (t now : ℕ) (a worker : String) (l : Option ℤ) (us : List RateLimitUsage)
      → now ≤ t
      → All (λ u. u.called_at ≤ t) us
      → All (λ u. u.called_at ≤ t) (acquire now a worker window l us).1
  unfolding acquire
  acquire-times t now a worker none us h p = p
  acquire-times t now a worker (some l) us h p =
      elim (Bool-cases (leb_ℤ l (pos (recent_calls now a window us)))) [
        | inl full ↦ rw full p
        | inr room ↦ rw room (h, p)
      ]

  issue_all-Paced :
      (limits : String → Option ℤ) (t : ℕ) (cs : List Call) (us : List RateLimitUsage)
      → limits api ≡ some (pos limit)
      → All (λ c. c.at ≤ t) cs
      → Paced us
      → All (λ u. u.called_at ≤ t) us
      → Paced (issue_all limits window cs us)
        × All (λ u. u.called_at ≤ t) (issue_all limits window cs us)
  unfolding issue_all
  issue_all-Paced limits t [] us e h p q = (p, q)
  issue_all-Paced limits t (c ∷ cs) us e h p q =
      issue_all-Paced limits t cs (issue limits window c us) e h.1
        (acquire-Paced c.at c.api c.worker (limits c.api) us
          (λ s. ap limits ((eq_iff c.api api).0 s) ∙ e) p)
        (acquire-times t c.at c.api c.worker (limits c.api) us h.0 q)

  -- Whatever calls were asked for, of any APIs, by any workers and in any order of their times: at
  -- any time t not before one of them, at most `limit` granted calls of the API lie in the window
  -- that ends at t. And a call of the API is granted exactly when fewer than `limit` calls lie in
  -- the window that ends at its time.
  pub issue_all-window :
      (limits : String → Option ℤ) (t : ℕ) (cs : List Call)
      → limits api ≡ some (pos limit)
      → All (λ c. c.at ≤ t) cs
      → (recent_calls t api window (issue_all limits window cs []) ≤ limit)
        × ((worker : String)
            → (acquire t api worker window (limits api) (issue_all limits window cs [])).0
              ≡ ltb (recent_calls t api window (issue_all limits window cs [])) limit)
  unfolding acquire
  issue_all-window limits t cs e h =
      let (p, q) = issue_all-Paced limits t cs [] e h tt tt in
      (Paced-recent t (issue_all limits window cs []) p q, λ worker. rw e (ground arith))
