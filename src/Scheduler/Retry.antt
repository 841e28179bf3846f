-- ===== src/Scheduler/Retry.antt =====
-- scripts/scheduled_control_daemon.py: `_urlopen_retry`. The answers of the server, try by try, are a
-- parameter; a pause is counted in tenths of a second.
pub mod Laws
use az_lab.Prelude.{
  ◌<◌, ◌≤◌, ℕ, zero, suc, ◌+◌, ◌-◌, ◌*◌, ◌≡◌, refl, inl, inr, ◌⊎◌, Bool, true, false, ◌||◌, ◌&&◌,
  Option, none, some, List, [], ◌∷◌, arith, eqb, ltb, if◌then◌else◌, length, any, Bool-cases,
  lt→ltb, ltb→lt, ltb→le, le→ltb,
}

-- A response, an HTTPError with its code, or a URLError.
pub data Reply (A : Type 0) : Type 0 where
  response : A → Reply A
  http_error : ℕ → Reply A
  url_error : Reply A

-- What became of the call: the last reply, and the pauses before it, the latest first.
pub record Tried (A : Type 0) : Type 0 where
  pub reply : Reply A
  pub pauses : List ℕ

abbrev pub transient : List ℕ
transient = 429 ∷ 500 ∷ 502 ∷ 503 ∷ 504 ∷ []

-- Whether another try may help.
unfoldable pub is_transient : {A : Type 0} → Reply A → Bool
is_transient (response a) = false
is_transient (http_error code) = any (λ c. eqb c code) transient
is_transient url_error = true

module _ {A : Type 0} (send : ℕ → Reply A) (retries : ℕ) where
  -- The loop, from a try on; `left` tries are left besides it.
  unfoldable pub retry_from : ℕ → ℕ → List ℕ → Tried A
  unfolding is_transient
  retry_from zero attempt pauses = record { reply = send attempt; pauses = pauses }
  retry_from (suc left) attempt pauses =
      let again = retry_from left (suc attempt) (15 * (attempt + 1) ∷ pauses) in
      if is_transient (send attempt) && ltb attempt (retries - 1)
      then again
      else record { reply = send attempt; pauses = pauses }

  -- for attempt in range(retries)
  unfoldable pub urlopen_retry : Tried A
  unfolding retry_from
  urlopen_retry = retry_from (retries - 1) 0 []
