-- ===== src/Scheduler/Retry/Laws.antt =====
-- The retries are bounded, and go on only where another try may help.
use az_lab.Scheduler.Retry.{Reply, Tried, is_transient, retry_from, urlopen_retry}
use az_lab.Prelude.{
  ◌<◌, ◌≤◌, ℕ, zero, suc, ◌+◌, ◌-◌, ◌≡◌, refl, inl, inr, ◌⊎◌, true, false, List, [], arith, length,
  Bool-cases, subst, lt-cases, lt→ltb,
}

module _ {A : Type 0} (send : ℕ → Reply A) (retries : ℕ) where
  -- The call ends with the reply of some try `i`, after one pause for each try before it; all of those
  -- could be helped by another, and the last one could not, or was the last that is allowed.
  pub record IsTried (r : Tried A) : Type 0 where
    pub i : ℕ
    pub below : i < retries
    pub reply : r.reply ≡ send i
    pub pauses : length r.pauses ≡ i
    pub before : (j : ℕ) → j < i → is_transient (send j) ≡ true
    pub last : (is_transient (send i) ≡ false) ⊎ (i + 1 ≡ retries)

  from-IsTried :
      (left attempt : ℕ) (pauses : List ℕ)
      → left + attempt + 1 ≡ retries
      → length pauses ≡ attempt
      → ((j : ℕ) → j < attempt → is_transient (send j) ≡ true)
      → IsTried (retry_from send retries left attempt pauses)
  unfolding retry_from
  from-IsTried zero attempt pauses e n b = record {
    i = attempt;
    below = omega arith;
    reply = refl;
    pauses = n;
    before = b;
    last = inr (omega arith);
  }
  from-IsTried (suc left) attempt pauses e n b = elim (Bool-cases (is_transient (send attempt))) [
    | inl again ↦ rw again (
        rw (lt→ltb attempt (retries - 1) (omega arith)) (
          from-IsTried left (suc attempt) _ (omega arith) (omega arith) (λ j below.
            elim (lt-cases j attempt) [
              | inl earlier ↦ b j earlier
              | inr later ↦
                  let here : attempt ≡ j = omega arith in
                  subst (λ k. is_transient (send k) ≡ true) here again
            ])))
    | inr settled ↦ rw settled (record {
      i = attempt;
      below = omega arith;
      reply = refl;
      pauses = n;
      before = b;
      last = inl settled;
    })
  ]

  -- A call with at least one try allowed ends: with the reply of one try within the allowed number,
  -- after as many pauses as there were tries before it. Each earlier reply was one that another try
  -- may help, and the loop goes on as long as that holds and a try is left.
  pub urlopen_retry-IsTried : 1 ≤ retries → IsTried (urlopen_retry send retries)
  unfolding urlopen_retry
  urlopen_retry-IsTried some_try =
      from-IsTried (retries - 1) 0 [] (omega arith) refl (λ j below. absurd (omega arith))
