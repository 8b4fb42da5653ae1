-- ===== src/Queue/Consumer/Attempts.antt =====
-- The retry loop of internal/platform/queue/consumer.go against a description of it by the
-- answers that the handler would give.
use golang_helloworld.Prelude.{
  Bool-cases, List, Option, Option-cases, [], append-nil, append_assoc, arith, if◌then◌else◌, inl,
  inr, none, refl, some, suc, sym, zero, ℕ, ◌++◌, ◌+◌, ◌∷◌, ◌≡◌,
}
use golang_helloworld.Queue.Failure.{Failure, is_permanent, is_skip}
use golang_helloworld.Queue.Job.{Job}
use golang_helloworld.Queue.Consumer.{
  Event, Options, Outcome, Outside, Run, attempt, attempted, attempts, attempts_from, back_off,
  counted, dead_letter, error_of, paused, retry, skipped, success,
}

-- What one more attempt calls for, by the handler's error.
pub data Verdict : Type 0 where
  done : Outcome → Option Failure → Verdict
  again : Failure → Verdict

abbrev pub judge : Option Failure → Verdict
judge none = done success none
judge (some e) =
    if is_skip e
    then done skipped none
    else if is_permanent e
    then done dead_letter (some e)
    else again e

module _ {W : Type 0} (out : Outside W) (job : Job) where
  -- The handler's first `k` answers, were it called again and again.
  unfoldable pub answers : ℕ → W → List (Option Failure)
  answers zero w = []
  answers (suc k) w = let (reply, w') = out.handler job w in error_of reply ∷ answers k w'

-- The first final answer decides; with none, the last error is dead-lettered.
unfoldable pub decide : Option Failure → List (Option Failure) → Outcome × Option Failure
decide last [] = (dead_letter, last)
decide last (a ∷ rest) = elim (judge a) [ done x e ↦ (x, e) | again e ↦ decide (some e) rest ]

-- The trace that goes with it, from attempt `n` on.
unfoldable pub timeline : (ℕ → ℕ) → ℕ → List (Option Failure) → List Event
timeline backoff n [] = []
timeline backoff n (a ∷ []) = attempted n ∷ []
timeline backoff n (a ∷ b ∷ rest) = elim (judge a) [
  | done x e ↦ attempted n ∷ []
  | again e ↦ attempted n ∷ counted retry ∷ paused (backoff n) ∷ timeline backoff (n + 1) (b ∷ rest)
]

-- A dead letter has a cause, once there was an attempt.
pub decide_cause :
    (last : Option Failure) (a : Option Failure) (rest : List (Option Failure))
    → (decide last (a ∷ rest)).0 ≡ dead_letter
    → (e : Failure) × ((decide last (a ∷ rest)).1 ≡ some e)
unfolding decide
decide_cause last none rest h = absurd (cc h)
decide_cause last (some e) [] h = (e, ground arith)
decide_cause last (some e) (b ∷ rest) h =
    let later = decide_cause (some e) b rest in
    elim (Bool-cases (is_skip e)) [
      | inl skips ↦ absurd (ground (arith, skips))
      | inr stays ↦ elim (Bool-cases (is_permanent e)) [
        | inl ends ↦ (e, ground (arith, stays, ends))
        | inr retried ↦
            let (c, same) = later (ground (arith, stays, retried)) in
            (c, ground (arith, stays, retried, same))
      ]
    ]

append_three :
    (xs : List Event) (a b c : Event) (ys : List Event)
    → (((xs ++ a ∷ []) ++ b ∷ []) ++ c ∷ []) ++ ys ≡ xs ++ a ∷ b ∷ c ∷ ys
append_three xs a b c ys = simp append_assoc

module _ {W : Type 0} (o : Options) (out : Outside W) (job : Job) where
  attempts_from-decide :
      (left n : ℕ) (last : Option Failure) (s : Run W)
      → n + left ≡ o.max_attempts + 1
      → let (result, s') = attempts_from o out job left n last s in
        (result ≡ decide last (answers out job left s.world))
        × (s'.trace ≡ s.trace ++ timeline o.backoff n (answers out job left s.world))
  unfolding attempts_from answers decide timeline attempt back_off
  attempts_from-decide zero n last s h = (refl, sym (append-nil s.trace))
  attempts_from-decide (suc zero) n last s h = ground arith
  attempts_from-decide (suc (suc left)) n last s h =
      let reply = out.handler job s.world in
      let s1 : Run W = record { world = reply.1; trace = s.trace ++ attempted n ∷ [] } in
      elim (Option-cases (error_of reply.0)) [
        | inl none_left ↦ ground arith
        | inr (e, failed) ↦
            let ih =
              attempts_from-decide (suc left) (n + 1) (some e) (back_off o out n s1)
                (omega arith) in
            let rest = timeline o.backoff (n + 1) (answers out job (suc left) reply.1) in
            ground (
              arith,
              ih,
              append_three s.trace (attempted n) (counted retry) (paused (o.backoff n)) rest,
            )
      ]

  -- The loop runs the handler until its first final answer, and `max_attempts` times at most; a
  -- success or a skip ends it so, a permanent error or the last one is dead-lettered, and between
  -- two attempts it counts a retry and pauses for the backoff of the attempt that failed.
  pub attempts-decide :
      (s : Run W)
      → let (result, s') = attempts o out job s in
        let given = answers out job o.max_attempts s.world in
        (result ≡ decide none given) × (s'.trace ≡ s.trace ++ timeline o.backoff 1 given)
  unfolding attempts
  attempts-decide s = attempts_from-decide o.max_attempts 1 none s (omega arith)
