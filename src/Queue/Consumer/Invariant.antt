-- ===== src/Queue/Consumer/Invariant.antt =====
-- A rule for the retry loop of internal/platform/queue/consumer.go: what every run of the handler
-- keeps holds when the loop ends, with what the last answer tells.
use golang_helloworld.Prelude.{
  Bool, Option, Option-cases, false, if◌then◌else◌, inl, inr, none, refl, some, subst, suc, true,
  zero, ℕ, ◌+◌, ◌==◌, ◌||◌, ◌≡◌,
}
use golang_helloworld.Queue.Failure.{Failure, is_permanent, is_skip}
use golang_helloworld.Queue.Job.{Job}
use golang_helloworld.Queue.Consumer.{
  Options, Outcome, Outside, Run, attempt, attempts, attempts_from, back_off, dead_letter, error_of,
  skipped, success,
}

-- What an answer must establish where the loop would end on it.
abbrev pub Judged : {W : Type 0} → (Outcome → W → Type 0) → Option Failure → W → Type 0
Judged Q none w = Q success w
Judged Q (some e) w = is_skip e ≡ true → Q skipped w

two_tests :
    {A : Type 0} (F : A → Type 0) (b c : Bool) (x y z : A)
    → (b ≡ true → F x)
    → F y
    → F z
    → F (if b then x else if c then y else z)
two_tests F true c x y z fx fy fz = fx refl
two_tests F false true x y z fx fy fz = fy
two_tests F false false x y z fx fy fz = fz

module _ {W : Type 0} (o : Options) (out : Outside W) (job : Job) (P : W → Type 0)
    (Q : Outcome → W → Type 0)
    (keep : (w : W)
      → P w
      → P (out.handler job w).1 × Judged Q (error_of (out.handler job w).0) (out.handler job w).1)
    (give_up : (w : W) → P w → Q dead_letter w) where
  attempts_from_inv :
      (left n : ℕ) (last : Option Failure) (s : Run W)
      → P s.world
      → let (result, s') = attempts_from o out job left n last s in Q result.0 s'.world
  unfolding attempts_from attempt back_off
  attempts_from_inv zero n last s h = give_up s.world h
  attempts_from_inv (suc left) n last s h =
      let (kept, judged) = keep s.world h in
      elim (Option-cases (error_of (out.handler job s.world).0)) [
        | inl fine ↦
            rw (fine, attempts_from)
              (subst (λ a. Judged Q a (out.handler job s.world).1) fine judged)
        | inr (e, broke) ↦
            let judged' = subst (λ a. Judged Q a (out.handler job s.world).1) broke judged in
            rw (broke, attempts_from)
              (two_tests (λ (a : (Outcome × Option Failure) × Run W). Q a.0.0 a.1.world) (is_skip e)
                (is_permanent e || n == o.max_attempts) _ _ _ judged' (give_up _ kept)
                (attempts_from_inv left (n + 1) (some e) _ kept))
      ]

  pub attempts_inv :
      (s : Run W) → P s.world → let (result, s') = attempts o out job s in Q result.0 s'.world
  unfolding attempts
  attempts_inv s h = attempts_from_inv o.max_attempts 1 none s h
