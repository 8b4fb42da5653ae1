-- ===== src/Queue/Consumer/Loop.antt =====
-- internal/platform/queue/consumer.go: Run, with its semaphore, as steps of the loop, of the goroutines
-- that handle a message, and of the context. What the stream server answers to a read is any list of
-- at most as many messages as were asked for, as COUNT promises. Pauses take no step of their own.
use golang_helloworld.Prelude.{
  Bool, List, [], ap, arith, false, length, length-remove, refl, subst, tally, tally-remove, true,
  ℕ, ◌++◌, ◌+◌, ◌-◌, ◌<◌, ◌∷◌, ◌≡◌, ◌≢◌, ◌≤◌,
}
use golang_helloworld.Queue.Job.{Message}

-- Where the loop is.
pub data Phase : Type 0 where
  opening : Phase
  checking : Phase
  fetching : ℕ → Phase
  spawning : List Message → Phase
  draining : Phase
  returned : Phase

-- `running` are the messages whose goroutine holds a slot. `taken` and `done_with` keep what has been
-- given a goroutine, and what has been handled, for the statements.
pub record RunState : Type 0 where
  pub phase : Phase
  pub canceled : Bool
  pub running : List Message
  pub taken : List Message
  pub done_with : List Message

pub data Step (concurrency : ℕ) (s : RunState) : RunState → Type 0 where
  group_fails : s.phase ≡ opening → Step concurrency s (record s { phase = returned })
  group_ready : s.phase ≡ opening → Step concurrency s (record s { phase = checking })
  waits :
      s.phase ≡ checking
      → s.canceled ≡ false
      → concurrency ≤ length s.running
      → Step concurrency s s
  asks :
      s.phase ≡ checking
      → s.canceled ≡ false
      → length s.running < concurrency
      → Step concurrency s (record s { phase = fetching (concurrency - length s.running) })
  reads :
      (free : ℕ) (msgs : List Message)
      → s.phase ≡ fetching free
      → length msgs ≤ free
      → Step concurrency s (record s { phase = spawning msgs })
  read_fails :
      (free : ℕ)
      → s.phase ≡ fetching free
      → s.canceled ≡ false
      → Step concurrency s (record s { phase = checking })
  read_cut :
      (free : ℕ)
      → s.phase ≡ fetching free
      → s.canceled ≡ true
      → Step concurrency s (record s { phase = draining })
  spawns :
      (m : Message) (msgs : List Message)
      → s.phase ≡ spawning (m ∷ msgs)
      → length s.running < concurrency
      → Step concurrency s
          (record s { phase = spawning msgs; running = m ∷ s.running; taken = m ∷ s.taken })
  spawned : s.phase ≡ spawning [] → Step concurrency s (record s { phase = checking })
  leaves :
      s.phase ≡ checking → s.canceled ≡ true → Step concurrency s (record s { phase = draining })
  handles :
      (before : List Message) (m : Message) (after : List Message)
      → s.running ≡ before ++ m ∷ after
      → Step concurrency s (record s { running = before ++ after; done_with = m ∷ s.done_with })
  cancels : Step concurrency s (record s { canceled = true })
  returns_nil :
      s.phase ≡ draining → s.running ≡ [] → Step concurrency s (record s { phase = returned })

abbrev pub start_of_run : RunState
start_of_run = record {
  phase = opening;
  canceled = false;
  running = [];
  taken = [];
  done_with = [];
}

pub data Reach (concurrency : ℕ) : RunState → Type 0 where
  begun : Reach concurrency start_of_run
  later : {s t : RunState} → Reach concurrency s → Step concurrency s t → Reach concurrency t

-- The slots that the loop counts on.
abbrev pub reserved : Phase → ℕ
reserved (fetching free) = free
reserved (spawning msgs) = length msgs
reserved opening = 0
reserved checking = 0
reserved draining = 0
reserved returned = 0

-- What Run still has to give back when it returns.
abbrev pub IsDrained : Phase → List Message → Type 0
IsDrained returned running = running ≡ []
IsDrained opening running = running ≡ []
IsDrained checking running = Unit
IsDrained (fetching free) running = Unit
IsDrained (spawning msgs) running = Unit
IsDrained draining running = Unit

pub record IsRun (concurrency : ℕ) (s : RunState) : Type 0 where
  pub slots_bounded : length s.running + reserved s.phase ≤ concurrency
  pub all_kept : (p : Message → Bool) → tally p s.taken ≡ tally p s.running + tally p s.done_with
  pub is_drained : IsDrained s.phase s.running

removed_nonempty :
    (before : List Message) (m : Message) (after : List Message) → before ++ m ∷ after ≢ []
removed_nonempty [] m after e = cc e
removed_nonempty (x ∷ before) m after e = cc e

-- Where nothing may run, nothing is handled; elsewhere nothing is asked.
IsDrained-handles :
    (phase : Phase) (before : List Message) (m : Message) (after : List Message)
    → IsDrained phase (before ++ m ∷ after)
    → IsDrained phase (before ++ after)
IsDrained-handles returned before m after h = absurd (removed_nonempty before m after h)
IsDrained-handles opening before m after h = absurd (removed_nonempty before m after h)
IsDrained-handles checking before m after h = tt
IsDrained-handles (fetching free) before m after h = tt
IsDrained-handles (spawning msgs) before m after h = tt
IsDrained-handles draining before m after h = tt

-- A step that only moves the loop on, with no more slots to count on than are free.
moved :
    (c : ℕ) (s : RunState) (next : Phase)
    → IsRun c s
    → length s.running + reserved next ≤ c
    → IsDrained next s.running
    → IsRun c (record s { phase = next })
moved c s next h fits drained = record {
  slots_bounded = fits;
  all_kept = h.all_kept;
  is_drained = drained;
}

bounded :
    (c : ℕ) (s : RunState) (phase : Phase)
    → IsRun c s
    → s.phase ≡ phase
    → length s.running + reserved phase ≤ c
bounded c s phase h e = subst (λ q. length s.running + reserved q ≤ c) e h.slots_bounded

Step-IsRun : (c : ℕ) (s t : RunState) → IsRun c s → Step c s t → IsRun c t
Step-IsRun c s t h (group_fails e) =
    moved c s returned h (bounded c s opening h e)
      (subst (λ q. IsDrained q s.running) e h.is_drained)
Step-IsRun c s t h (group_ready e) = moved c s checking h (bounded c s opening h e) tt
Step-IsRun c s t h (waits e _ _) = h
Step-IsRun c s t h (asks e _ low) = moved c s (fetching (c - length s.running)) h (omega arith) tt
Step-IsRun c s t h (reads free msgs e fits) =
    let before = bounded c s (fetching free) h e in moved c s (spawning msgs) h (omega arith) tt
Step-IsRun c s t h (read_fails free e _) =
    let before = bounded c s (fetching free) h e in moved c s checking h (omega arith) tt
Step-IsRun c s t h (read_cut free e _) =
    let before = bounded c s (fetching free) h e in moved c s draining h (omega arith) tt
Step-IsRun c s t h (spawns m msgs e low) =
    let before = bounded c s (spawning (m ∷ msgs)) h e in
    record {
      slots_bounded = omega arith;
      all_kept = λ p. omega (arith, h.all_kept p);
      is_drained = tt;
    }
Step-IsRun c s t h (spawned e) = moved c s checking h (bounded c s (spawning []) h e) tt
Step-IsRun c s t h (leaves e _) = moved c s draining h (bounded c s checking h e) tt
Step-IsRun c s t h (handles before m after e) =
    let fits = h.slots_bounded in
    let held : length s.running ≡ length (before ++ m ∷ after) = ap length e in
    record {
      slots_bounded = omega (arith, held, length-remove before m after);
      all_kept = λ p.
          let there : tally p s.running ≡ tally p (before ++ m ∷ after) = ap (tally p) e in
          omega (arith, h.all_kept p, there, tally-remove p before m after);
      is_drained =
          IsDrained-handles s.phase before m after (subst (IsDrained s.phase) e h.is_drained);
    }
Step-IsRun c s t h cancels = record {
  slots_bounded = h.slots_bounded;
  all_kept = h.all_kept;
  is_drained = h.is_drained;
}
Step-IsRun c s t h (returns_nil e empty) = moved c s returned h (rw empty (omega arith)) empty

-- At every point of Run, the messages that hold a slot and those that the loop has a slot in mind
-- for are `concurrency` at most; every message that was taken is in work or handled, each as often
-- as it was taken; and when Run has returned, none is in work.
pub Reach-IsRun : (c : ℕ) (s : RunState) → Reach c s → IsRun c s
Reach-IsRun c s begun = record {
  slots_bounded = omega arith;
  all_kept = λ p. refl;
  is_drained = refl;
}
Reach-IsRun c s (later {s = r} h step) = Step-IsRun c r s (Reach-IsRun c r h) step

-- Before Run starts a message that it has read, it never waits for a slot: one is free.
pub Reach-free :
    (c : ℕ) (s : RunState) (m : Message) (msgs : List Message)
    → Reach c s
    → s.phase ≡ spawning (m ∷ msgs)
    → length s.running < c
Reach-free c s m msgs h e =
    let before = bounded c s (spawning (m ∷ msgs)) (Reach-IsRun c s h) e in omega arith
