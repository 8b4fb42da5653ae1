-- ===== src/Loadgen/Breaker.antt =====
-- internal/loadgen/breaker.go: the circuit breaker over a ring of the last results.
-- The threshold of the source is a float64; it is kept here as a fraction of two naturals, and the
-- quotient test is written without the division. For 0.5, the one the program passes, and counts
-- below 2^52, the correctly rounded quotient compares with it as the exact one does. The mutex is
-- left out: `record` runs whole under it.
pub mod Window
pub mod History
use golang_helloworld.Prelude.{
  ℕ, ◌+◌, ◌-◌, ◌*◌, ◌/◌, ◌%◌, Bool, true, false, ◌&&◌, List, length, get_or, set, replicate, ltb,
  leb, ◌==◌, if◌then◌else◌,
}

pub record Breaker : Type 0 where
  pub ring : List Bool
  pub next : ℕ
  pub filled : ℕ
  pub failures : ℕ
  pub num : ℕ
  pub den : ℕ

unfoldable pub new_breaker : ℕ → ℕ → ℕ → Breaker
new_breaker size num den = record {
  ring = replicate size false;
  next = 0;
  filled = 0;
  failures = 0;
  num = num;
  den = den;
}

-- failures / filled > num / den
abbrev pub exceeds : ℕ → ℕ → ℕ → ℕ → Bool
exceeds failures filled num den = ltb (num * filled) (failures * den)

abbrev after_evict : Breaker → ℕ
after_evict b =
    if (b.filled == length b.ring) && get_or b.ring b.next false then b.failures - 1 else b.failures

pub observe : Breaker → Bool → Breaker
observe b failed = record b {
  ring = set b.ring b.next failed;
  failures = if failed then after_evict b + 1 else after_evict b;
  next = (b.next + 1) % length b.ring;
  filled = if ltb b.filled (length b.ring) then b.filled + 1 else b.filled;
}

pub is_tripped : Breaker → Bool
is_tripped b = leb (length b.ring / 2) b.filled && exceeds b.failures b.filled b.num b.den

unfoldable pub record_result : Breaker → Bool → Breaker × Bool
unfolding observe is_tripped
record_result b failed = let b' = observe b failed in (b', is_tripped b')
