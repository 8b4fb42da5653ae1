-- ===== src/Loadgen/Scenarios.antt =====
-- internal/loadgen/scenarios.go: the mixes of operations, and the draw from a mix.
use golang_helloworld.Prelude.{
  Bool-cases, List, [], ap, arith, get_or, if◌then◌else◌, inl, inr, length, length-append,
  length-replicate, ltb, ltb→lt, refl, replicate, suc, sym, zero, ℕ, ◌++◌, ◌+◌, ◌-◌, ◌<◌, ◌∙◌, ◌∷◌,
  ◌≡◌, ◌≤◌,
}

-- The operations of ops.go.
pub data Op : Type 0 where
  op_list op_view op_thumbnail op_upload op_delete op_settings : Op

pub record Weighted : Type 0 where
  pub op : Op
  pub weight : ℕ

abbrev pub weigh : Op → ℕ → Weighted
weigh o n = record { op = o; weight = n }

abbrev pub mixed_ops : List Weighted
mixed_ops =
    weigh op_list 35
    ∷ weigh op_view 20
    ∷ weigh op_thumbnail 20
    ∷ weigh op_upload 15
    ∷ weigh op_delete 5
    ∷ weigh op_settings 5
    ∷ []

pub data Scenario : Type 0 where
  browse upload mixed steady : Scenario

abbrev pub scenarios : Scenario → List Weighted
scenarios browse = weigh op_list 50 ∷ weigh op_view 30 ∷ weigh op_thumbnail 20 ∷ []
scenarios upload = weigh op_upload 100 ∷ []
scenarios mixed = mixed_ops
scenarios steady = mixed_ops

abbrev pub total_weight : List Weighted → ℕ
total_weight [] = 0
total_weight (w ∷ ws) = w.weight + total_weight ws

-- The loop of picker, with what it answers when no weight is left, the last operation.
unfoldable pub pick_from : Op → ℕ → List Weighted → Op
pick_from last n [] = last
pick_from last n (w ∷ ws) =
    let rest = pick_from last (n - w.weight) ws in if ltb n w.weight then w.op else rest

abbrev pub last_op : Weighted → List Weighted → Op
last_op w [] = w.op
last_op w (v ∷ ws) = last_op v ws

-- picker on a mix that is not empty, for the number that was drawn.
unfoldable pub pick : Weighted → List Weighted → ℕ → Op
unfolding pick_from
pick w ws n = pick_from (last_op w ws) n (w ∷ ws)

-- Every operation as often as it weighs, in the order of the mix.
abbrev pub expand : List Weighted → List Op
expand [] = []
expand (w ∷ ws) = replicate w.weight w.op ++ expand ws

get_or-replicate :
    (k n : ℕ) (o d : Op) (rest : List Op) → n < k → get_or (replicate k o ++ rest) n d ≡ o
get_or-replicate zero n o d rest h = absurd (omega (arith, h))
get_or-replicate (suc k) zero o d rest h = refl
get_or-replicate (suc k) (suc n) o d rest h = get_or-replicate k n o d rest (omega (arith, h))

get_or-past :
    (k n : ℕ) (o d : Op) (rest : List Op)
    → k ≤ n
    → get_or (replicate k o ++ rest) n d ≡ get_or rest (n - k) d
get_or-past zero n o d rest h = let same : n ≡ n - 0 = omega arith in ap (λ m. get_or rest m d) same
get_or-past (suc k) zero o d rest h = absurd (omega (arith, h))
get_or-past (suc k) (suc n) o d rest h =
    let same : n - k ≡ suc n - suc k = omega arith in
    get_or-past k n o d rest (omega (arith, h)) ∙ ap (λ m. get_or rest m d) same

pick_from-expand :
    (last d : Op) (n : ℕ) (ws : List Weighted)
    → n < total_weight ws
    → pick_from last n ws ≡ get_or (expand ws) n d
unfolding pick_from
pick_from-expand last d n [] h = absurd (omega (arith, h))
pick_from-expand last d n (w ∷ ws) h = elim (Bool-cases (ltb n w.weight)) [
  | inl within ↦
      rw within (sym (get_or-replicate w.weight n w.op d (expand ws) (ltb→lt n w.weight within)))
  | inr past ↦
      let far : w.weight ≤ n = ground arith in
      rw (past, get_or-past w.weight n w.op d (expand ws) far)
        (pick_from-expand last d (n - w.weight) ws (omega arith))
]

pub length-expand : (ws : List Weighted) → length (expand ws) ≡ total_weight ws
length-expand [] = refl
length-expand (w ∷ ws) = omega (
  arith,
  length-append (replicate w.weight w.op) (expand ws),
  length-replicate w.weight w.op,
  length-expand ws,
)

-- A number drawn below the total weight picks the operation at that place of the list that has
-- every operation as often as it weighs, and the list is as long as the total weight: so each
-- operation is picked for just as many numbers as it weighs, and the answer for a draw past all
-- weights is never used.
pick-expand :
    (w : Weighted) (ws : List Weighted) (n : ℕ) (d : Op)
    → n < total_weight (w ∷ ws)
    → (length (expand (w ∷ ws)) ≡ total_weight (w ∷ ws))
      × (pick w ws n ≡ get_or (expand (w ∷ ws)) n d)
unfolding pick
pick-expand w ws n d h = (length-expand (w ∷ ws), pick_from-expand (last_op w ws) d n (w ∷ ws) h)
