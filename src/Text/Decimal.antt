-- ===== src/Text/Decimal.antt =====
-- strconv.Itoa and strconv.Atoi on 64-bit ints.
use golang_helloworld.Prelude.{
  All, Bool-cases, List, Option, [], ap, arith, if◌then◌else◌, inl, inr, leb, le→leb, ltb, lt→ltb,
  none, refl, some, suc, zero, ℕ, ◌%◌, ◌&&◌, ◌*◌, ◌+◌, ◌-◌, ◌/◌, ◌<◌, ◌==◌, ◌^◌, ◌∙◌, ◌∷◌, ◌≡◌, ◌≢◌,
  ◌≤◌,
}

-- A Go int: `negsuc n` is -(n + 1).
pub data ℤ : Type 0 where
  pos : ℕ → ℤ
  negsuc : ℕ → ℤ

abbrev pub InInt64 : ℤ → Type 0
InInt64 (pos n) = n < 2 ^ 63
InInt64 (negsuc n) = n < 2 ^ 63

abbrev digit : ℕ → ℕ
digit n = 48 + n % 10

format : ℕ → ℕ → List ℕ → List ℕ
format zero n acc = acc
format (suc fuel) n acc =
    let rest = format fuel (n / 10) (digit n ∷ acc) in if n / 10 == 0 then digit n ∷ acc else rest

unfoldable pub itoa_nat : ℕ → List ℕ
unfolding format
itoa_nat n = format (suc n) n []

unfoldable pub itoa : ℤ → List ℕ
itoa (pos n) = itoa_nat n
itoa (negsuc n) = b'-' ∷ itoa_nat (suc n)

parse_digits : ℕ → List ℕ → Option ℕ
parse_digits n [] = some n
parse_digits n (c ∷ s) =
    let rest = parse_digits (n * 10 + (c - 48)) s in if leb 48 c && leb c 57 then rest else none

-- At least one digit, and nothing else.
parse_nat : List ℕ → Option ℕ
unfolding parse_digits
parse_nat [] = none
parse_nat (c ∷ s) = parse_digits 0 (c ∷ s)

abbrev positive : Option ℕ → Option ℤ
positive none = none
positive (some n) = if ltb n (2 ^ 63) then some (pos n) else none

abbrev negative : Option ℕ → Option ℤ
negative none = none
negative (some zero) = some (pos 0)
negative (some (suc n)) = if ltb n (2 ^ 63) then some (negsuc n) else none

unfoldable pub atoi : List ℕ → Option ℤ
unfolding parse_nat
atoi [] = none
atoi (c ∷ s) =
    if c == b'-'
    then negative (parse_nat s)
    else if c == b'+'
    then positive (parse_nat s)
    else positive (parse_nat (c ∷ s))

parse_digits-digit :
    (n m : ℕ) (s : List ℕ) → parse_digits n (digit m ∷ s) ≡ parse_digits (n * 10 + m % 10) s
unfolding parse_digits
parse_digits-digit n m s =
    let value : n * 10 + (digit m - 48) ≡ n * 10 + m % 10 = omega arith in
    rw (le→leb 48 (digit m) (omega arith), le→leb (digit m) 57 (omega arith), value) refl

-- Parsing what was printed in front of `acc` is parsing on with the number.
parse_digits-format :
    (fuel n : ℕ) (acc : List ℕ) → n < fuel → parse_digits 0 (format fuel n acc) ≡ parse_digits n acc
unfolding format
parse_digits-format zero n acc h = elim h [ ]
parse_digits-format (suc fuel) n acc h = elim (Bool-cases (n / 10 == 0)) [
  | inl done ↦
      let e : 0 * 10 + n % 10 ≡ n = ground arith in rw (done, parse_digits-digit 0 n acc, e) refl
  | inr more ↦
      let e : (n / 10) * 10 + n % 10 ≡ n = omega arith in
      rw
        (
          more,
          parse_digits-format fuel (n / 10) (digit n ∷ acc) (ground arith),
          parse_digits-digit (n / 10) n acc,
          e,
        )
        refl
]

-- What `format` prints begins with a digit, which is no sign.
format-digit :
    (fuel n : ℕ) (acc : List ℕ)
    → (c : ℕ) × (s : List ℕ) × (format (suc fuel) n acc ≡ c ∷ s) × (48 ≤ c) × (c ≤ 57)
unfolding format
format-digit zero n acc = elim (Bool-cases (n / 10 == 0)) [
  | inl done ↦ (digit n, acc, rw done, omega arith, omega arith)
  | inr more ↦ (digit n, acc, rw more, omega arith, omega arith)
]
format-digit (suc fuel) n acc = elim (Bool-cases (n / 10 == 0)) [
  | inl done ↦ (digit n, acc, rw done, omega arith, omega arith)
  | inr more ↦ rw more (format-digit fuel (n / 10) (digit n ∷ acc))
]

pub itoa_nat-digit : (n : ℕ) → (c : ℕ) × (s : List ℕ) × (itoa_nat n ≡ c ∷ s) × (48 ≤ c) × (c ≤ 57)
unfolding itoa_nat
itoa_nat-digit n = format-digit n n []

parse_nat_nonempty : (t : List ℕ) (c : ℕ) (s : List ℕ) → t ≡ c ∷ s → parse_nat t ≡ parse_digits 0 t
unfolding parse_nat
parse_nat_nonempty t c s e = rw e refl

parse_digits-itoa_nat : (n : ℕ) → parse_digits 0 (itoa_nat n) ≡ some n
unfolding itoa_nat parse_digits
parse_digits-itoa_nat n = parse_digits-format (suc n) n [] (omega arith)

parse_nat-itoa_nat : (n : ℕ) → parse_nat (itoa_nat n) ≡ some n
parse_nat-itoa_nat n =
    let (c, s, e, _, _) = itoa_nat-digit n in
    parse_nat_nonempty (itoa_nat n) c s e ∙ parse_digits-itoa_nat n

atoi_unsigned :
    (t : List ℕ) (c : ℕ) (s : List ℕ) → t ≡ c ∷ s → 48 ≤ c → atoi t ≡ positive (parse_nat t)
unfolding atoi
atoi_unsigned t c s e h = rw e (ground arith)

atoi-itoa_pos : (n : ℕ) → n < 2 ^ 63 → atoi (itoa_nat n) ≡ some (pos n)
atoi-itoa_pos n h =
    let (c, s, e, low, _) = itoa_nat-digit n in
    rw (atoi_unsigned (itoa_nat n) c s e low, parse_nat-itoa_nat n, lt→ltb n (2 ^ 63) h) refl

-- strconv.Atoi reads back what strconv.Itoa wrote.
pub atoi-itoa : (z : ℤ) → InInt64 z → atoi (itoa z) ≡ some z
unfolding itoa
atoi-itoa (pos n) h = atoi-itoa_pos n h
atoi-itoa (negsuc n) h = unfold atoi in rw (parse_nat-itoa_nat (suc n), lt→ltb n (2 ^ 63) h) refl

-- So numbers that print alike are one number.
pub itoa_inj : (a b : ℤ) → InInt64 a → InInt64 b → itoa a ≡ itoa b → a ≡ b
itoa_inj a b ha hb e = cc (atoi-itoa a ha, ap atoi e, atoi-itoa b hb)

-- What is printed is digits, with a sign in front at most.
abbrev pub IsDecimal : ℕ → Type 0
IsDecimal c = (45 ≤ c) × (c ≤ 57) × (c ≢ 46) × (c ≢ 47)

format-IsDecimal :
    (fuel n : ℕ) (acc : List ℕ) → All IsDecimal acc → All IsDecimal (format fuel n acc)
unfolding format
format-IsDecimal zero n acc h = h
format-IsDecimal (suc fuel) n acc h =
    let first : IsDecimal (digit n) = (omega arith, omega arith, omega arith, omega arith) in
    elim (Bool-cases (n / 10 == 0)) [
      | inl done ↦ rw done (first, h)
      | inr more ↦ rw more (format-IsDecimal fuel (n / 10) (digit n ∷ acc) (first, h))
    ]

pub itoa-IsDecimal : (z : ℤ) → All IsDecimal (itoa z)
unfolding itoa itoa_nat
itoa-IsDecimal (pos n) = format-IsDecimal (suc n) n [] tt
itoa-IsDecimal (negsuc n) = (
  (omega arith, omega arith, omega arith, omega arith),
  format-IsDecimal (suc (suc n)) (suc n) [] tt,
)
