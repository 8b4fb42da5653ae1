-- ===== src/Text.antt =====
-- Go strings as lists of bytes, with what the program uses of the standard library on them.
pub mod Decimal
pub mod Utf8
pub mod Search
use Prim.Native.Char.{code}
use golang_helloworld.Prelude.{
  Bool, Bool-cases, List, String, [], arith, false, inl, inr, refl, subst, true, ℕ, ◌&&◌, ◌==◌, ◌↔◌,
  ◌∷◌, ◌≡◌, ◌≢◌,
}

abbrev pub Str : Type 0
Str = List ℕ

-- The bytes of an ASCII literal. `String` has its own `[]` and `∷`.
abbrev pub bytes : String → Str
bytes String.[] = []
bytes (String.◌∷◌ c s) = code c ∷ bytes s

-- s == t
unfoldable pub str_eq : Str → Str → Bool
str_eq [] [] = true
str_eq [] (c ∷ t) = false
str_eq (b ∷ s) [] = false
str_eq (b ∷ s) (c ∷ t) = (b == c) && str_eq s t

pub str_eq→≡ : (s t : Str) → str_eq s t ≡ true → s ≡ t
unfolding str_eq
str_eq→≡ [] [] h = refl
str_eq→≡ [] (c ∷ t) h = cc
str_eq→≡ (b ∷ s) [] h = cc
str_eq→≡ (b ∷ s) (c ∷ t) h = ground (arith, str_eq→≡ s t)

pub str_eq_refl : (s : Str) → str_eq s s ≡ true
unfolding str_eq
str_eq_refl [] = refl
str_eq_refl (b ∷ s) = ground (arith, str_eq_refl s)

pub str_eq_iff : (s t : Str) → (str_eq s t ≡ true) ↔ (s ≡ t)
str_eq_iff s t = (str_eq→≡ s t, λ e. rw e (str_eq_refl t))

pub str_eq-false : (s t : Str) → (str_eq s t ≡ false) ↔ (s ≢ t)
str_eq-false s t = elim (Bool-cases (str_eq s t)) [
  | inl same ↦ (λ h. absurd (cc (same, h)), λ h. absurd (h (str_eq→≡ s t same)))
  | inr apart ↦ (λ h e. cc (apart, subst (λ u. str_eq s u ≡ true) e (str_eq_refl s)), λ h. apart)
]
