-- ===== src/Prelude/Equivalences.antt =====
-- Equivalences between conditions, and what makes a list of complaints empty.
use golang_helloworld.Prelude.Lists.{All}
use mathlib.Core.Path.{◌≡◌, refl}
use mathlib.Core.Logic.{◌↔◌}
use mathlib.Core.Bool.{Bool, true, false, not, ◌||◌, ◌&&◌}
use mathlib.Core.List.{List, [], ◌∷◌, ◌++◌}

pub iff_trans {ℓ κ μ} : {A : Type ℓ} {B : Type κ} {C : Type μ} → A ↔ B → B ↔ C → A ↔ C
iff_trans (f, g) (h, k) = (λ a. h (f a), λ c. g (k c))

pub iff_pair {ℓ κ μ ν} :
    {A : Type ℓ} {B : Type κ} {C : Type μ} {D : Type ν} → A ↔ C → B ↔ D → (A × B) ↔ (C × D)
iff_pair (f, g) (h, k) = (λ (a, b). (f a, h b), λ (c, d). (g c, k d))

pub iff_last {ℓ κ} : {A : Type ℓ} {B : Type κ} → A ↔ B → (A × Unit {ℓ}) ↔ B
iff_last (f, g) = (λ (a, _). f a, λ b. (g b, tt))

-- One list after the other.
abbrev pub gather {ℓ} : {A : Type ℓ} → List (List A) → List A
gather [] = []
gather (xs ∷ rest) = xs ++ gather rest

pub gather-nil {ℓ} :
    {A : Type ℓ} (lists : List (List A)) → (gather lists ≡ []) ↔ All (λ xs. xs ≡ []) lists
gather-nil [] = (λ h. tt, λ h. refl)
gather-nil ([] ∷ rest) = (λ h. (refl, (gather-nil rest).0 h), λ h. (gather-nil rest).1 h.1)
gather-nil ((x ∷ xs) ∷ rest) = (λ h. absurd (cc h), λ h. absurd (cc (h.0)))

pub not_iff : (b : Bool) → (not b ≡ false) ↔ (b ≡ true)
not_iff true = (λ h. refl, λ h. refl)
not_iff false = (λ h. cc h, λ h. cc h)

pub or_false_iff : (a b : Bool) → ((a || b) ≡ false) ↔ ((a ≡ false) × (b ≡ false))
or_false_iff true b = (λ h. absurd (cc h), λ h. absurd (cc (h.0)))
or_false_iff false b = (λ h. (refl, h), λ h. h.1)

pub and_true_iff : (a b : Bool) → ((a && b) ≡ true) ↔ ((a ≡ true) × (b ≡ true))
and_true_iff true b = (λ h. (refl, h), λ h. h.1)
and_true_iff false b = (λ h. absurd (cc h), λ h. absurd (cc (h.0)))

pub and_false : (a : Bool) → (a && false) ≡ false
and_false true = refl
and_false false = refl
