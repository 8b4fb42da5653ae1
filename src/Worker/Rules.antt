-- ===== src/Worker/Rules.antt =====
-- Rules for the actions of internal/worker/processor.go: that one writes to no row, what it returns,
-- and which errors it returns.
use golang_helloworld.Prelude.{
  Bool, Option, false, if◌then◌else◌, none, refl, some, subst, true, ◌∙◌, ◌≡◌,
}
use golang_helloworld.Text.Decimal.{ℤ}
use golang_helloworld.Queue.Failure.{Failure, Result, err, ok}
use golang_helloworld.Worker.Images.{Row}
use golang_helloworld.Worker.{Io, checked, checked_result, continue, fail, lift, pure, ◌>>=◌}

-- `m` writes to no row.
pub record Quiet {W A : Type 0} (row : ℤ → W → Option Row) (m : Io W A) : Type 0 where
  pub at : (w : W) (j : ℤ) → row j (m w).1 ≡ row j w

module _ {W A : Type 0} {row : ℤ → W → Option Row} where
  pub Quiet-lift : (r : Result A) → Quiet row (lift r)
  Quiet-lift r = record { at = λ w j. refl }

  pub Quiet-fail : (e : Failure) → Quiet row (fail {A = A} e)
  Quiet-fail e = record { at = λ w j. refl }

  pub Quiet-pure : (a : A) → Quiet row (pure a)
  Quiet-pure a = record { at = λ w j. refl }

  pub Quiet-if :
      (b : Bool) (m n : Io W A) → Quiet row m → Quiet row n → Quiet row (if b then m else n)
  Quiet-if true m n km kn = km
  Quiet-if false m n km kn = kn

module _ {W : Type 0} {row : ℤ → W → Option Row} where
  pub Quiet-checked :
      (act : W → Option Failure × W)
      → ((w : W) (j : ℤ) → row j (act w).1 ≡ row j w)
      → Quiet row (checked act)
  Quiet-checked act keeps = record { at = keeps }

module _ {W A B : Type 0} {row : ℤ → W → Option Row} where
  continue-Quiet :
      (r : Result A) (f : A → Io W B)
      → ((a : A) → Quiet row (f a))
      → (w : W) (j : ℤ) → row j (continue r f w).1 ≡ row j w
  continue-Quiet (ok a) f kf w j = (kf a).at w j
  continue-Quiet (err e) f kf w j = refl

  pub Quiet-bind :
      (m : Io W A) (f : A → Io W B)
      → Quiet row m
      → ((a : A) → Quiet row (f a))
      → Quiet row (m >>= f)
  Quiet-bind m f km kf = record { at = λ w j. continue-Quiet (m w).0 f kf (m w).1 j ∙ km.at w j }

pub ruleset quiet_rules = (Quiet-lift, Quiet-fail, Quiet-pure, Quiet-if, Quiet-bind)

-- Whatever `m` returns has `P`.
pub record Gives {W A : Type 0} (P : A → Type 0) (m : Io W A) : Type 0 where
  pub at : (w : W) (a : A) → (m w).0 ≡ ok a → P a

module _ {W A : Type 0} {P : A → Type 0} where
  pub Gives-pure : (a : A) → P a → Gives {W = W} P (pure a)
  Gives-pure a h = record { at = λ w b e. subst P (ok-injective e) h }
    where
      ok-injective : {b : A} → ok a ≡ ok b → a ≡ b
      ok-injective e = cc

module _ {W A B : Type 0} {P : B → Type 0} where
  pub Gives-bind : (m : Io W A) (f : A → Io W B) → ((a : A) → Gives P (f a)) → Gives P (m >>= f)
  Gives-bind m f kf = record { at = λ w b. go (m w).0 (m w).1 b }
    where
      go : (r : Result A) (w : W) (b : B) → (continue r f w).0 ≡ ok b → P b
      go (ok a) w b e = (kf a).at w b e
      go (err c) w b e = cc

module _ {W A B : Type 0} {P : B → Type 0} {Q : A → Type 0} where
  -- The rest may use what the first part gives.
  pub Gives-bind_with :
      (m : Io W A) (f : A → Io W B)
      → Gives Q m
      → ((a : A) → Q a → Gives P (f a))
      → Gives P (m >>= f)
  Gives-bind_with m f km kf = record { at = λ w b. go (m w).0 (m w).1 b (km.at w) }
    where
      go :
          (r : Result A) (w : W) (b : B)
          → ((a : A) → r ≡ ok a → Q a)
          → (continue r f w).0 ≡ ok b
          → P b
      go (ok a) w b q e = (kf a (q a refl)).at w b e
      go (err c) w b q e = cc

-- Whatever error `m` returns has `P`.
pub record Errs {W A : Type 0} (P : Failure → Type 0) (m : Io W A) : Type 0 where
  pub at : (w : W) (e : Failure) → (m w).0 ≡ err e → P e

module _ {W A : Type 0} {P : Failure → Type 0} where
  pub Errs-pure : (a : A) → Errs {W = W} P (pure a)
  Errs-pure a = record { at = λ w e h. cc }

  pub Errs-fail : (c : Failure) → P c → Errs {W = W} {A = A} P (fail c)
  Errs-fail c h = record { at = λ w e same. subst P (err-injective same) h }
    where
      err-injective : {e : Failure} → ◌≡◌ {A = Result A} (err c) (err e) → c ≡ e
      err-injective same = cc

  pub Errs-lift : (r : Result A) → ((e : Failure) → r ≡ err e → P e) → Errs {W = W} P (lift r)
  Errs-lift r h = record { at = λ w e same. h e same }

  pub Errs-if : (b : Bool) (m n : Io W A) → Errs P m → Errs P n → Errs P (if b then m else n)
  Errs-if true m n km kn = km
  Errs-if false m n km kn = kn

checked_error : (r : Option Failure) (e : Failure) → checked_result r ≡ err e → r ≡ some e
checked_error none e h = cc
checked_error (some c) e h = cc

module _ {W : Type 0} {P : Failure → Type 0} where
  pub Errs-checked :
      (act : W → Option Failure × W)
      → ((w : W) (e : Failure) → (act w).0 ≡ some e → P e)
      → Errs P (checked act)
  Errs-checked act h = record { at = λ w e same. h w e (checked_error (act w).0 e same) }

module _ {W A B : Type 0} {P : Failure → Type 0} where
  -- The rest may use what the first part gave.
  pub Errs-bind_with :
      (m : Io W A) (f : A → Io W B)
      → Errs P m
      → ((w : W) (a : A) → (m w).0 ≡ ok a → Errs P (f a))
      → Errs P (m >>= f)
  Errs-bind_with m f km kf = record { at = λ w e. go (m w).0 (m w).1 (km.at w) (kf w) e }
    where
      go :
          (r : Result A) (w : W)
          → ((e : Failure) → r ≡ err e → P e)
          → ((a : A) → r ≡ ok a → Errs P (f a))
          → (e : Failure) → (continue r f w).0 ≡ err e
          → P e
      go (ok a) w q k e same = (k a refl).at w e same
      go (err c) w q k e same = q e cc

  pub Errs-bind :
      (m : Io W A) (f : A → Io W B) → Errs P m → ((a : A) → Errs P (f a)) → Errs P (m >>= f)
  Errs-bind m f km kf = Errs-bind_with m f km (λ w a _. kf a)
