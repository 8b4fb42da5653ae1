-- ===== src/Worker/Keys.antt =====
-- The keys of thumbnails in internal/worker/processor.go.
use golang_helloworld.Prelude.{
  All, All-imp, Bool-cases, Option, [], ap, append_cancel, inl, inr, none, refl, some, subst, sym,
  ◌++◌, ◌∙◌, ◌∷◌, ◌≡◌, ◌≢◌,
}
use golang_helloworld.Text.{Str, bytes, str_eq}
use golang_helloworld.Text.Decimal.{InInt64, itoa, itoa-IsDecimal, itoa_inj, ℤ}
use golang_helloworld.Worker.Images.{Image, ProcessingResult}
use golang_helloworld.Queue.Failure.{Failure, ok}
use golang_helloworld.Worker.{
  Processor, checked_result, continue, decode, fetch, lift, process, pure, result_of,
  store_thumbnail, thumbnail, thumbnail_format, thumbnail_key,
}
use golang_helloworld.Worker.Rules.{Gives, Gives-bind, Gives-bind_with, Gives-pure}

module _ {W : Type 0} (p : Processor W) where
  -- The object store took something under the key, as of the type of the format.
  abbrev pub IsStoredAs : Str → Str → Type 0
  IsStoredAs key format =
      (thumb : Str) × (w : W) × ((p.store.store_at key (thumbnail_format format).1 thumb w).0
        ≡ none)

  -- What `process` gives is stored under the image's own key.
  abbrev pub HasKey : ℤ → ProcessingResult → Type 0
  HasKey id pr =
      (pr.thumbnail_path ≡ thumbnail_key id pr.format) × IsStoredAs pr.thumbnail_path pr.format

  store_thumbnail-key :
      (id : ℤ) (format thumb : Str)
      → Gives
          (λ k. (k ≡ thumbnail_key id format) × IsStoredAs k format)
          (store_thumbnail p id format thumb)
  unfolding store_thumbnail
  store_thumbnail-key id format thumb = record {
    at = λ w k e.
        go w (p.store.store_at (thumbnail_key id format) (thumbnail_format format).1 thumb w) refl k
          e;
  }
    where
      ok-inj : {a b : Str} → ok a ≡ ok b → a ≡ b
      ok-inj e = cc

      go :
          (w : W) (answer : Option Failure × W)
          → p.store.store_at (thumbnail_key id format) (thumbnail_format format).1 thumb w ≡ answer
          → (k : Str)
          → (continue (checked_result answer.0) (λ u. pure (thumbnail_key id format)) answer.1).0
            ≡ ok k
          → (k ≡ thumbnail_key id format) × IsStoredAs k format
      go w (some c, w') stored k e = absurd (cc e)
      go w (none, w') stored k e =
          subst (λ key. (key ≡ thumbnail_key id format) × IsStoredAs key format) (ok-inj e)
            (refl, (thumb, w, ap (λ a. a.0) stored))

module _ {W : Type 0} (p : Processor W) (img : Image) where
  pub process-key : Gives (HasKey p img.id) (process p img)
  unfolding process
  process-key = Gives-bind (fetch p img.storage_path) _ λ content.
      Gives-bind (lift (decode p content)) _ λ info.
        Gives-bind (lift (thumbnail p content)) _ λ thumb.
          Gives-bind_with (store_thumbnail p img.id info.format thumb)
            (λ key. pure (result_of info key)) (store_thumbnail-key p img.id info.format thumb)
            λ key e. Gives-pure (result_of info key) e

-- A dot ends the number in a key.
abbrev NoDot : Str → Type 0
NoDot s = All (λ b. b ≢ b'.') s

split_at_dot : (xs ys s t : Str) → NoDot xs → NoDot ys → xs ++ b'.' ∷ s ≡ ys ++ b'.' ∷ t → xs ≡ ys
split_at_dot [] [] s t hx hy e = refl
split_at_dot [] (y ∷ ys) s t hx hy e = absurd (hy.0 (cc e))
split_at_dot (x ∷ xs) [] s t hx hy e = absurd (hx.0 (cc e))
split_at_dot (x ∷ xs) (y ∷ ys) s t hx hy e = cc (e, split_at_dot xs ys s t hx.1 hy.1 (cc e))

itoa-NoDot : (z : ℤ) → NoDot (itoa z)
itoa-NoDot z = All-imp (itoa z) (λ b h. h.2) (itoa-IsDecimal z)

extension_dot : (format : Str) → (s : Str) × ((thumbnail_format format).0 ≡ b'.' ∷ s)
unfolding thumbnail_format
extension_dot format = elim (Bool-cases (str_eq format (bytes "png"))) [
  | inl png ↦ rw png (_, refl)
  | inr other_ ↦ rw other_ (elim (Bool-cases (str_eq format (bytes "gif"))) [
    | inl gif ↦ rw gif (_, refl)
    | inr else_ ↦ rw else_ (_, refl)
  ])
]

-- Distinct images have distinct thumbnail keys, whatever the formats.
pub thumbnail_key_inj :
    (a b : ℤ) (f g : Str) → InInt64 a → InInt64 b → thumbnail_key a f ≡ thumbnail_key b g → a ≡ b
unfolding thumbnail_key
thumbnail_key_inj a b f g ha hb e =
    let (s, es) = extension_dot f in
    let (t, et) = extension_dot g in
    let tail : itoa a ++ b'.' ∷ s ≡ itoa b ++ b'.' ∷ t =
      ap (◌++◌ (itoa a)) (sym es)
      ∙ append_cancel (bytes "thumbnails/") _ _ e
      ∙ ap (◌++◌ (itoa b)) et in
    itoa_inj a b ha hb (split_at_dot (itoa a) (itoa b) s t (itoa-NoDot a) (itoa-NoDot b) tail)
