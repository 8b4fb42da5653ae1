-- ===== src/Worker/Errors.antt =====
-- Which errors the handler of internal/worker/processor.go returns.
use golang_helloworld.Prelude.{
  Bool-cases, Option, arith, false, if◌then◌else◌, inl, inr, leb, length, none, refl, some, ℕ, ◌+◌,
  ◌≡◌,
}
use golang_helloworld.Text.{Str}
use golang_helloworld.Text.Decimal.{ℤ}
use golang_helloworld.Queue.Failure.{
  Context, Failure, Result, decoding, err, fault, is_skip, ok, permanent, thumbnailing,
  too_many_pixels, wrap,
}
use golang_helloworld.Worker.Images.{Image, ProcessingResult, Status, processing}
use golang_helloworld.Worker.{
  ImageInfo, Processor, Reader, checked, decode, exceeds_pixels, fetch, injected, lift, permanently,
  process, pure, read_all, read_limited, result_of, store_thumbnail, thumbnail, thumbnail_format,
  thumbnail_key, work_on,
}
use golang_helloworld.Worker.Rules.{
  Errs, Errs-bind, Errs-bind_with, Errs-checked, Errs-fail, Errs-if, Errs-lift, Errs-pure,
}

-- The errors of what the worker calls do not wrap queue.ErrSkip, which only the worker returns.
pub record NeverSkips {W : Type 0} (p : Processor W) : Type 0 where
  pub get : (id : ℤ) (w : W) (e : Failure) → (p.images.get_by_id id w).0 ≡ err e → is_skip e ≡ false
  pub update :
      (id : ℤ) (s : Status) (c : Option Failure) (w : W) (e : Failure)
      → (p.images.update_status id s c w).0 ≡ some e
      → is_skip e ≡ false
  pub complete :
      (id : ℤ) (pr : ProcessingResult) (w : W) (e : Failure)
      → (p.images.complete_processing id pr w).0 ≡ some e
      → is_skip e ≡ false
  pub retrieve :
      (path : Str) (w : W) (e : Failure) → (p.store.retrieve path w).0 ≡ err e → is_skip e ≡ false
  pub read :
      (path : Str) (w : W) (r : Reader) (e : Failure)
      → (p.store.retrieve path w).0 ≡ ok r
      → r.read_error ≡ some e
      → is_skip e ≡ false
  pub store :
      (key kind content : Str) (w : W) (e : Failure)
      → (p.store.store_at key kind content w).0 ≡ some e
      → is_skip e ≡ false
  pub config :
      (content : Str) (e : Failure) → p.codec.decode_config content ≡ err e → is_skip e ≡ false
  pub info :
      (content : Str) (e : Failure) → p.codec.get_image_info content ≡ err e → is_skip e ≡ false
  pub thumb :
      (content : Str) (x y : ℕ) (e : Failure)
      → p.codec.generate_thumbnail content x y ≡ err e
      → is_skip e ≡ false
  pub fault_of :
      (f : W → Option Failure × W)
      → p.faults ≡ some f
      → (w : W) (e : Failure) → (f w).0 ≡ some e
      → is_skip e ≡ false

abbrev NoSkip : Failure → Type 0
NoSkip e = is_skip e ≡ false

permanently_skip :
    {A : Type 0} (c : Context) (r : Result A)
    → ((e : Failure) → r ≡ err e → NoSkip e)
    → (e : Failure) → permanently c r ≡ err e
    → NoSkip e
permanently_skip c (ok a) h e same = cc
permanently_skip c (err d) h e same = ground (arith, h d refl)

read_all_skip :
    (content : Str) (r : Option Failure)
    → ((e : Failure) → r ≡ some e → NoSkip e)
    → (e : Failure) → read_all content r ≡ err e
    → NoSkip e
read_all_skip content none h e same = cc
read_all_skip content (some c) h e same = h e (ground arith)

module _ {W : Type 0} (p : Processor W) (never : NeverSkips p) where
  decode_skip : (content : Str) (e : Failure) → decode p content ≡ err e → NoSkip e
  unfolding decode
  decode_skip content e h = go (p.codec.decode_config content) (never.config content) h
    where
      go :
          (r : Result (ℕ × ℕ))
          → ((e : Failure) → r ≡ err e → NoSkip e)
          → (elim r as (λ x. Result ImageInfo) [
            | err e ↦ err (permanent (wrap decoding e))
            | ok (width, height) ↦
                if exceeds_pixels p.max_pixels width height
                then err (permanent (fault (too_many_pixels width height)))
                else permanently decoding (p.codec.get_image_info content)
          ])
            ≡ err e
          → NoSkip e
      go (err c) q same = ground (arith, q c refl)
      go (ok (x, y)) q same = elim (Bool-cases (exceeds_pixels p.max_pixels x y)) [
        | inl large ↦ ground arith
        | inr fits ↦
            permanently_skip decoding (p.codec.get_image_info content) (never.info content) e
              (ground arith)
      ]

  thumbnail_skip : (content : Str) (e : Failure) → thumbnail p content ≡ err e → NoSkip e
  unfolding thumbnail
  thumbnail_skip content =
      permanently_skip thumbnailing _ (never.thumb content p.thumb_size p.thumb_size)

  read_limited_skip :
      (limit : ℕ) (r : Reader)
      → ((e : Failure) → r.read_error ≡ some e → NoSkip e)
      → (e : Failure) → read_limited limit r ≡ err e
      → NoSkip e
  unfolding read_limited
  read_limited_skip limit r h e same = elim (Bool-cases (leb limit (length r.content))) [
    | inl long ↦ ground arith
    | inr short ↦ read_all_skip r.content r.read_error h e (ground arith)
  ]

  fetch-Errs : (path : Str) → Errs NoSkip (fetch p path)
  unfolding fetch
  fetch-Errs path =
      Errs-bind_with (p.store.retrieve path) _ (record { at = never.retrieve path })
        λ w reader got.
          Errs-bind (lift (read_limited (p.max_bytes + 1) reader)) _
            (Errs-lift _ (
              read_limited_skip (p.max_bytes + 1) reader (λ e s. never.read path w reader e got s)))
            λ content. Errs-if _ _ _ (Errs-fail _ refl) (Errs-pure content)

  store_thumbnail-Errs :
      (id : ℤ) (format thumb : Str) → Errs NoSkip (store_thumbnail p id format thumb)
  unfolding store_thumbnail
  store_thumbnail-Errs id format thumb =
      Errs-bind
        (checked (p.store.store_at (thumbnail_key id format) (thumbnail_format format).1 thumb))
        (λ u. pure (thumbnail_key id format))
        (Errs-checked _ (never.store (thumbnail_key id format) (thumbnail_format format).1 thumb))
        (λ u. Errs-pure _)

  process-Errs : (img : Image) → Errs NoSkip (process p img)
  unfolding process
  process-Errs img = Errs-bind (fetch p img.storage_path) _ (fetch-Errs img.storage_path) λ content.
      Errs-bind (lift (decode p content)) _ (Errs-lift _ (decode_skip content)) λ info.
        Errs-bind (lift (thumbnail p content)) _ (Errs-lift _ (thumbnail_skip content)) λ thumb.
          Errs-bind (store_thumbnail p img.id info.format thumb) (λ key. pure (result_of info key))
            (store_thumbnail-Errs img.id info.format thumb) λ key. Errs-pure _

  injected-Errs : Errs NoSkip (injected p p.faults)
  injected-Errs = go p.faults never.fault_of
    where
      go :
          (faults : Option (W → Option Failure × W))
          → ((f : W → Option Failure × W)
              → faults ≡ some f
              → (w : W) (e : Failure) → (f w).0 ≡ some e
              → NoSkip e)
          → Errs NoSkip (injected p faults)
      go none h = Errs-pure tt
      go (some f) h = Errs-checked f (h f refl)

  -- Once the image is loaded and not ready, the handler never answers ErrSkip.
  pub work_on-NoSkip :
      (img : Image) (w : W) (e : Failure) → (work_on p img w).0 ≡ err e → is_skip e ≡ false
  unfolding work_on
  work_on-NoSkip img = run.at
    where
      run : Errs NoSkip (work_on p img)
      run =
          Errs-bind (checked (p.images.update_status img.id processing none)) _
            (Errs-checked _ (never.update img.id processing none))
            λ u. Errs-bind (injected p p.faults) _ injected-Errs λ v.
              Errs-bind (process p img) (λ pr. checked (p.images.complete_processing img.id pr))
                (process-Errs img) λ pr. Errs-checked _ (never.complete img.id pr)
