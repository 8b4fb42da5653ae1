-- ===== src/Worker.antt =====
-- internal/worker/processor.go: the worker that turns a job into a thumbnail and metadata.
-- `W` is the state outside: the database, the object store and the demo faults. The image
-- repository, the object store, the codecs and the fault injector come as interfaces; spans,
-- durations and log lines are left out.
pub mod Images
pub mod Rules
pub mod Effects
pub mod Keys
pub mod Outcomes
pub mod Errors
pub mod Lifecycle
pub mod Settled
use golang_helloworld.Prelude.{
  Bool, Option, [], if◌then◌else◌, leb, length, ltb, none, some, suc, zero, ℕ, ◌%◌, ◌&&◌, ◌*◌, ◌++◌,
  ◌+◌, ◌^◌, ◌∷◌,
}
use golang_helloworld.Text.{Str, bytes, str_eq}
use golang_helloworld.Text.Decimal.{itoa, ℤ}
use golang_helloworld.Queue.Failure.{
  Context, Failure, Result, decoding, err, fault, load_image, object_too_large, ok, permanent, skip,
  thumbnailing, too_many_pixels, unknown_job_type, wrap,
}
use golang_helloworld.Queue.Job.{Job, job_type_process_image}
use golang_helloworld.Worker.Images.{Image, ProcessingResult, Repository, failed, processing, ready}

-- An action that may fail; what it changed before it failed stays changed.
abbrev pub Io : Type 0 → Type 0 → Type 0
Io W A = W → Result A × W

-- What storage.ImageProcessor and image.DecodeConfig give for the bytes of a file.
pub record ImageInfo : Type 0 where
  pub width : ℕ
  pub height : ℕ
  pub format : Str
  pub color_space : Str
  pub has_alpha : Bool

pub record Codec : Type 0 where
  pub decode_config : Str → Result (ℕ × ℕ)
  pub get_image_info : Str → Result ImageInfo
  pub generate_thumbnail : Str → ℕ → ℕ → Result Str

-- An open object: what it holds, and an error that a read past its end would meet.
pub record Reader : Type 0 where
  pub content : Str
  pub read_error : Option Failure

pub record Store (W : Type 0) : Type 0 where
  pub retrieve : Str → Io W Reader
  pub store_at : Str → Str → Str → W → Option Failure × W

pub record Processor (W : Type 0) : Type 0 where
  pub images : Repository W
  pub store : Store W
  pub codec : Codec
  pub faults : Option (W → Option Failure × W)
  pub max_bytes : ℕ
  pub max_pixels : ℕ
  pub thumb_size : ℕ

-- A call that returns an error or nil.
abbrev pub checked_result : Option Failure → Result (Unit {0})
checked_result none = ok tt
checked_result (some e) = err e

module _ {W : Type 0} where
  abbrev pub continue : {A B : Type 0} → Result A → (A → Io W B) → Io W B
  continue (ok a) f w = f a w
  continue (err e) f w = (err e, w)

  infixl 10 ◌>>=◌ ◌>>◌
  abbrev pub ◌>>=◌ : {A B : Type 0} → Io W A → (A → Io W B) → Io W B
  ◌>>=◌ m f w = let (r, w') = m w in continue r f w'

  abbrev pub ◌>>◌ : {A B : Type 0} → Io W A → Io W B → Io W B
  m >> n = m >>= λ _. n

  abbrev pub pure : {A : Type 0} → A → Io W A
  pure a w = (ok a, w)

  abbrev pub fail : {A : Type 0} → Failure → Io W A
  fail e w = (err e, w)

  abbrev pub lift : {A : Type 0} → Result A → Io W A
  lift r w = (r, w)

  abbrev pub checked : (W → Option Failure × W) → Io W (Unit {0})
  checked act w = let (e, w') = act w in (checked_result e, w')

-- return nil, queue.Permanent(fmt.Errorf("…: %w", err))
abbrev pub permanently {ℓ} : {A : Type ℓ} → Context → Result A → Result A
permanently c (ok a) = ok a
permanently c (err e) = err (permanent (wrap c e))

-- io.ReadAll(io.LimitReader(rc, limit)): an error that lies behind the limit is not met.
abbrev pub take_bytes : ℕ → Str → Str
take_bytes zero s = []
take_bytes (suc n) [] = []
take_bytes (suc n) (b ∷ s) = b ∷ take_bytes n s

abbrev pub read_all : Str → Option Failure → Result Str
read_all content none = ok content
read_all content (some e) = err e

unfoldable pub read_limited : ℕ → Reader → Result Str
read_limited limit r =
    if leb limit (length r.content)
    then ok (take_bytes limit r.content)
    else read_all r.content r.read_error

-- The extension and content type by the decoded format.
unfoldable pub thumbnail_format : Str → Str × Str
thumbnail_format format =
    if str_eq format (bytes "png")
    then (bytes ".png", bytes "image/png")
    else if str_eq format (bytes "gif")
    then (bytes ".gif", bytes "image/gif")
    else (bytes ".jpg", bytes "image/jpeg")

unfoldable pub thumbnail_key : ℤ → Str → Str
thumbnail_key image_id format =
    bytes "thumbnails/" ++ (itoa image_id ++ (thumbnail_format format).0)

-- cfg.Width*cfg.Height > max on 64-bit ints, which wraps.
abbrev pub exceeds_pixels : ℕ → ℕ → ℕ → Bool
exceeds_pixels max_pixels width height =
    let product = (width * height) % 2 ^ 64 in ltb product (2 ^ 63) && ltb max_pixels product

abbrev pub result_of : ImageInfo → Str → ProcessingResult
result_of info key = record {
  thumbnail_path = key;
  width = info.width;
  height = info.height;
  format = info.format;
  color_space = info.color_space;
  has_alpha = info.has_alpha;
}

module _ {W : Type 0} (p : Processor W) where
  unfoldable pub fetch : Str → Io W Str
  fetch path = do
    reader ← p.store.retrieve path
    content ← lift (read_limited (p.max_bytes + 1) reader)
    if ltb p.max_bytes (length content)
        then fail (permanent (fault (object_too_large p.max_bytes)))
        else pure content

  unfoldable pub decode : Str → Result ImageInfo
  decode content = elim (p.codec.decode_config content) [
    | err e ↦ err (permanent (wrap decoding e))
    | ok (width, height) ↦
        if exceeds_pixels p.max_pixels width height
        then err (permanent (fault (too_many_pixels width height)))
        else permanently decoding (p.codec.get_image_info content)
  ]

  unfoldable pub thumbnail : Str → Result Str
  thumbnail content =
      permanently thumbnailing (p.codec.generate_thumbnail content p.thumb_size p.thumb_size)

  unfoldable pub store_thumbnail : ℤ → Str → Str → Io W Str
  store_thumbnail image_id format thumb = do
    let key = thumbnail_key image_id format
    checked (p.store.store_at key (thumbnail_format format).1 thumb)
    pure key

  unfoldable pub process : Image → Io W ProcessingResult
  process img = do
    content ← fetch img.storage_path
    info ← lift (decode content)
    thumb ← lift (thumbnail content)
    key ← store_thumbnail img.id info.format thumb
    pure (result_of info key)

  abbrev pub injected : Option (W → Option Failure × W) → Io W (Unit {0})
  injected none = pure tt
  injected (some fault_of) = checked fault_of

  -- The part of `Handle` after the image is loaded and found not to be ready.
  unfoldable pub work_on : Image → Io W (Unit {0})
  work_on img = do
    checked (p.images.update_status img.id processing none)
    injected p.faults
    result ← process img
    checked (p.images.complete_processing img.id result)

  abbrev pub loaded : ℤ → Result Image → Io W (Unit {0})
  loaded id (err e) = fail (wrap (load_image id) e)
  loaded id (ok img) = elim img.status [ ready ↦ fail skip | _ ↦ work_on img ]

  unfoldable pub handle_job : Job → Io W (Unit {0})
  handle_job job w =
      if str_eq job.kind job_type_process_image
      then (let (found, w') = p.images.get_by_id job.image_id w in loaded job.image_id found w')
      else (err (permanent (fault (unknown_job_type job.kind))), w)

  -- The dead-letter hook: an error of the write is only recorded on the span. With no cause,
  -- `cause.Error()` panics before the write.
  unfoldable pub on_dead_letter : Job → Option Failure → W → W
  on_dead_letter job none w = w
  on_dead_letter job (some cause) w = (p.images.update_status job.image_id failed (some cause) w).1

-- NewProcessor
unfoldable pub new_processor :
    {W : Type 0} → Repository W → Store W → Codec → Option (W → Option Failure × W) → Processor W
new_processor images store codec faults = record {
  images = images;
  store = store;
  codec = codec;
  faults = faults;
  max_bytes = 10 * 2 ^ 20;
  max_pixels = 40_000_000;
  thumb_size = 320;
}
