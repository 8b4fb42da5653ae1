-- ===== src/Web/Upload/Accounted.antt =====
-- internal/web/handlers/upload.go: each file of an upload is answered once, and the status tells how.
use golang_helloworld.Prelude.{
  Bool-cases, List, Option, [], ap, arith, false, inl, inr, length, none, refl, some, suc, true, ℕ,
  ◌+◌, ◌↔◌, ◌∷◌, ◌≡◌,
}
use golang_helloworld.Text.{Str}
use golang_helloworld.Domain.{above}
use golang_helloworld.Domain.Request.{CreateImageRequest}
use golang_helloworld.Gallery.{GalleryImage}
use golang_helloworld.Web.Upload.{
  FileHeader, FileResult, UploadFault, UploadedImageInfo, after_create, create_if_supported,
  creation_failed, detect_content_type, errors_of, file_not_opened, file_too_large, images_of,
  is_supported_image_type, max_upload_file_size, parse_tags, process_files, process_uploaded_file,
  replies, status_code, type_not_detected, type_unsupported, upload_error, upload_images_handler,
  upload_request_of, uploaded_image, uploaded_of,
}

-- What holds of a file that is handed to CreateImage, of the type `t`.
abbrev pub Fits : FileHeader → Str → Type 0
Fits f t =
    (above f.upload_size max_upload_file_size ≡ false)
    × (f.opens ≡ true)
    × (detect_content_type f ≡ some t)
    × (is_supported_image_type t ≡ true)

module _ {W : Type 0} (create : FileHeader → CreateImageRequest → W → Option GalleryImage × W)
    (tags : List Str) where
  -- What holds of a file that is answered with a fault.
  abbrev pub Cause : FileHeader → UploadFault → Type 0
  Cause f file_too_large = above f.upload_size max_upload_file_size ≡ true
  Cause f file_not_opened = f.opens ≡ false
  Cause f type_not_detected = detect_content_type f ≡ none
  Cause f type_unsupported =
      (t : Str) × (detect_content_type f ≡ some t) × (is_supported_image_type t ≡ false)
  Cause f creation_failed =
      (t : Str) × (w : W) × Fits f t × ((create f (upload_request_of f t tags) w).0 ≡ none)

  -- An image in the answer is the one that CreateImage gave for the file and the tags of the form.
  abbrev pub Answers : FileHeader → FileResult → Type 0
  Answers f (uploaded_image info) =
      (t : Str) × (w : W) × (img : GalleryImage) × Fits f t
      × ((create f (upload_request_of f t tags) w).0 ≡ some img)
      × (info ≡ uploaded_of img)
  Answers f (upload_error name fault) = (name ≡ f.upload_name) × Cause f fault

  abbrev pub AreAnswers : List FileHeader → List FileResult → Type 0
  AreAnswers [] [] = Unit
  AreAnswers [] (result ∷ results) = ⊥
  AreAnswers (f ∷ files) [] = ⊥
  AreAnswers (f ∷ files) (result ∷ results) = Answers f result × AreAnswers files results

  AreAnswers-length :
      (files : List FileHeader) (results : List FileResult)
      → AreAnswers files results
      → length (images_of results) + length (errors_of results) ≡ length files
  AreAnswers-length [] [] h = refl
  AreAnswers-length [] (result ∷ results) h = absurd h
  AreAnswers-length (f ∷ files) [] h = absurd h
  AreAnswers-length (f ∷ files) (uploaded_image info ∷ results) h =
      let rest = AreAnswers-length files results h.1 in omega arith
  AreAnswers-length (f ∷ files) (upload_error name fault ∷ results) h =
      let rest = AreAnswers-length files results h.1 in omega arith

length-nil : {A : Type 0} (xs : List A) (n : ℕ) → length xs ≡ suc n → ¬ (xs ≡ [])
length-nil xs n h e = let none_left = ap length e in omega arith

status_code-400 :
    (images : List UploadedImageInfo) (errors : List (Str × UploadFault))
    → (status_code images errors ≡ 400) ↔ (images ≡ [])
status_code-400 [] errors = ((λ h. refl), (λ h. refl))
status_code-400 (img ∷ images) [] =
    ((λ h. absurd (omega arith)), (λ h. absurd (length-nil (img ∷ images) (length images) refl h)))
status_code-400 (img ∷ images) (e ∷ errors) =
    ((λ h. absurd (omega arith)), (λ h. absurd (length-nil (img ∷ images) (length images) refl h)))

status_code-201 :
    (images : List UploadedImageInfo) (errors : List (Str × UploadFault)) (n : ℕ)
    → length images + length errors ≡ suc n
    → (status_code images errors ≡ 201) ↔ (errors ≡ [])
status_code-201 [] [] n h = absurd (omega arith)
status_code-201 [] (e ∷ errors) n h =
    ((λ c. absurd (omega arith)), (λ c. absurd (length-nil (e ∷ errors) (length errors) refl c)))
status_code-201 (img ∷ images) [] n h = ((λ c. refl), (λ c. refl))
status_code-201 (img ∷ images) (e ∷ errors) n h =
    ((λ c. absurd (omega arith)), (λ c. absurd (length-nil (e ∷ errors) (length errors) refl c)))

module _ {W : Type 0} (create : FileHeader → CreateImageRequest → W → Option GalleryImage × W) where
  after_create-Answers :
      (f : FileHeader) (t : Str) (tags : List Str) (w : W) (r : Option GalleryImage × W)
      → Fits f t
      → create f (upload_request_of f t tags) w ≡ r
      → Answers create tags f ((after_create create f r).0)
  after_create-Answers f t tags w (none, w') h e = (refl, (t, w, h, ap (λ a. a.0) e))
  after_create-Answers f t tags w (some img, w') h e = (t, w, img, h, ap (λ a. a.0) e, refl)

  create_if_supported-Answers :
      (f : FileHeader) (tags : List Str) (o : Option Str) (w : W)
      → detect_content_type f ≡ o
      → above f.upload_size max_upload_file_size ≡ false
      → f.opens ≡ true
      → Answers create tags f ((create_if_supported create f tags o w).0)
  create_if_supported-Answers f tags none w typed small opened = (refl, typed)
  create_if_supported-Answers f tags (some t) w typed small opened =
      elim (Bool-cases (is_supported_image_type t)) [
        | inl known ↦ rw known (
            after_create-Answers f t tags w (create f (upload_request_of f t tags) w)
              (small, opened, typed, known) refl)
        | inr refused ↦ rw refused (refl, (t, typed, refused))
      ]

  process_uploaded_file-Answers :
      (f : FileHeader) (tags : List Str) (w : W)
      → Answers create tags f ((process_uploaded_file create f tags w).0)
  unfolding process_uploaded_file
  process_uploaded_file-Answers f tags w =
      elim (Bool-cases (above f.upload_size max_upload_file_size)) [
        | inl large ↦ rw large (refl, large)
        | inr small ↦ elim (Bool-cases f.opens) [
          | inr closed ↦ simp (small, closed) (refl, refl)
          | inl opened ↦
              simp (small, opened)
                (create_if_supported-Answers f tags (detect_content_type f) w refl small opened)
        ]
      ]

  process_files-AreAnswers :
      (files : List FileHeader) (tags : List Str) (w : W)
      → AreAnswers create tags files ((process_files create files tags w).0)
  unfolding process_files
  process_files-AreAnswers [] tags w = tt
  process_files-AreAnswers (f ∷ files) tags w = (
    process_uploaded_file-Answers f tags w,
    process_files-AreAnswers files tags ((process_uploaded_file create f tags w).1),
  )

  -- An upload with files is answered with a result for each file in its order: the image that
  -- CreateImage gave for the file, its type and the tags of the form, where the file is small enough,
  -- opens and has a supported type; or an error that bears the file's name and a fault that holds of
  -- it, which is a creation that failed only if CreateImage was asked and gave none. Images and
  -- errors are together as many as the files; the status is 201 exactly if no file failed, and 400
  -- exactly if all did.
  pub upload_images_handler-AreAnswers :
      (trim_space to_lower : Str → Str) (f : FileHeader) (files : List FileHeader) (tags_str : Str)
      (w : W)
      → (results : List FileResult) × (code : ℕ) × ((upload_images_handler create trim_space
            to_lower
            (some (f ∷ files, tags_str))
            w).0
          ≡ replies code (images_of results) (errors_of results))
        × AreAnswers create (parse_tags trim_space to_lower tags_str) (f ∷ files) results
        × (length (images_of results) + length (errors_of results) ≡ length (f ∷ files))
        × ((code ≡ 201) ↔ (errors_of results ≡ []))
        × ((code ≡ 400) ↔ (images_of results ≡ []))
  unfolding upload_images_handler
  upload_images_handler-AreAnswers trim_space to_lower f files tags_str w =
      let tags = parse_tags trim_space to_lower tags_str in
      let results = (process_files create (f ∷ files) tags w).0 in
      let answers = process_files-AreAnswers (f ∷ files) tags w in
      let counted = AreAnswers-length create tags (f ∷ files) results answers in
      (
        results,
        status_code (images_of results) (errors_of results),
        refl,
        answers,
        counted,
        status_code-201 (images_of results) (errors_of results) (length files) counted,
        status_code-400 (images_of results) (errors_of results),
      )
