-- ===== src/Storage/Access.antt =====
-- internal/platform/storage/service.go: StoreAt, Retrieve, Exists, Delete and GetFileInfo.
use golang_helloworld.Prelude.{
  Bool, Bool-cases, Option, [], ap, false, if◌then◌else◌, inl, inr, none, not, refl, some, subst,
  sym, true, ◌∙◌, ◌≡◌, ◌⊎◌,
}
use golang_helloworld.Text.{Str, str_eq}
use golang_helloworld.Text.Decimal.{ℤ}
use golang_helloworld.Storage.{
  StorageError, content_type_unsupported, delete_failed, get_failed, not_found, path_empty,
  put_failed, stat_failed,
}
use golang_helloworld.Storage.Service.{
  Found, ObjectInfo, ObjectStore, Reader, found, is_valid_content_type, missing, unreachable,
}

module _ {W : Type 0} (objects : ObjectStore W) where
  abbrev pub failed_as : StorageError → Bool × W → Option StorageError × W
  failed_as e (true, w) = (some e, w)
  failed_as e (false, w) = (none, w)

  unfoldable pub store_at : Str → Str → Reader → W → Option StorageError × W
  store_at key content_type r w =
      if str_eq key []
      then (some path_empty, w)
      else if not (is_valid_content_type content_type)
      then (some content_type_unsupported, w)
      else failed_as put_failed (objects.put_unlimited key content_type r w)

  abbrev pub retrieved : Found Str × W → (StorageError ⊎ Str) × W
  retrieved (found content, w) = (inr content, w)
  retrieved (missing, w) = (inl not_found, w)
  retrieved (unreachable, w) = (inl get_failed, w)

  unfoldable pub retrieve : Str → W → (StorageError ⊎ Str) × W
  retrieve path w = if str_eq path [] then (inl path_empty, w) else retrieved (objects.get path w)

  abbrev pub seen : Found ObjectInfo × W → (StorageError ⊎ Bool) × W
  seen (found info, w) = (inr true, w)
  seen (missing, w) = (inr false, w)
  seen (unreachable, w) = (inl stat_failed, w)

  unfoldable pub exists : Str → W → (StorageError ⊎ Bool) × W
  exists path w = if str_eq path [] then (inl path_empty, w) else seen (objects.stat path w)

  abbrev pub delete_if : Str → (StorageError ⊎ Bool) × W → Option StorageError × W
  delete_if path (inl e, w) = (some e, w)
  delete_if path (inr false, w) = (some not_found, w)
  delete_if path (inr true, w) = failed_as delete_failed (objects.delete path w)

  unfoldable pub delete_file : Str → W → Option StorageError × W
  unfolding exists
  delete_file path w =
      if str_eq path [] then (some path_empty, w) else delete_if path (exists path w)

  pub record FileInfo : Type 0 where
    pub file_path : Str
    pub file_size : ℤ
    pub file_type : Str
    pub modified_at : ℤ
    pub file_etag : Str

  abbrev pub described : Str → Found ObjectInfo × W → (StorageError ⊎ FileInfo) × W
  described path (missing, w) = (inl not_found, w)
  described path (unreachable, w) = (inl stat_failed, w)
  described path (found info, w) = (
    inr (record {
      file_path = path;
      file_size = info.object_size;
      file_type = info.object_type;
      modified_at = info.last_modified;
      file_etag = info.etag;
    }),
    w,
  )

  unfoldable pub get_file_info : Str → W → (StorageError ⊎ FileInfo) × W
  get_file_info path w =
      if str_eq path [] then (inl path_empty, w) else described path (objects.stat path w)

  -- What the store holds under each key, as `stat` and `delete` answer.
  pub record KeepsObjects (held : Str → W → Bool) : Type 0 where
    pub stat_finds :
        (k : Str) (w : W) (i : ObjectInfo) → (objects.stat k w).0 ≡ found i → held k w ≡ true
    pub stat_misses : (k : Str) (w : W) → (objects.stat k w).0 ≡ missing → held k w ≡ false
    pub stat_keeps : (k j : Str) (w : W) → held j (objects.stat k w).1 ≡ held j w
    pub delete_drops :
        (k : Str) (w : W) → (objects.delete k w).0 ≡ false → held k (objects.delete k w).1 ≡ false
    pub delete_keeps :
        (k j : Str) (w : W) → str_eq j k ≡ false → held j (objects.delete k w).1 ≡ held j w

  -- A deletion that succeeds took an object that was there, which is gone then, and left every other
  -- one. It takes that the store answers `Stat` by what it holds, and that `Delete` takes what it is
  -- asked to.
  delete_file-held :
      (held : Str → W → Bool)
      → KeepsObjects held
      → (path : Str) (w w' : W) → delete_file path w ≡ (none, w')
      → (held path w ≡ true)
        × (held path w' ≡ false)
        × ((j : Str) → str_eq j path ≡ false → held j w' ≡ held j w)
  unfolding delete_file exists
  delete_file-held held laws path w w' h = elim (Bool-cases (str_eq path [])) [
    | inl empty ↦ absurd (cc (ap (λ p. p.0) (subst (λ b. after b ≡ (none, w')) empty h)))
    | inr named ↦ stated (objects.stat path w) refl (subst (λ b. after b ≡ (none, w')) named h)
  ]
    where
      after : Bool → Option StorageError × W
      after b =
          if b
          then (some path_empty, w)
          else delete_if path (if b then (inl path_empty, w) else seen (objects.stat path w))

      Gone : Type 0
      Gone =
          (held path w ≡ true)
          × (held path w' ≡ false)
          × ((j : Str) → str_eq j path ≡ false → held j w' ≡ held j w)

      deleted :
          (i : ObjectInfo) (w1 : W)
          → objects.stat path w ≡ (found i, w1)
          → (y : Bool × W) → objects.delete path w1 ≡ y
          → failed_as delete_failed y ≡ (none, w')
          → Gone
      deleted i w1 s (true, w2) e k = absurd (cc (ap (λ p. p.0) k))
      deleted i w1 s (false, w2) e k =
          let now : (objects.delete path w1).1 ≡ w' = ap (λ p. p.1) e ∙ ap (λ p. p.1) k in
          let before : (objects.stat path w).1 ≡ w1 = ap (λ p. p.1) s in
          (
            laws.stat_finds path w i (ap (λ p. p.0) s),
            sym (ap (held path) now) ∙ laws.delete_drops path w1 (ap (λ p. p.0) e),
            λ j apart.
                sym (ap (held j) now)
                ∙ laws.delete_keeps path j w1 apart
                ∙ sym (ap (held j) before)
                ∙ laws.stat_keeps path j w,
          )

      stated :
          (x : Found ObjectInfo × W)
          → objects.stat path w ≡ x
          → delete_if path (seen x) ≡ (none, w')
          → Gone
      stated (found i, w1) e k = deleted i w1 e (objects.delete path w1) refl k
      stated (missing, w1) e k = absurd (cc (ap (λ p. p.0) k))
      stated (unreachable, w1) e k = absurd (cc (ap (λ p. p.0) k))
