-- ===== src/Gallery/Cached.antt =====
-- internal/services/implementations/image_service.go: GetImage and ListImages, which read through a
-- cache, and the key of a listing.
use golang_helloworld.Prelude.{Bool, List, Option, [], false, none, some, true, ◌++◌, ◌∷◌, ◌≡◌, ◌⊎◌}
use golang_helloworld.Text.{Str, bytes}
use golang_helloworld.Text.Search.{join_with}
use golang_helloworld.Text.Decimal.{itoa, ℤ}
use golang_helloworld.Queue.Failure.{Result, err, ok}
use golang_helloworld.Gallery.{GalleryImage, Service}

-- The entry of a cache under one key. A failed write is ignored.
pub record Entry (W : Type 0) (A : Type 0) : Type 0 where
  pub lookup : W → Option A × W
  pub keep : A → W → W

module _ {W A : Type 0} where
  -- What was read is kept for the next time.
  abbrev pub kept_for_later : Entry W A → Result A × W → Result A × W
  kept_for_later entry (err e, w) = (err e, w)
  kept_for_later entry (ok a, w) = (ok a, entry.keep a w)

  abbrev pub hit_or_miss : Entry W A → (W → Result A × W) → Option A × W → Result A × W
  hit_or_miss entry load (some a, w) = (ok a, w)
  hit_or_miss entry load (none, w) = kept_for_later entry (load w)

  abbrev pub through : Option (Entry W A) → (W → Result A × W) → W → Result A × W
  through none load w = load w
  through (some entry) load w = hit_or_miss entry load (entry.lookup w)

-- The request as ListImages uses it.
pub record ListRequest : Type 0 where
  pub page : ℤ
  pub page_size : ℤ
  pub tag : Str
  pub tags : List Str
  pub match_all : Bool

abbrev pub tags_key : List Str → Str → Str
tags_key [] tag = tag
tags_key (t ∷ ts) tag = join_with (bytes ",") (t ∷ ts)

abbrev pub match_key : Bool → Str
match_key true = bytes "all"
match_key false = bytes "any"

unfoldable pub generate_list_cache_key : Option ListRequest → Str
generate_list_cache_key none = bytes "list_default"
generate_list_cache_key (some r) =
    bytes "list_page_"
    ++ (itoa r.page
        ++ (bytes "_pagesize_"
            ++ (itoa r.page_size
                ++ (bytes "_tags_"
                    ++ (tags_key r.tags r.tag ++ (bytes "_match_" ++ match_key r.match_all))))))

module _ {W Response : Type 0} (list : ListRequest → W → Result Response × W)
    (slow_db : Option (W → W)) where
  abbrev pub slowed : Option (W → W) → W → W
  slowed none w = w
  slowed (some slow) w = slow w

  -- ListImages, with the cache as the entry under each key.
  unfoldable pub list_images :
      Option (Str → Entry W Response) → ListRequest → W → Result Response × W
  list_images none req w = through none (λ w'. list req (slowed slow_db w')) w
  list_images (some cache) req w =
      through (some (cache (generate_list_cache_key (some req))))
        (λ w'. list req (slowed slow_db w')) w

module _ {W : Type 0} (sv : Service W) where
  -- GetImage, with the cache as the entry under each id.
  unfoldable pub get_image : Option (ℤ → Entry W GalleryImage) → ℤ → W → Result GalleryImage × W
  get_image none id w = through none (sv.find id) w
  get_image (some cache) id w = through (some (cache id)) (sv.find id) w

  -- The rows and the entries of the cache, and what the calls do to them: a hit gives the entry, a
  -- read gives the row, neither writes to either, and keeping an image writes at most its own entry.
  pub record CacheLaws (cache : ℤ → Entry W GalleryImage) (rows : ℤ → W → Option GalleryImage)
      (entries : ℤ → W → Option GalleryImage) : Type 0 where
    pub lookup_reads :
        (id : ℤ) (w : W) (a : GalleryImage)
        → ((cache id).lookup w).0 ≡ some a
        → entries id w ≡ some a
    pub lookup_keeps :
        (id j : ℤ) (w : W)
        → (rows j ((cache id).lookup w).1 ≡ rows j w)
          × (entries j ((cache id).lookup w).1 ≡ entries j w)
    pub find_reads :
        (id : ℤ) (w : W) (a : GalleryImage) → (sv.find id w).0 ≡ ok a → rows id w ≡ some a
    pub find_keeps :
        (id j : ℤ) (w : W)
        → (rows j (sv.find id w).1 ≡ rows j w) × (entries j (sv.find id w).1 ≡ entries j w)
    pub keep_keeps : (id j : ℤ) (a : GalleryImage) (w : W) → rows j ((cache id).keep a w) ≡ rows j w
    pub keep_writes :
        (id j : ℤ) (a : GalleryImage) (w : W)
        → (entries j ((cache id).keep a w) ≡ entries j w)
          ⊎ ((j ≡ id) × (entries j ((cache id).keep a w) ≡ some a))

  -- What is cached is what the rows hold.
  abbrev pub Coherent : (ℤ → W → Option GalleryImage) → (ℤ → W → Option GalleryImage) → W → Type 0
  Coherent rows entries w = (j : ℤ) (a : GalleryImage) → entries j w ≡ some a → rows j w ≡ some a

  -- What GetImage does in a coherent state: it stays coherent, no row changes, and an image that is
  -- given is the one of its row, which was cached or is handed to the cache as the last thing.
  pub record IsRead (cache : ℤ → Entry W GalleryImage) (rows entries : ℤ → W → Option GalleryImage)
      (id : ℤ) (w : W) (answer : Result GalleryImage × W) : Type 0 where
    pub coherent : Coherent rows entries answer.1
    pub keeps : (j : ℤ) → rows j answer.1 ≡ rows j w
    pub gives : (a : GalleryImage) → answer.0 ≡ ok a → rows id w ≡ some a
    pub caches :
        (a : GalleryImage)
        → answer.0 ≡ ok a
        → (entries id w ≡ some a) ⊎ ((w1 : W) × (answer.1 ≡ (cache id).keep a w1))
