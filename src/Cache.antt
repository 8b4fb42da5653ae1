-- ===== src/Cache.antt =====
-- internal/platform/cache/redis.go and internal/services/implementations/cache_service.go: the client
-- of the cache, and the service over it. The server and encoding/json are outside; a duration is in
-- nanoseconds, and an error is kept as the step that it comes from.
pub mod Dropped
use golang_helloworld.Prelude.{
  Bool, List, Option, [], false, if◌then◌else◌, inl, inr, none, some, true, zero, ◌++◌, ◌∷◌, ◌⊎◌,
}
use golang_helloworld.Text.{Str, bytes}
use golang_helloworld.Text.Decimal.{itoa, pos, ℤ}
use golang_helloworld.Domain.{above}
use golang_helloworld.Domain.Paging.{mul_int}
use golang_helloworld.Adapter.{CacheInvalidator}

pub data CacheError : Type 0 where
  not_in_cache get_refused value_malformed : CacheError
  not_marshalled set_refused delete_refused keys_refused cache_unavailable : CacheError

-- What GET answers.
pub data Got : Type 0 where
  value_found : Str → Got
  redis_nil get_failed : Got

-- The server, where `false` and `none` are errors. KEYS is asked for a prefix.
pub record Redis (W : Type 0) : Type 0 where
  pub get_key : Str → W → Got × W
  pub set_key : Str → Str → ℤ → W → Bool × W
  pub del_keys : List Str → W → Bool × W
  pub keys_under : Str → W → Option (List Str) × W

-- json.Marshal and Unmarshal of one type.
pub record Json (A : Type 0) : Type 0 where
  pub marshal : A → Option Str
  pub unmarshal : Str → Option A

abbrev pub image_key : ℤ → Str
image_key id = bytes "image:" ++ itoa id

abbrev pub image_list_key : Str → Str
image_list_key key = bytes "image_list:" ++ key

abbrev pub stats_key : Str → Str
stats_key key = bytes "stats:" ++ key

-- time.Duration(expiry) * time.Second, or the default.
abbrev pub ttl_of : ℤ → ℤ → ℤ
ttl_of default_ttl expiry =
    if above expiry 0 then mul_int expiry (pos 1_000_000_000) else default_ttl

abbrev pub decoded : {A : Type 0} → Option A → CacheError ⊎ A
decoded none = inl value_malformed
decoded (some a) = inr a

module _ {W A : Type 0} (json : Json A) where
  abbrev pub after_get : Got × W → (CacheError ⊎ A) × W
  after_get (value_found s, w) = (decoded (json.unmarshal s), w)
  after_get (redis_nil, w) = (inl not_in_cache, w)
  after_get (get_failed, w) = (inl get_refused, w)

  unfoldable pub get_cached_value : Redis W → Str → W → (CacheError ⊎ A) × W
  get_cached_value r key w = after_get (r.get_key key w)

  abbrev pub after_set : Bool × W → Option CacheError × W
  after_set (true, w) = (none, w)
  after_set (false, w) = (some set_refused, w)

  abbrev pub set_marshalled : Redis W → Str → ℤ → Option Str → W → Option CacheError × W
  set_marshalled r key ttl none w = (some not_marshalled, w)
  set_marshalled r key ttl (some s) w = after_set (r.set_key key s ttl w)

  unfoldable pub set_value : Redis W → Str → ℤ → A → W → Option CacheError × W
  set_value r key ttl a w = set_marshalled r key ttl (json.marshal a) w

  -- Set, whose zero duration stands for the default.
  abbrev pub set : Redis W → ℤ → Str → A → ℤ → W → Option CacheError × W
  unfolding set_value
  set r default_ttl key a (pos zero) w = set_value r key default_ttl a w
  set r default_ttl key a ttl w = set_value r key ttl a w

module _ {W : Type 0} (r : Redis W) where
  abbrev pub after_delete : Bool × W → Option CacheError × W
  after_delete (true, w) = (none, w)
  after_delete (false, w) = (some delete_refused, w)

  unfoldable pub delete : Str → W → Option CacheError × W
  delete key w = after_delete (r.del_keys (key ∷ []) w)

  abbrev pub delete_listed : Option (List Str) × W → Option CacheError × W
  delete_listed (none, w) = (some keys_refused, w)
  delete_listed (some [], w) = (none, w)
  delete_listed (some (k ∷ ks), w) = after_delete (r.del_keys (k ∷ ks) w)

  unfoldable pub invalidate_image_lists : W → Option CacheError × W
  invalidate_image_lists w = delete_listed (r.keys_under (bytes "image_list:") w)

  abbrev pub delete_image : ℤ → W → Option CacheError × W
  unfolding delete
  delete_image id w = delete (image_key id) w

-- GenerateStatsKey
abbrev pub generate_stats_key : Str → List Str → Str
generate_stats_key key [] = key
generate_stats_key key (p ∷ params) = generate_stats_key (key ++ (bytes "_" ++ p)) params

-- The service, where none is a client that is nil.
module _ {W A : Type 0} (json : Json A) where
  abbrev pub service_get : (Str → Str) → Option (Redis W) → Str → W → (CacheError ⊎ A) × W
  unfolding get_cached_value
  service_get key_of none key w = (inl cache_unavailable, w)
  service_get key_of (some r) key w = get_cached_value json r (key_of key) w

  abbrev pub service_set :
      ℤ → (Str → Str) → Option (Redis W) → Str → A → ℤ → W → Option CacheError × W
  unfolding set_value
  service_set default_ttl key_of none key a expiry w = (none, w)
  service_set default_ttl key_of (some r) key a expiry w =
      set_value json r (key_of key) (ttl_of default_ttl expiry) a w

module _ {W : Type 0} where
  abbrev pub service_delete_image : Option (Redis W) → ℤ → W → Option CacheError × W
  unfolding delete
  service_delete_image none id w = (none, w)
  service_delete_image (some r) id w = delete_image r id w

  abbrev pub service_invalidate_image_lists : Option (Redis W) → W → Option CacheError × W
  unfolding invalidate_image_lists
  service_invalidate_image_lists none w = (none, w)
  service_invalidate_image_lists (some r) w = invalidate_image_lists r w

  -- The invalidator that bootstrap wires into the adapter of the images; errors are dropped.
  abbrev pub invalidator : Option (Redis W) → CacheInvalidator W
  unfolding delete invalidate_image_lists
  invalidator client = record {
    invalidate_image_lists = λ w. (service_invalidate_image_lists client w).1;
    delete_image = λ id w. (service_delete_image client id w).1;
  }
