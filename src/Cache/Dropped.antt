-- ===== src/Cache/Dropped.antt =====
-- internal/services/implementations/image_repository_adapter.go and internal/platform/cache/redis.go:
-- what a write of a status drops from the cache.
use golang_helloworld.Prelude.{
  Bool, Bool-cases, List, Option, Option-cases, [], ap, false, if◌then◌else◌, inl, inr, none, refl,
  some, sym, true, ◌||◌, ◌∙◌, ◌∷◌, ◌≡◌, ◌≢◌,
}
use golang_helloworld.Text.{Str, bytes, str_eq}
use golang_helloworld.Text.Decimal.{ℤ}
use golang_helloworld.Text.Search.{has_prefix}
use golang_helloworld.Domain.Request.{seen_in}
use golang_helloworld.Queue.Failure.{Failure}
use golang_helloworld.Worker.Images.{Status}
use golang_helloworld.Database.Writes.{complete_processing, update_status}
use golang_helloworld.Adapter.{
  CacheInvalidator, Parts, adapter, invalidate_after, invalidate_caches,
}
use golang_helloworld.Cache.{
  Redis, after_delete, delete, delete_image, delete_listed, image_key, invalidate_image_lists,
  invalidator,
}

-- The entries of a server, and that its commands do to them what they are documented to do.
pub record RedisLaws {W : Type 0} (r : Redis W) (held : W → Str → Option Str) : Type 0 where
  pub keys_keep : (p k : Str) (w : W) → held (r.keys_under p w).1 k ≡ held w k
  pub keys_list :
      (p k : Str) (ks : List Str) (w : W)
      → (r.keys_under p w).0 ≡ some ks
      → ((held w k ≢ none) × (has_prefix k p ≡ true) → seen_in k ks ≡ true)
        × (seen_in k ks ≡ true → has_prefix k p ≡ true)
  pub del_removes :
      (ks : List Str) (k : Str) (w : W)
      → (r.del_keys ks w).0 ≡ true
      → held (r.del_keys ks w).1 k ≡ (if seen_in k ks then none else held w k)

module _ {A : Type 0} where
  if_or_false : (b : Bool) (x y : A) → (if b || false then x else y) ≡ (if b then x else y)
  if_or_false true x y = refl
  if_or_false false x y = refl

  if_either :
      (a b : Bool) (x y : A) → (if b then x else if a then x else y) ≡ (if a || b then x else y)
  if_either true true x y = refl
  if_either true false x y = refl
  if_either false true x y = refl
  if_either false false x y = refl

invalidate_after-none :
    {W : Type 0} (cache : Option (CacheInvalidator W)) (id : ℤ) (answer : Option Failure × W)
    → answer.0 ≡ none
    → (invalidate_after cache id answer).1 ≡ invalidate_caches cache id answer.1
invalidate_after-none cache id (some e, w) h = absurd (cc h)
invalidate_after-none cache id (none, w) h = refl

module _ {W : Type 0} (r : Redis W) (held : W → Str → Option Str) (laws : RedisLaws r held) where
  -- To drop the keys that were listed is to drop those with the prefix.
  listed_dropped :
      (p k : Str) (ks : List Str) (w : W)
      → (r.keys_under p w).0 ≡ some ks
      → (if seen_in k ks then none else held w k) ≡ (if has_prefix k p then none else held w k)
  listed_dropped p k ks w listed =
      let (complete, sound) = laws.keys_list p k ks w listed in
      elim (Bool-cases (seen_in k ks)) [
        | inl seen ↦ rw (seen, sound seen) refl
        | inr unseen ↦ rw unseen (elim (Bool-cases (has_prefix k p)) [
          | inl under ↦ rw under (elim (Option-cases (held w k)) [
            | inl nothing ↦ nothing
            | inr (s, here) ↦ absurd (cc (unseen, complete ((λ e. cc (e, here)), under)))
          ])
          | inr apart ↦ rw apart refl
        ])
      ]

  after_delete-true : (answer : Bool × W) → (after_delete r answer).0 ≡ none → answer.0 ≡ true
  after_delete-true (true, w) h = refl
  after_delete-true (false, w) h = absurd (cc h)

  after_delete-world : (answer : Bool × W) → (after_delete r answer).1 ≡ answer.1
  after_delete-world (true, w) = refl
  after_delete-world (false, w) = refl

  deleted :
      (ks : List Str) (k : Str) (w : W)
      → (after_delete r (r.del_keys ks w)).0 ≡ none
      → held (after_delete r (r.del_keys ks w)).1 k ≡ (if seen_in k ks then none else held w k)
  deleted ks k w h =
      ap (λ v. held v k) (after_delete-world (r.del_keys ks w))
      ∙ laws.del_removes ks k w (after_delete-true (r.del_keys ks w) h)

  delete_listed_lem :
      (p k : Str) (w : W) (answer : Option (List Str) × W)
      → r.keys_under p w ≡ answer
      → (delete_listed r answer).0 ≡ none
      → held (delete_listed r answer).1 k ≡ (if has_prefix k p then none else held w k)
  delete_listed_lem p k w (none, w1) e h = absurd (cc h)
  delete_listed_lem p k w (some [], w1) e h =
      let kept = ap (λ a. held a.1 k) (sym e) ∙ laws.keys_keep p k w in
      kept ∙ listed_dropped p k [] w (ap (λ a. a.0) e)
  delete_listed_lem p k w (some (j ∷ js), w1) e h =
      let kept = ap (λ a. held a.1 k) (sym e) ∙ laws.keys_keep p k w in
      deleted (j ∷ js) k w1 h
      ∙ ap (λ o. if seen_in k (j ∷ js) then none else o) kept
      ∙ listed_dropped p k (j ∷ js) w (ap (λ a. a.0) e)

  lists_dropped :
      (k : Str) (w : W)
      → (invalidate_image_lists r w).0 ≡ none
      → held (invalidate_image_lists r w).1 k
        ≡ (if has_prefix k (bytes "image_list:") then none else held w k)
  unfolding invalidate_image_lists
  lists_dropped k w h =
      delete_listed_lem (bytes "image_list:") k w (r.keys_under (bytes "image_list:") w) refl h

  image_dropped :
      (id : ℤ) (k : Str) (w : W)
      → (delete_image r id w).0 ≡ none
      → held (delete_image r id w).1 k ≡ (if str_eq k (image_key id) then none else held w k)
  unfolding delete
  image_dropped id k w h =
      deleted (image_key id ∷ []) k w h ∙ if_or_false (str_eq k (image_key id)) none (held w k)

  -- A status that was written drops just the listings and the image's own entry from the cache: every
  -- other entry stays as the statement left it. It takes that both invalidations were answered,
  -- by a server that does what its commands say.
  pub update_status-dropped :
      (a : Parts W) (id : ℤ) (s : Status) (e : Option Failure) (w : W) (k : Str)
      → a.cache ≡ some (invalidator (some r))
      → let written = update_status a.exec id s e w in
        let lists = invalidate_image_lists r written.1 in
        written.0 ≡ none
        → lists.0 ≡ none
        → (delete_image r id lists.1).0 ≡ none
        → held ((adapter a).update_status id s e w).1 k ≡ (
            if has_prefix k (bytes "image_list:") || str_eq k (image_key id)
            then none
            else held written.1 k)
  unfolding update_status complete_processing invalidate_image_lists delete
  update_status-dropped a id s e w k wired done lists own =
      let written = update_status a.exec id s e w in
      let cleared = (invalidate_image_lists r written.1).1 in
      ap (λ v. held v k) (invalidate_after-none a.cache id written done)
      ∙ ap (λ c. held (invalidate_caches c id written.1) k) wired
      ∙ image_dropped id k cleared own
      ∙ ap (λ o. if str_eq k (image_key id) then none else o) (lists_dropped k written.1 lists)
      ∙ if_either (has_prefix k (bytes "image_list:")) (str_eq k (image_key id)) none
          (held written.1 k)
