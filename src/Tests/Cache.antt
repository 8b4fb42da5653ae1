-- ===== src/Tests/Cache.antt =====
-- internal/platform/cache: a server with one entry that may be there, and an instance of the theorem.
use golang_helloworld.Prelude.{
  Bool, Bool-cases, List, Option, [], false, if◌then◌else◌, inl, inr, none, refl, some, true, ◌||◌,
  ◌∷◌, ◌≡◌, ◌≢◌,
}
use golang_helloworld.Text.{Str, bytes, str_eq, str_eq→≡}
use golang_helloworld.Text.Decimal.{pos}
use golang_helloworld.Text.Search.{has_prefix}
use golang_helloworld.Domain.Request.{seen_in}
use golang_helloworld.Queue.Failure.{err, external, fault}
use golang_helloworld.Worker.Images.{failed}
use golang_helloworld.Database.Writes.{affected, update_status}
use golang_helloworld.Adapter.{Parts, adapter}
use golang_helloworld.Cache.{
  Redis, delete, image_key, invalidate_image_lists, invalidator, redis_nil,
}
use golang_helloworld.Cache.Dropped.{RedisLaws, update_status-dropped}

abbrev list_key : Str
list_key = bytes "image_list:a"

abbrev held_if : Bool → Str → Option Str
held_if true k = if str_eq k list_key then some (bytes "{}") else none
held_if false k = none

abbrev keys_if : Str → Bool → Option (List Str) × Bool
keys_if p true = (some (if has_prefix list_key p then list_key ∷ [] else []), true)
keys_if p false = (some [], false)

abbrev one_entry : Redis Bool
one_entry = record {
  get_key = λ k w. (redis_nil, w);
  set_key = λ k s ttl w. (true, w);
  del_keys = λ ks w. (true, if seen_in list_key ks then false else w);
  keys_under = keys_if;
}

one_entry-RedisLaws : RedisLaws one_entry held_if
one_entry-RedisLaws = record {
  keys_keep = kept;
  keys_list = listed;
  del_removes = λ ks k w e. removed ks k w;
}
  where
    kept : (p k : Str) (w : Bool) → held_if (keys_if p w).1 k ≡ held_if w k
    kept p k true = refl
    kept p k false = refl

    some_list : (xs ys : List Str) → some xs ≡ some ys → xs ≡ ys
    some_list xs ys e = cc

    listed :
        (p k : Str) (ks : List Str) (w : Bool)
        → (keys_if p w).0 ≡ some ks
        → ((held_if w k ≢ none) × (has_prefix k p ≡ true) → seen_in k ks ≡ true)
          × (seen_in k ks ≡ true → has_prefix k p ≡ true)
    listed p k ks false e = rw (← some_list [] ks e) ((λ h. absurd (h.0 refl)), λ h. absurd (cc h))
    listed p k ks true e = elim (Bool-cases (str_eq k list_key)) [
      | inl here ↦ elim (Bool-cases (has_prefix list_key p)) [
        | inl under ↦
            rw (← some_list (list_key ∷ []) ks (rw under at e))
              ((λ h. rw here refl), λ h. rw (str_eq→≡ k list_key here) under)
        | inr apart ↦
            rw (← some_list [] ks (rw apart at e))
              ((λ h. absurd (cc (apart, rw (str_eq→≡ k list_key here) at h.1))), λ h. absurd (cc h))
      ]
      | inr differs ↦ elim (Bool-cases (has_prefix list_key p)) [
        | inl under ↦
            rw (← some_list (list_key ∷ []) ks (rw under at e))
              ((λ h. absurd (h.0 (rw differs refl))), λ h. absurd (cc (rw differs at h)))
        | inr apart ↦
            rw (← some_list [] ks (rw apart at e))
              ((λ h. absurd (h.0 (rw differs refl))), λ h. absurd (cc h))
      ]
    ]

    removed :
        (ks : List Str) (k : Str) (w : Bool)
        → held_if (if seen_in list_key ks then false else w) k
          ≡ (if seen_in k ks then none else held_if w k)
    removed ks k false = elim (Bool-cases (seen_in list_key ks)) [
      | inl gone ↦
          rw gone (elim (Bool-cases (seen_in k ks)) [ inl a ↦ rw a refl | inr a ↦ rw a refl ])
      | inr stays ↦
          rw stays (elim (Bool-cases (seen_in k ks)) [ inl a ↦ rw a refl | inr a ↦ rw a refl ])
    ]
    removed ks k true = elim (Bool-cases (str_eq k list_key)) [
      | inl here ↦ rw (str_eq→≡ k list_key here) (elim (Bool-cases (seen_in list_key ks)) [
        | inl gone ↦ rw gone refl
        | inr stays ↦ rw stays refl
      ])
      | inr differs ↦ elim (Bool-cases (seen_in list_key ks)) [
        | inl gone ↦
            rw (gone, differs)
              (elim (Bool-cases (seen_in k ks)) [ inl a ↦ rw a refl | inr a ↦ rw a refl ])
        | inr stays ↦
            rw (stays, differs)
              (elim (Bool-cases (seen_in k ks)) [ inl a ↦ rw a refl | inr a ↦ rw a refl ])
      ]
    ]

abbrev cached_parts : Parts Bool
cached_parts = record {
  exec = λ s w. (affected 1, w);
  read = λ id w. (err (fault (external (bytes "not found"))), w);
  get_image_tags = none;
  cache = some (invalidator (some one_entry));
}

update_status-dropped_example :
    held_if ((adapter cached_parts).update_status (pos 1) failed none true).1 list_key ≡ (
      if has_prefix list_key (bytes "image_list:") || str_eq list_key (image_key (pos 1))
      then none
      else held_if (update_status cached_parts.exec (pos 1) failed none true).1 list_key)
unfolding update_status invalidate_image_lists delete str_eq
update_status-dropped_example =
    update_status-dropped one_entry held_if one_entry-RedisLaws cached_parts (pos 1) failed none
      true list_key refl refl refl refl
