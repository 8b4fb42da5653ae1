-- ===== src/Storage/Safe.antt =====
-- internal/platform/storage/service.go: the key of a file never leaves its directory.
use golang_helloworld.Prelude.{
  All, All-imp, Bool, Bool-cases, [], and_false, ap, arith, drop, false, if◌then◌else◌, inl, inr,
  or_false_iff, refl, subst, suc, true, zero, ℕ, ◌&&◌, ◌++◌, ◌==◌, ◌||◌, ◌∙◌, ◌∷◌, ◌≡◌, ◌≤◌, ◌⊎◌,
}
use golang_helloworld.Text.{Str}
use golang_helloworld.Text.Search.{split, split-append, split_absent}
use golang_helloworld.Text.Decimal.{IsDecimal, itoa, itoa-IsDecimal, ℤ}
use golang_helloworld.Domain.Extension.{extension, extension_from}
use golang_helloworld.Storage.Naming.{
  IsPlain, dots_apart, generate_storage_path, sanitize_filename, sanitize_filename-IsPlain, take,
  take-All, trim_suffix,
}

abbrev IsNoSlash : ℕ → Type 0
IsNoSlash b = (b == b'/') ≡ false

abbrev IsNoDot : ℕ → Type 0
IsNoDot b = (b == b'.') ≡ false

-- No slash, and no two dots side by side.
abbrev pub IsComponent : Str → Type 0
IsComponent s = All (λ b. (b == b'/') ≡ false) s × (dots_apart false s ≡ true)

All-append : (P : ℕ → Type 0) (s t : Str) → All P s → All P t → All P (s ++ t)
All-append P [] t hs ht = ht
All-append P (b ∷ s) t hs ht = (hs.0, All-append P s t hs.1 ht)

-- An underscore stands between what comes before and after it.
dots_apart-underscore :
    (after_dot : Bool) (s t : Str)
    → dots_apart after_dot s ≡ true
    → dots_apart false t ≡ true
    → dots_apart after_dot (s ++ b'_' ∷ t) ≡ true
unfolding dots_apart
dots_apart-underscore true [] t hs ht = ht
dots_apart-underscore false [] t hs ht = ht
dots_apart-underscore after_dot (b ∷ s) t hs ht =
    let rest = dots_apart (b == b'.') s in
    elim (Bool-cases (after_dot && (b == b'.'))) [
      | inl both ↦ absurd (cc (subst (λ x. (if x then false else rest) ≡ true) both hs))
      | inr apart ↦ rw apart (
          dots_apart-underscore (b == b'.') s t
            (subst (λ x. (if x then false else rest) ≡ true) apart hs) ht)
    ]

dots_apart-append :
    (s t : Str) → All IsNoDot s → dots_apart false t ≡ true → dots_apart false (s ++ t) ≡ true
unfolding dots_apart
dots_apart-append [] t hs ht = ht
dots_apart-append (b ∷ s) t hs ht = rw (hs.0) (dots_apart-append s t hs.1 ht)

-- Without a slash or a dot in it.
marked : Str → Bool
marked [] = false
marked (b ∷ s) = let rest = marked s in if (b == b'/') || (b == b'.') then true else rest

marked-IsComponent :
    (after_dot : Bool) (s : Str)
    → marked s ≡ false
    → All IsNoSlash s × (dots_apart after_dot s ≡ true)
unfolding marked dots_apart
marked-IsComponent after_dot [] h = (tt, refl)
marked-IsComponent after_dot (b ∷ s) h = elim (Bool-cases ((b == b'/') || (b == b'.'))) [
  | inl mark ↦ absurd (cc (subst (λ x. (if x then true else marked s) ≡ false) mark h))
  | inr plain ↦
      let (no_slash, no_dot) = (or_false_iff (b == b'/') (b == b'.')).0 plain in
      let (slashes, dots) =
        marked-IsComponent false s (subst (λ x. (if x then true else marked s) ≡ false) plain h) in
      let here : (after_dot && (b == b'.')) ≡ false =
        ap (λ x. after_dot && x) no_dot ∙ and_false after_dot in
      ((no_slash, slashes), rw (here, no_dot) dots)
]

-- A dot with no mark behind it begins a component.
from_dot :
    (b : ℕ) (s : Str)
    → (b == b'/') ≡ false
    → (b == b'.') ≡ true
    → IsComponent (b ∷ s) ⊎ (marked s ≡ true)
unfolding dots_apart
from_dot b s no_slash dot = elim (Bool-cases (marked s)) [
  | inl mark ↦ inr mark
  | inr plain ↦
      let (slashes, dots) = marked-IsComponent true s plain in
      inl ((no_slash, slashes), rw dot dots)
]

-- filepath.Ext gives a component, whatever the path is.
extension_from-IsComponent :
    (found s : Str) → IsComponent found ⊎ (marked s ≡ true) → IsComponent (extension_from found s)
unfolding marked dots_apart
extension_from-IsComponent found [] (inl fine) = fine
extension_from-IsComponent found [] (inr mark) = absurd (cc mark)
extension_from-IsComponent found (b ∷ s) h = elim (Bool-cases (b == b'/')) [
  | inl slash ↦ rw slash (extension_from-IsComponent [] s (inl (tt, refl)))
  | inr no_slash ↦ elim (Bool-cases (b == b'.')) [
    | inl dot ↦
        rw (no_slash, dot) (extension_from-IsComponent (b ∷ s) s (from_dot b s no_slash dot))
    | inr no_dot ↦
        let off = (or_false_iff (b == b'/') (b == b'.')).1 (no_slash, no_dot) in
        rw (no_slash, no_dot)
          (extension_from-IsComponent found s (elim h [
            | inl fine ↦ inl fine
            | inr mark ↦ inr (subst (λ x. (if x then true else marked s) ≡ true) off mark)
          ]))
  ]
]

pub extension-IsComponent : (path : Str) → IsComponent (extension path)
unfolding dots_apart
extension-IsComponent path = extension_from-IsComponent [] path (inl (tt, refl))

decimal-IsNoSlash : (b : ℕ) → IsDecimal b → IsNoSlash b
decimal-IsNoSlash b (low, high, dot, slash) = ground arith

decimal-IsNoDot : (b : ℕ) → IsDecimal b → IsNoDot b
decimal-IsNoDot b (low, high, dot, slash) = ground arith

plain-IsNoSlash : (s : Str) → All IsPlain s → All IsNoSlash s
plain-IsNoSlash s h = All-imp s (λ b (_, slash, _). ground arith) h

drop-All : (P : ℕ → Type 0) (n : ℕ) (s : Str) → All P s → All P (drop n s)
drop-All P zero s h = h
drop-All P (suc n) [] h = tt
drop-All P (suc n) (b ∷ s) h = drop-All P n s (h.1)

module _ (to_lower base : Str → Str) where
  leaf : ℤ → Str → Str
  leaf stamp filename =
      sanitize_filename (trim_suffix (base filename) (extension filename))
      ++ (b'_' ∷ itoa stamp ++ extension filename)

  leaf-IsComponent : (stamp : ℤ) (filename : Str) → IsComponent (leaf stamp filename)
  unfolding leaf
  leaf-IsComponent stamp filename =
      let clean = trim_suffix (base filename) (extension filename) in
      let (plain, apart, _) = sanitize_filename-IsPlain clean in
      let digits = itoa-IsDecimal stamp in
      let no_slash = All-imp (itoa stamp) (λ b h. decimal-IsNoSlash b h) digits in
      let no_dot = All-imp (itoa stamp) (λ b h. decimal-IsNoDot b h) digits in
      let (ext_slashes, ext_dots) = extension-IsComponent filename in
      (
        All-append IsNoSlash (sanitize_filename clean) (b'_' ∷ itoa stamp ++ extension filename)
            (plain-IsNoSlash (sanitize_filename clean) plain)
            (refl, All-append IsNoSlash (itoa stamp) (extension filename) no_slash ext_slashes),
        dots_apart-underscore false (sanitize_filename clean) (itoa stamp ++ extension filename)
            apart (dots_apart-append (itoa stamp) (extension filename) no_dot ext_dots),
      )

  -- What the hash is written with.
  abbrev pub IsHexByte : ℕ → Type 0
  IsHexByte b = ((48 ≤ b) × (b ≤ 57)) ⊎ ((97 ≤ b) × (b ≤ 102))

  hex-IsNoSlash : (b : ℕ) → IsHexByte b → IsNoSlash b
  hex-IsNoSlash b h = ground arith

  -- Whatever a file is called, the key that it is stored under has three components: the first
  -- bytes of the hash, the next two, and a name without a slash and without two dots side by side.
  -- It takes that the hash is written in hex.
  pub generate_storage_path-IsComponent :
      (digest : Str → Str) (stamp : ℤ) (filename : Str)
      → All IsHexByte (digest filename)
      → (name : Str) × (split b'/' (generate_storage_path to_lower base digest stamp filename)
          ≡ take 2 (digest filename) ∷ take 2 (drop 2 (digest filename)) ∷ name ∷ [])
        × IsComponent name
  unfolding generate_storage_path sanitize_filename leaf
  generate_storage_path-IsComponent digest stamp filename hex =
      let hash = digest filename in
      let no_slashes = All-imp hash (λ b h. hex-IsNoSlash b h) hex in
      let (slashes, dots) = leaf-IsComponent stamp filename in
      let dir2 = take 2 (drop 2 hash) in
      (
        leaf stamp filename,
        split-append b'/' (take 2 hash) (dir2 ++ b'/' ∷ leaf stamp filename)
              (take-All IsNoSlash 2 hash no_slashes)
            ∙ ap (◌∷◌ (take 2 hash)) (
                split-append b'/' dir2 (leaf stamp filename)
                  (take-All IsNoSlash 2 (drop 2 hash) (drop-All IsNoSlash 2 hash no_slashes))
                ∙ ap (◌∷◌ dir2) (split_absent b'/' (leaf stamp filename) slashes)),
        (slashes, dots),
      )
