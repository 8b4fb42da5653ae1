-- ===== src/Database/Ordering.antt =====
-- internal/platform/database/image_repository.go: what a statement orders by, in the two ways in which
-- it is chosen.
use golang_helloworld.Prelude.{
  Bool-cases, false, if◌then◌else◌, inl, inr, refl, ◌++◌, ◌≡◌, ◌≢◌, ◌⊎◌,
}
use golang_helloworld.Text.{Str, bytes, str_eq, str_eq-false, str_eq_iff}
use golang_helloworld.Database.{
  SortParams, build_simple_order_by_clause, by_order, images_only_query,
  select_get_images_only_query, sort_field, sort_order,
}

abbrev IsField : Str → Type 0
IsField f =
    (f ≡ bytes "uploaded_at")
    ⊎ ((f ≡ bytes "filename") ⊎ ((f ≡ bytes "file_size") ⊎ (f ≡ bytes "created_at")))

abbrev IsOrder : Str → Type 0
IsOrder o = (o ≡ bytes "ASC") ⊎ (o ≡ bytes "DESC")

sort_order-IsOrder : (o : Str) → IsOrder (sort_order o)
sort_order-IsOrder o = elim (Bool-cases (str_eq o (bytes "ASC"))) [
  | inl up ↦ rw up (inl refl)
  | inr other ↦ rw other (last o)
]
  where
    last : (o : Str) → IsOrder (if str_eq o (bytes "DESC") then bytes "DESC" else bytes "DESC")
    last o = elim (Bool-cases (str_eq o (bytes "DESC"))) [
      | inl down ↦ rw down (inr refl)
      | inr other ↦ rw other (inr refl)
    ]

by_order_lem :
    (field order : Str)
    → by_order field order ≡ images_only_query (field ++ (bytes " " ++ sort_order order))
by_order_lem field order = elim (Bool-cases (str_eq order (bytes "ASC"))) [
  | inl up ↦ rw up refl
  | inr other ↦ rw other (elim (Bool-cases (str_eq order (bytes "DESC"))) [
    | inl down ↦ rw down refl
    | inr unknown ↦ rw unknown refl
  ])
]

sort_order_down : (o : Str) → str_eq o (bytes "ASC") ≡ false → sort_order o ≡ bytes "DESC"
sort_order_down o h = rw h (elim (Bool-cases (str_eq o (bytes "DESC"))) [
  | inl down ↦ rw down refl
  | inr unknown ↦ rw unknown refl
])

Agrees : SortParams → Type 0
Agrees s = select_get_images_only_query s ≡ images_only_query (build_simple_order_by_clause s)

IsMixed : SortParams → Type 0
IsMixed s = ¬ IsField s.field × (s.order ≡ bytes "ASC")

-- The field of the clause, and whether the two choices of it agree.
chosen : (s : SortParams) → IsField (sort_field s.field) × (Agrees s ⊎ IsMixed s)
unfolding select_get_images_only_query build_simple_order_by_clause Agrees IsMixed
chosen s = elim (Bool-cases (str_eq s.field (bytes "uploaded_at"))) [
  | inl y1 ↦ simp y1 (inl refl, inl (by_order_lem (bytes "uploaded_at") s.order))
  | inr n1 ↦ elim (Bool-cases (str_eq s.field (bytes "filename"))) [
    | inl y2 ↦ simp (n1, y2) (inr (inl refl), inl (by_order_lem (bytes "filename") s.order))
    | inr n2 ↦ elim (Bool-cases (str_eq s.field (bytes "file_size"))) [
      | inl y3 ↦
          simp (n1, n2, y3) (inr (inr (inl refl)), inl (by_order_lem (bytes "file_size") s.order))
      | inr n3 ↦ elim (Bool-cases (str_eq s.field (bytes "created_at"))) [
        | inl y4 ↦
            simp (n1, n2, n3, y4)
              (inr (inr (inr refl)), inl (by_order_lem (bytes "created_at") s.order))
        | inr n4 ↦
            simp (n1, n2, n3, n4)
              (
                inl refl,
                elim (Bool-cases (str_eq s.order (bytes "ASC"))) [
                  | inl up ↦ inr (unknown n1 n2 n3 n4, (str_eq_iff s.order (bytes "ASC")).0 up)
                  | inr down ↦ inl (rw (sort_order_down s.order down) refl)
                ],
              )
      ]
    ]
  ]
]
  where
    unknown :
        str_eq s.field (bytes "uploaded_at") ≡ false
        → str_eq s.field (bytes "filename") ≡ false
        → str_eq s.field (bytes "file_size") ≡ false
        → str_eq s.field (bytes "created_at") ≡ false
        → ¬ IsField s.field
    unknown n1 n2 n3 n4 (inl e) = (str_eq-false _ _).0 n1 e
    unknown n1 n2 n3 n4 (inr (inl e)) = (str_eq-false _ _).0 n2 e
    unknown n1 n2 n3 n4 (inr (inr (inl e))) = (str_eq-false _ _).0 n3 e
    unknown n1 n2 n3 n4 (inr (inr (inr e))) = (str_eq-false _ _).0 n4 e

-- Whatever a sorting holds, the clause that is built from it is a known column, a space and ASC or
-- DESC, so that no other text gets into a statement.
build_simple_order_by_clause-IsField :
    (s : SortParams)
    → (f : Str) × (o : Str) × IsField f
      × IsOrder o
      × (build_simple_order_by_clause s ≡ f ++ (bytes " " ++ o))
unfolding build_simple_order_by_clause
build_simple_order_by_clause-IsField s =
    (sort_field s.field, sort_order s.order, (chosen s).0, sort_order-IsOrder s.order, refl)

-- For a known field, or for an order other than ASC, the statement that GetWithTags chooses orders by
-- the clause that is built for the other statements.
select_get_images_only_query-order :
    (s : SortParams)
    → IsField s.field ⊎ (s.order ≢ bytes "ASC")
    → select_get_images_only_query s ≡ images_only_query (build_simple_order_by_clause s)
unfolding Agrees IsMixed
select_get_images_only_query-order s h = elim ((chosen s).1) [
  | inl same ↦ same
  | inr (unknown, up) ↦ absurd (neither unknown up h)
]
  where
    neither :
        ¬ IsField s.field → s.order ≡ bytes "ASC" → IsField s.field ⊎ (s.order ≢ bytes "ASC") → ⊥
    neither unknown up (inl known) = unknown known
    neither unknown up (inr down) = down up
