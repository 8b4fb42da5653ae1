-- ===== src/Database/Search/Places.antt =====
-- internal/platform/database/image_repository.go: each numbered place of a search stands for the
-- argument that it is written for.
use golang_helloworld.Prelude.{
  List, Option, [], ap, append-nil, append_assoc, arith, get_elem?, get_elem?-append_at, length,
  length-append, map, none, refl, some, subst, suc, sym, zero, ℕ, ◌++◌, ◌+◌, ◌∙◌, ◌∷◌, ◌≡◌,
}
use golang_helloworld.Text.{Str, bytes}
use golang_helloworld.Text.Search.{join_with}
use golang_helloworld.Text.Decimal.{itoa_nat, ℤ}
use golang_helloworld.Database.{
  Arg, Pagination, SortParams, build_simple_order_by_clause, int_arg, select_from_images, text_arg,
  time_arg, validate_pagination,
}
use golang_helloworld.Database.Search.{
  Building, Condition, SearchFilters, add_bound, add_content_types, add_filename, build_conditions,
  condition_text, content_type_in, date_at_least, date_at_most, name_like, places_from,
  search_statement, search_term, size_at_least, size_at_most, where_clause,
}

-- The argument at a place, counted from 1.
abbrev pub at : List Arg → ℕ → Option Arg
at args zero = none
at args (suc n) = get_elem? args n

module _ {A B : Type 0} where
  abbrev pub put_in : (A → B) → Option A → Option B
  put_in c none = none
  put_in c (some a) = some (c a)

  abbrev pub put_both : (A → A → B) → Option A → Option A → Option B
  put_both c (some a) (some b) = some (c a b)
  put_both c none b = none
  put_both c (some a) none = none

abbrev onto_all : Option Arg → Option (List Arg) → Option (List Arg)
onto_all (some a) (some added) = some (a ∷ added)
onto_all none added = none
onto_all (some a) none = none

abbrev pub all_at : (ℕ → Option Arg) → List ℕ → Option (List Arg)
all_at found [] = some []
all_at found (n ∷ ns) = onto_all (found n) (all_at found ns)

-- The condition with arguments in its places.
abbrev pub resolve : (ℕ → Option Arg) → Condition ℕ → Option (Condition Arg)
resolve found (content_type_in places) = put_in content_type_in (all_at found places)
resolve found (size_at_least n) = put_in size_at_least (found n)
resolve found (size_at_most n) = put_in size_at_most (found n)
resolve found (date_at_least n) = put_in date_at_least (found n)
resolve found (date_at_most n) = put_in date_at_most (found n)
resolve found (name_like n m) = put_both name_like (found n) (found m)

-- What the filters mean.
abbrev pub types_meant : List Str → List (Condition Arg)
types_meant [] = []
types_meant (t ∷ ts) = content_type_in (map text_arg (t ∷ ts)) ∷ []

abbrev pub bound_meant : (Arg → Condition Arg) → (ℤ → Arg) → Option ℤ → List (Condition Arg)
bound_meant condition arg none = []
bound_meant condition arg (some x) = condition (arg x) ∷ []

abbrev pub name_meant : Str → List (Condition Arg)
name_meant [] = []
name_meant (c ∷ s) = name_like (search_term (c ∷ s)) (search_term (c ∷ s)) ∷ []

abbrev pub meant : SearchFilters → List (Condition Arg)
meant f =
    ((((types_meant f.content_types ++ bound_meant size_at_least int_arg f.min_size)
          ++ bound_meant size_at_most int_arg f.max_size)
        ++ bound_meant date_at_least time_arg f.start_date)
      ++ bound_meant date_at_most time_arg f.end_date)
    ++ name_meant f.filename

at_end : (xs ys : List Arg) (a : Arg) (n : ℕ) → n ≡ suc (length xs) → at (xs ++ a ∷ ys) n ≡ some a
at_end xs ys a n e = rw e (get_elem?-append_at xs a ys)

at_second :
    (xs ys : List Arg) (a b : Arg) (n : ℕ)
    → n ≡ suc (suc (length xs))
    → at (xs ++ a ∷ b ∷ ys) n ≡ some b
at_second xs ys a b n e =
    subst (λ l. at l n ≡ some b) (append_assoc xs (a ∷ []) (b ∷ ys))
      (at_end (xs ++ a ∷ []) ys b n (omega (arith, length-append xs (a ∷ []))))

all_at-places_from :
    (xs ys : List Arg) (ts : List Str) (n : ℕ)
    → n ≡ suc (length xs)
    → all_at (at (xs ++ (map text_arg ts ++ ys))) (places_from n ts) ≡ some (map text_arg ts)
all_at-places_from xs ys [] n e = refl
all_at-places_from xs ys (t ∷ ts) n e =
    let longer : suc n ≡ suc (length (xs ++ text_arg t ∷ [])) =
      omega (arith, length-append xs (text_arg t ∷ [])) in
    let rest = all_at-places_from (xs ++ text_arg t ∷ []) ys ts (suc n) longer in
    let behind = map text_arg ts ++ ys in
    let rest' : all_at (at (xs ++ text_arg t ∷ behind)) (places_from (suc n) ts)
        ≡ some (map text_arg ts) =
      subst (λ l. all_at (at l) (places_from (suc n) ts) ≡ some (map text_arg ts))
        (append_assoc xs (text_arg t ∷ []) behind) rest in
    rw (at_end xs behind (text_arg t) n e, rest') refl

length-map : {A B : Type 0} (f : A → B) (xs : List A) → length (map f xs) ≡ length xs
length-map f [] = refl
length-map f (x ∷ xs) = ap suc (length-map f xs)

-- The places of the conditions so far stand for what is meant, whatever arguments follow.
record IsSound (b : Building) (cs : List (Condition Arg)) : Type 0 where
  index : b.arg_index ≡ suc (length b.args)
  bound : (more : List Arg) → map (resolve (at (b.args ++ more))) b.conditions ≡ map some cs

map_last :
    {A B : Type 0} (f : A → B) (xs : List A) (x : A) → map f (xs ++ x ∷ []) ≡ map f xs ++ f x ∷ []
map_last f [] x = refl
map_last f (y ∷ xs) x = ap (◌∷◌ (f y)) (map_last f xs x)

one_more :
    (b : Building) (cs : List (Condition Arg)) (c : Condition ℕ) (m : Condition Arg)
    (added : List Arg) (n : ℕ)
    → IsSound b cs
    → n ≡ b.arg_index + length added
    → ((more : List Arg) → resolve (at (b.args ++ (added ++ more))) c ≡ some m)
    → IsSound
        (record { conditions = b.conditions ++ c ∷ []; args = b.args ++ added; arg_index = n })
        (cs ++ m ∷ [])
one_more b cs c m added n s e placed = record {
  index = omega (arith, length-append b.args added, s.index);
  bound = λ more.
      rw
        (
          append_assoc b.args added more,
          map_last (resolve (at (b.args ++ (added ++ more)))) b.conditions c,
          map_last some cs m,
          s.bound (added ++ more),
          placed more,
        )
        refl;
}

types-IsSound :
    (ts : List Str) (b : Building) (cs : List (Condition Arg))
    → IsSound b cs
    → IsSound (add_content_types ts b) (cs ++ types_meant ts)
types-IsSound [] b cs s = subst (IsSound b) (sym (append-nil cs)) s
types-IsSound (t ∷ ts) b cs s =
    one_more b cs (content_type_in (places_from b.arg_index (t ∷ ts)))
      (content_type_in (map text_arg (t ∷ ts))) (map text_arg (t ∷ ts))
      (b.arg_index + length (t ∷ ts)) s
      (ap (λ n. b.arg_index + n) (sym (length-map text_arg (t ∷ ts))))
      (λ more.
        ap (put_in content_type_in) (all_at-places_from b.args more (t ∷ ts) b.arg_index s.index))

bound-IsSound :
    (c : ℕ → Condition ℕ) (m : Arg → Condition Arg) (arg : ℤ → Arg) (o : Option ℤ) (b : Building)
    (cs : List (Condition Arg))
    → ((found : ℕ → Option Arg) (n : ℕ) → resolve found (c n) ≡ put_in m (found n))
    → IsSound b cs
    → IsSound (add_bound c arg o b) (cs ++ bound_meant m arg o)
bound-IsSound c m arg none b cs same s = subst (IsSound b) (sym (append-nil cs)) s
bound-IsSound c m arg (some x) b cs same s =
    one_more b cs (c b.arg_index) (m (arg x)) (arg x ∷ []) (suc b.arg_index) s (omega arith)
      (λ more.
        same (at (b.args ++ arg x ∷ more)) b.arg_index
        ∙ ap (put_in m) (at_end b.args more (arg x) b.arg_index s.index))

name-IsSound :
    (name : Str) (b : Building) (cs : List (Condition Arg))
    → IsSound b cs
    → IsSound (add_filename name b) (cs ++ name_meant name)
name-IsSound [] b cs s = subst (IsSound b) (sym (append-nil cs)) s
name-IsSound (c ∷ name) b cs s =
    let term = search_term (c ∷ name) in
    one_more b cs (name_like b.arg_index (suc b.arg_index)) (name_like term term) (term ∷ term ∷ [])
      (suc (suc b.arg_index)) s (omega arith)
      (λ more.
        rw
          (
            at_end b.args (term ∷ more) term b.arg_index s.index,
            at_second b.args more term term (suc b.arg_index) (ap suc s.index),
          )
          refl)

build_conditions-IsSound : (f : SearchFilters) → IsSound (build_conditions f) (meant f)
unfolding build_conditions
build_conditions-IsSound f =
    let start : IsSound (record { conditions = []; args = []; arg_index = 1 }) [] = record {
      index = refl;
      bound = λ more. refl;
    } in
    name-IsSound f.filename _ _ (
      bound-IsSound date_at_most date_at_most time_arg f.end_date _ _ (λ found n. refl)
        (bound-IsSound date_at_least date_at_least time_arg f.start_date _ _ (λ found n. refl)
          (bound-IsSound size_at_most size_at_most int_arg f.max_size _ _ (λ found n. refl)
            (bound-IsSound size_at_least size_at_least int_arg f.min_size _ _ (λ found n. refl)
              (types-IsSound f.content_types _ _ start)))))

-- The SQL of a condition, with its places spelled by `spell`.
abbrev pub sql : {P : Type 0} → (P → Str) → Condition P → Str
sql spell (content_type_in ps) =
    bytes "content_type IN (" ++ (join_with (bytes ",") (map spell ps) ++ bytes ")")
sql spell (size_at_least p) = bytes "file_size >= " ++ spell p
sql spell (size_at_most p) = bytes "file_size <= " ++ spell p
sql spell (date_at_least p) = bytes "uploaded_at >= " ++ spell p
sql spell (date_at_most p) = bytes "uploaded_at <= " ++ spell p
sql spell (name_like p q) =
    bytes "(filename ILIKE "
    ++ (spell p ++ (bytes " OR original_filename ILIKE " ++ (spell q ++ bytes ")")))

abbrev pub numbered : ℕ → Str
numbered n = bytes "$" ++ itoa_nat n

-- What stands before the order: nothing, or all of the conditions.
abbrev pub where_all : List Str → Str
where_all [] = []
where_all (c ∷ cs) = bytes "WHERE " ++ join_with (bytes " AND ") (c ∷ cs)

-- The statement with these conditions, and the places of its limit and its offset.
abbrev pub statement_text : List (Condition ℕ) → Str → ℕ → ℕ → Str
statement_text conditions order limit offset =
    select_from_images
    ++ (where_all (map (sql numbered) conditions)
        ++ (bytes " ORDER BY "
            ++ (order
                ++ (bytes " LIMIT " ++ (numbered limit ++ (bytes " OFFSET " ++ numbered offset))))))

condition_text-sql : (c : Condition ℕ) → condition_text c ≡ sql numbered c
condition_text-sql (content_type_in ps) = refl
condition_text-sql (size_at_least n) = refl
condition_text-sql (size_at_most n) = refl
condition_text-sql (date_at_least n) = refl
condition_text-sql (date_at_most n) = refl
condition_text-sql (name_like n m) = refl

map-sql : (cs : List (Condition ℕ)) → map condition_text cs ≡ map (sql numbered) cs
map-sql [] = refl
map-sql (c ∷ cs) = λ i. condition_text-sql c i ∷ map-sql cs i

where_clause-where_all :
    (cs : List (Condition ℕ)) → where_clause cs ≡ where_all (map (sql numbered) cs)
where_clause-where_all [] = refl
where_clause-where_all (c ∷ cs) = ap where_all (map-sql (c ∷ cs))

-- The statement of a search is the SELECT with all of its conditions joined by AND, the order, and a
-- limit and an offset; with the arguments in their numbered places the conditions are those that the
-- filters mean, in their order, and the limit and the offset are those of the page, made sensible;
-- and there are no arguments but these.
pub search_statement-meant :
    (f : SearchFilters) (pagination : Pagination) (sort : SortParams)
    → let (query, args) = search_statement f pagination sort in
      (conditions : List (Condition ℕ)) × (limit : ℕ) × (offset : ℕ) × (query
        ≡ statement_text conditions (build_simple_order_by_clause sort) limit offset)
      × (map (resolve (at args)) conditions ≡ map some (meant f))
      × (at args limit ≡ some (int_arg (validate_pagination pagination).limit))
      × (at args offset ≡ some (int_arg (validate_pagination pagination).offset))
      × (length args ≡ offset)
unfolding search_statement
search_statement-meant f pagination sort =
    let s = build_conditions-IsSound f in
    let b = build_conditions f in
    let p = validate_pagination pagination in
    (
      b.conditions,
      b.arg_index,
      suc b.arg_index,
      ap
          (λ c.
            select_from_images
            ++ (c
                ++ (bytes " ORDER BY "
                    ++ (build_simple_order_by_clause sort
                        ++ (bytes " LIMIT "
                            ++ (numbered b.arg_index
                                ++ (bytes " OFFSET " ++ numbered (suc b.arg_index))))))))
          (where_clause-where_all b.conditions),
      s.bound (int_arg p.limit ∷ int_arg p.offset ∷ []),
      at_end b.args (int_arg p.offset ∷ []) (int_arg p.limit) b.arg_index s.index,
      at_second b.args [] (int_arg p.limit) (int_arg p.offset) (suc b.arg_index) (ap suc s.index),
      omega (arith, length-append b.args (int_arg p.limit ∷ int_arg p.offset ∷ []), s.index),
    )
