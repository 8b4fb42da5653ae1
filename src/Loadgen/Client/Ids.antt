-- ===== src/Loadgen/Client/Ids.antt =====
-- internal/loadgen/ops.go: what the client deletes, and how many ids it keeps.
use golang_helloworld.Prelude.{
  Bool, Bool-cases, List, Option, [], arith, get_or, inl, inr, leb, length, length-append, none,
  refl, some, suc, tally, tally-append, ℕ, ◌++◌, ◌+◌, ◌<◌, ◌∷◌, ◌≡◌, ◌≢◌, ◌≤◌,
}
use golang_helloworld.Text.Decimal.{ℤ}
use golang_helloworld.Loadgen.Scenarios.{
  Op, op_delete, op_list, op_settings, op_thumbnail, op_upload, op_view,
}
use golang_helloworld.Loadgen.Client.{
  Reply, Request, Run, Sent, after_get, after_list, after_upload, delete_one, deleted, do_all,
  do_op, fetched, ids_of, images_request, list, listed, onto_front, pop_last, settings_request,
  thumbnail_request, track_ids, upload_image, upload_request, uploaded, view_one, view_request,
}

-- The ids that the uploads were answered with, and those that were deleted.
abbrev pub uploaded_ids : List Sent → List ℤ
uploaded_ids [] = []
uploaded_ids (uploaded found ∷ sent) = found ++ uploaded_ids sent
uploaded_ids (listed ∷ sent) = uploaded_ids sent
uploaded_ids (deleted id ∷ sent) = uploaded_ids sent
uploaded_ids (fetched ∷ sent) = uploaded_ids sent

abbrev pub deleted_ids : List Sent → List ℤ
deleted_ids [] = []
deleted_ids (deleted id ∷ sent) = id ∷ deleted_ids sent
deleted_ids (uploaded found ∷ sent) = deleted_ids sent
deleted_ids (listed ∷ sent) = deleted_ids sent
deleted_ids (fetched ∷ sent) = deleted_ids sent

track_ids-length : (ids found : List ℤ) → length ids ≤ 500 → length (track_ids ids found) ≤ 500
unfolding track_ids
track_ids-length ids [] h = h
track_ids-length ids (id ∷ found) h = elim (Bool-cases (leb 500 (length ids))) [
  | inl full ↦ rw full h
  | inr room ↦
      let low : length ids < 500 = ground arith in
      rw room (track_ids-length (ids ++ id ∷ []) found (omega (arith, length-append ids (id ∷ []))))
]

track_ids-tally :
    (p : ℤ → Bool) (ids found : List ℤ)
    → tally p (track_ids ids found) ≤ tally p ids + tally p found
unfolding track_ids
track_ids-tally p ids [] = omega arith
track_ids-tally p ids (id ∷ found) = elim (Bool-cases (leb 500 (length ids))) [
  | inl full ↦ rw full (omega arith)
  | inr room ↦
      rw room
        (omega (arith, track_ids-tally p (ids ++ id ∷ []) found, tally-append p ids (id ∷ [])))
]

Popped : List ℤ → Option (List ℤ × ℤ) → Type 0
Popped ids none = Unit
Popped ids (some (rest, id)) =
    (length ids ≡ suc (length rest))
    × ((p : ℤ → Bool) → tally p ids ≡ tally p rest + tally p (id ∷ []))

onto_front_some : (i : ℤ) (o : Option (List ℤ × ℤ)) → onto_front i o ≢ none
onto_front_some i none e = cc e
onto_front_some i (some (rest, last)) e = cc e

onto_front-Popped :
    (i : ℤ) (ids : List ℤ) (o : Option (List ℤ × ℤ))
    → pop_last ids ≡ o
    → Popped ids o
    → Popped (i ∷ ids) (onto_front i o)
unfolding Popped pop_last
onto_front-Popped i [] none e h = (refl, λ p. omega arith)
onto_front-Popped i (j ∷ ids) none e h = absurd (onto_front_some j (pop_last ids) e)
onto_front-Popped i ids (some (rest, id)) e (long, same) =
    (omega (arith, long), λ p. omega (arith, same p))

pop_last-Popped : (ids : List ℤ) → Popped ids (pop_last ids)
unfolding Popped pop_last
pop_last-Popped [] = tt
pop_last-Popped (i ∷ ids) = onto_front-Popped i ids (pop_last ids) refl (pop_last-Popped ids)

module _ {W : Type 0} (send : Request → W → Reply × W) (int_n : ℕ → W → ℕ × W) where
  pub record IsClient (s : Run send int_n) : Type 0 where
    pub ids_bounded : length s.client.ids ≤ 500
    pub mine_bounded : length s.client.mine ≤ 500
    pub own_only :
        (p : ℤ → Bool)
        → tally p (deleted_ids s.sent) + tally p s.client.mine ≤ tally p (uploaded_ids s.sent)

  list-IsClient : (s : Run send int_n) → IsClient s → IsClient (list send int_n s).1
  unfolding list after_list
  list-IsClient s h = record {
    ids_bounded =
        track_ids-length s.client.ids (ids_of (send images_request s.world).0) h.ids_bounded;
    mine_bounded = h.mine_bounded;
    own_only = h.own_only;
  }

  upload_image-IsClient : (s : Run send int_n) → IsClient s → IsClient (upload_image send int_n s).1
  unfolding upload_image after_upload
  upload_image-IsClient s h =
      let found = ids_of (send upload_request s.world).0 in
      record {
        ids_bounded = h.ids_bounded;
        mine_bounded = track_ids-length s.client.mine found h.mine_bounded;
        own_only = λ p. omega (
          arith,
          h.own_only p,
          track_ids-tally p s.client.mine found,
          tally-append p found (uploaded_ids s.sent),
        );
      }

  after_get-IsClient :
      (s : Run send int_n) (answer : Reply × W)
      → IsClient s
      → IsClient (after_get send int_n s answer).1
  after_get-IsClient s (r, w) h = record {
    ids_bounded = h.ids_bounded;
    mine_bounded = h.mine_bounded;
    own_only = h.own_only;
  }

  view_one-IsClient :
      (request : ℤ → Request) (s : Run send int_n) (ids : List ℤ)
      → IsClient s
      → IsClient (view_one send int_n request s ids).1
  unfolding view_one list
  view_one-IsClient request s [] h = list-IsClient s h
  view_one-IsClient request s (id ∷ ids) h =
      let (n, w) = int_n (length (id ∷ ids)) s.world in
      after_get-IsClient s (send (request (get_or (id ∷ ids) n id)) w) h

  delete_one-IsClient :
      (s : Run send int_n) (o : Option (List ℤ × ℤ))
      → Popped s.client.mine o
      → IsClient s
      → IsClient (delete_one send int_n s o).1
  unfolding Popped delete_one upload_image
  delete_one-IsClient s none popped h = upload_image-IsClient s h
  delete_one-IsClient s (some (rest, id)) (long, same) h = record {
    ids_bounded = h.ids_bounded;
    mine_bounded = omega (arith, long, h.mine_bounded);
    own_only = λ p. omega (arith, same p, h.own_only p);
  }

  do_op-IsClient : (o : Op) (s : Run send int_n) → IsClient s → IsClient (do_op send int_n o s).1
  unfolding do_op
  do_op-IsClient op_list s h = list-IsClient s h
  do_op-IsClient op_view s h = view_one-IsClient view_request s s.client.ids h
  do_op-IsClient op_thumbnail s h = view_one-IsClient thumbnail_request s s.client.ids h
  do_op-IsClient op_upload s h = upload_image-IsClient s h
  do_op-IsClient op_delete s h =
      delete_one-IsClient s (pop_last s.client.mine) (pop_last-Popped s.client.mine) h
  do_op-IsClient op_settings s h = after_get-IsClient s (send settings_request s.world) h

  -- Whatever operations a client runs, and whatever the server answers, it keeps 500 ids of each
  -- kind at most, and deletes only ids that its own uploads were answered with, each no more often
  -- than it came: if that was so before.
  pub do_all-IsClient :
      (ops : List Op) (s : Run send int_n) → IsClient s → IsClient (do_all send int_n ops s)
  unfolding do_all
  do_all-IsClient [] s h = h
  do_all-IsClient (o ∷ ops) s h =
      do_all-IsClient ops (do_op send int_n o s).1 (do_op-IsClient o s h)
