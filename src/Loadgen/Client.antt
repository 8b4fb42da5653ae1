-- ===== src/Loadgen/Client.antt =====
-- internal/loadgen/ops.go: the operations of the client, and the image ids that it keeps for them. The
-- server and the random numbers are outside, in `W`; the mutex and the spans are left out. The ids of
-- a listing are those of `c.ids`, those of an upload `c.mine`.
pub mod Ids
use golang_helloworld.Prelude.{
  Bool, List, Option, [], get_or, if◌then◌else◌, leb, length, none, not, some, ℕ, ◌++◌, ◌||◌, ◌∷◌,
}
use golang_helloworld.Text.Decimal.{ℤ}
use golang_helloworld.Loadgen.Scenarios.{
  Op, op_delete, op_list, op_settings, op_thumbnail, op_upload, op_view,
}

pub data Request : Type 0 where
  images_request upload_request settings_request : Request
  view_request thumbnail_request delete_request : ℤ → Request

pub record Client : Type 0 where
  pub ids : List ℤ
  pub mine : List ℤ

-- The status of a response, and the ids in its body; no response is an error.
pub record Reply : Type 0 where
  pub answered : Bool
  pub status : ℕ
  pub image_ids : List ℤ

abbrev pub max_tracked_ids : ℕ
max_tracked_ids = 500

-- trackIDs
unfoldable pub track_ids : List ℤ → List ℤ → List ℤ
track_ids ids [] = ids
track_ids ids (id ∷ found) =
    let rest = track_ids (ids ++ id ∷ []) found in
    if leb max_tracked_ids (length ids) then ids else rest

abbrev pub onto_front : ℤ → Option (List ℤ × ℤ) → Option (List ℤ × ℤ)
onto_front id none = some ([], id)
onto_front id (some (rest, last)) = some (id ∷ rest, last)

-- The last id, and those before it.
unfoldable pub pop_last : List ℤ → Option (List ℤ × ℤ)
pop_last [] = none
pop_last (id ∷ ids) = onto_front id (pop_last ids)

-- statusErr, for a response that came; a status of 500 or more is an error.
abbrev pub is_failure : Reply → Bool
is_failure r = not r.answered || leb 500 r.status

-- The ids that a response brings, if one came.
abbrev pub ids_of : Reply → List ℤ
ids_of r = if r.answered then r.image_ids else []

-- What a request has shown of the server, for the statements.
pub data Sent : Type 0 where
  listed : Sent
  uploaded : List ℤ → Sent
  deleted : ℤ → Sent
  fetched : Sent

module _ {W : Type 0} (send : Request → W → Reply × W) (int_n : ℕ → W → ℕ × W) where
  -- A run of the client: what is outside, what it keeps, and what it has sent, newest first.
  pub record Run : Type 0 where
    pub world : W
    pub client : Client
    pub sent : List Sent

  abbrev pub after_list : Run → Reply × W → Bool × Run
  unfolding track_ids
  after_list s (r, w) = (
    is_failure r,
    record s {
      world = w;
      client = record s.client { ids = track_ids s.client.ids (ids_of r) };
      sent = listed ∷ s.sent;
    },
  )

  unfoldable pub list : Run → Bool × Run
  unfolding after_list
  list s = after_list s (send images_request s.world)

  abbrev pub after_upload : Run → Reply × W → Bool × Run
  unfolding track_ids
  after_upload s (r, w) = (
    is_failure r,
    record s {
      world = w;
      client = record s.client { mine = track_ids s.client.mine (ids_of r) };
      sent = uploaded (ids_of r) ∷ s.sent;
    },
  )

  unfoldable pub upload_image : Run → Bool × Run
  unfolding after_upload
  upload_image s = after_upload s (send upload_request s.world)

  abbrev pub after_get : Run → Reply × W → Bool × Run
  after_get s (r, w) = (is_failure r, record s { world = w; sent = fetched ∷ s.sent })

  -- pick(false) and what is fetched for it.
  abbrev pub view_one : (ℤ → Request) → Run → List ℤ → Bool × Run
  unfolding list
  view_one request s [] = list s
  view_one request s (id ∷ ids) =
      let (n, w) = int_n (length (id ∷ ids)) s.world in
      after_get s (send (request (get_or (id ∷ ids) n id)) w)

  -- pick(true) and its deletion.
  abbrev pub delete_one : Run → Option (List ℤ × ℤ) → Bool × Run
  unfolding upload_image
  delete_one s none = upload_image s
  delete_one s (some (rest, id)) =
      let (r, w) = send (delete_request id) s.world in
      (
        is_failure r,
        record s {
          world = w;
          client = record s.client { mine = rest };
          sent = deleted id ∷ s.sent;
        },
      )

  unfoldable pub do_op : Op → Run → Bool × Run
  unfolding list upload_image pop_last view_one delete_one
  do_op op_list s = list s
  do_op op_view s = view_one view_request s s.client.ids
  do_op op_thumbnail s = view_one thumbnail_request s s.client.ids
  do_op op_upload s = upload_image s
  do_op op_delete s = delete_one s (pop_last s.client.mine)
  do_op op_settings s = after_get s (send settings_request s.world)

  -- Operations one after the other.
  unfoldable pub do_all : List Op → Run → Run
  unfolding do_op
  do_all [] s = s
  do_all (o ∷ ops) s = do_all ops (do_op o s).1
