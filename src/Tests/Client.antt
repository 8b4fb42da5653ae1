-- ===== src/Tests/Client.antt =====
-- internal/loadgen/ops.go: a run of the client, and an instance of its theorem.
use golang_helloworld.Prelude.{[], arith, refl, suc, true, ℕ, ◌∷◌, ◌≡◌}
use golang_helloworld.Text.Decimal.{pos}
use golang_helloworld.Loadgen.Scenarios.{op_delete, op_upload}
use golang_helloworld.Loadgen.Client.{
  Reply, Request, Run, delete_request, do_all, do_op, images_request, pop_last, settings_request,
  thumbnail_request, track_ids, upload_image, upload_request, view_request,
}
use golang_helloworld.Loadgen.Client.Ids.{IsClient, do_all-IsClient}

-- A server that counts the requests, and answers an upload with that number.
abbrev counting : Request → ℕ → Reply × ℕ
counting upload_request n =
    (record { answered = true; status = 202; image_ids = pos n ∷ [] }, suc n)
counting images_request n = (record { answered = true; status = 200; image_ids = [] }, suc n)
counting settings_request n = (record { answered = true; status = 200; image_ids = [] }, suc n)
counting (view_request id) n = (record { answered = true; status = 200; image_ids = [] }, suc n)
counting (thumbnail_request id) n =
    (record { answered = true; status = 200; image_ids = [] }, suc n)
counting (delete_request id) n = (record { answered = true; status = 204; image_ids = [] }, suc n)

abbrev first_index : ℕ → ℕ → ℕ × ℕ
first_index n w = (0, w)

abbrev fresh : Run counting first_index
fresh = record { world = 1; client = record { ids = []; mine = [] }; sent = [] }

-- Two uploads and a deletion take the second image away again.
two_and_one :
    (do_all counting first_index (op_upload ∷ op_upload ∷ op_delete ∷ []) fresh).client.mine
    ≡ pos 1 ∷ []
unfolding do_all do_op upload_image track_ids pop_last
two_and_one = refl

do_all-IsClient_example :
    IsClient counting first_index
      (do_all counting first_index (op_upload ∷ op_upload ∷ op_delete ∷ []) fresh)
do_all-IsClient_example =
    do_all-IsClient counting first_index (op_upload ∷ op_upload ∷ op_delete ∷ []) fresh (record {
      ids_bounded = omega arith;
      mine_bounded = omega arith;
      own_only = λ p. omega arith;
    })
