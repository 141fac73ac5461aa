-- ===== src/Client/Publish/Lossless.antt =====
-- What a chunked publishing sends, and what it does to the headers of its caller.
use camera_ui_rpc.Base.{
  ℕ, ◌≤◌, ◌<◌, ◌≡◌, refl, ◌∙◌, true, false, String, List, [], ◌∷◌, length, map, leb, nat_eq, arith,
  String_eq,
}
use camera_ui_rpc.Base.Result.{ok}
use mathlib.Core.Option.{some}
use camera_ui_rpc.Base.Dict.{Dict, insert, lookup, lookup-insert}
use camera_ui_rpc.Chunking.Cutting.{concat-create_chunks}
use camera_ui_rpc.Chunking.Chunks.{ChunkData, create_chunks, count_chunks}
use camera_ui_rpc.Client.Publish.{
  Sent, whole, header, header_headers, callers_headers, sent_chunk, publish_chunked, publish,
}

-- what a chunked publishing sends and leaves in the caller's headers
abbrev pub chunked :
    List ℕ → String → ℕ → Dict String String → List ChunkData → List Sent × Dict String String
chunked encoded transfer_id m headers cs = (
  header
        (record {
          transfer_id = transfer_id;
          total_chunks = count_chunks (length encoded) m;
          total_size = length encoded;
          chunk_size = m;
        })
        (header_headers transfer_id headers)
      ∷ map sent_chunk cs,
  callers_headers headers (header_headers transfer_id headers),
)

pub chunked_lem :
    (encoded : List ℕ) (transfer_id : String) (m : ℕ) (headers : Dict String String)
    (cs : List ChunkData)
    → 0 < m
    → create_chunks encoded transfer_id m ≡ ok cs
    → publish_chunked encoded transfer_id m headers ≡ ok (chunked encoded transfer_id m headers cs)
unfolding publish_chunked
chunked_lem encoded transfer_id m headers cs positive created =
    let nonzero : nat_eq m 0 ≡ false = ground arith in rw (nonzero, created) refl

pub marked :
    (transfer_id : String) (headers : Dict String String)
    → lookup "x-chunked-transfer" (header_headers transfer_id headers) ≡ some "header"
unfolding header_headers
marked transfer_id headers =
    lookup-insert "x-chunk-id" "x-chunked-transfer" transfer_id
      (insert "x-chunked-transfer" "header" headers)
    ∙ lookup-insert "x-chunked-transfer" "x-chunked-transfer" "header" headers

-- A caller that passes headers of its own to a chunked publishing and uses them again for a small
-- message sends that message marked as the header of a chunked transfer.
pub stale_headers :
    (large small : List ℕ) (transfer_id next_id : String) (m : ℕ) (name value : String)
    (headers : Dict String String)
    → 0 < m
    → m < length large
    → length small ≤ m
    → (r : List Sent × Dict String String) × (publish true large transfer_id m
          ((name, value) ∷ headers)
        ≡ ok r)
      × (publish true small next_id m r.1 ≡ ok (whole small r.1 ∷ [], r.1))
      × (lookup "x-chunked-transfer" r.1 ≡ some "header")
unfolding publish
stale_headers large small transfer_id next_id m name value headers positive big fits =
    let (cs, created, same) = concat-create_chunks large transfer_id m positive in
    let too_big : leb (length large) m ≡ false = ground arith in
    let small_enough : leb (length small) m ≡ true = ground arith in
    (
      chunked large transfer_id m ((name, value) ∷ headers) cs,
      rw too_big (chunked_lem large transfer_id m ((name, value) ∷ headers) cs positive created),
      rw small_enough refl,
      marked transfer_id ((name, value) ∷ headers),
    )
