-- ===== src/Client/Publish.antt =====
-- `publish` of client.py behind the encoding of its message: the messages that go to the
-- connection, in order, each published without an exception. The dictionary of headers belongs to
-- the caller, and its contents afterwards are returned too.
pub mod Lossless
pub mod Tests
use camera_ui_rpc.Base.{
  ℕ, ◌+◌, ◌-◌, ◌/◌, Bool, true, false, String, Option, none, some, List, [], ◌∷◌, length, map, leb,
  nat_eq, String_eq, if◌then◌else◌,
}
use camera_ui_rpc.Base.Result.{Result, ok, err, runtime_error, zero_division, ◌>>=◌}
use camera_ui_rpc.Base.Dict.{Dict, insert}
use camera_ui_rpc.Codec.Values.{Value, pos, int, str, dict, field, no_fields, text_key}
use camera_ui_rpc.Chunking.Chunks.{ChunkData, create_chunks, count_chunks}

-- the header message of a chunked transfer
pub record TransferHeader : Type 0 where
  pub transfer_id : String
  pub total_chunks : ℕ
  pub total_size : ℕ
  pub chunk_size : ℕ

-- the dictionary that is encoded for it
abbrev pub header_value : TransferHeader → Value
header_value h =
    let number = λ (n : ℕ). int (pos n) in
    dict (
      field (text_key "type") (str "chunked") (
        field (text_key "transferId") (str h.transfer_id) (
          field (text_key "totalChunks") (number h.total_chunks) (
            field (text_key "totalSize") (number h.total_size)
              (field (text_key "chunkSize") (number h.chunk_size) no_fields)))))

pub data Sent : Type 0 where
  -- an encoded message with its headers
  whole : List ℕ → Dict String String → Sent
  header : TransferHeader → Dict String String → Sent
  -- the raw bytes of the chunk with this index
  chunk : String → ℕ → List ℕ → Sent

-- `hdrs = headers or {}` and the two keys that are set in it
unfoldable pub header_headers : String → Dict String String → Dict String String
header_headers transfer_id headers =
    insert "x-chunk-id" transfer_id (insert "x-chunked-transfer" "header" headers)

-- An empty dictionary is replaced by a new one, any other is the caller's own.
abbrev pub callers_headers : Dict String String → Dict String String → Dict String String
callers_headers [] hdrs = []
callers_headers (h ∷ rest) hdrs = hdrs

abbrev pub sent_chunk : ChunkData → Sent
sent_chunk c = chunk c.transfer_id c.index c.bytes

unfoldable pub publish_chunked :
    List ℕ → String → ℕ → Dict String String → Result (List Sent × Dict String String)
unfolding header_headers
publish_chunked encoded transfer_id max_payload_size headers = do
  total_chunks ←
      (if nat_eq max_payload_size 0
        then err zero_division
        else ok (count_chunks (length encoded) max_payload_size))
  chunks ← create_chunks encoded transfer_id max_payload_size
  let hdrs = header_headers transfer_id headers
  let first : TransferHeader = record {
    transfer_id = transfer_id;
    total_chunks = total_chunks;
    total_size = length encoded;
    chunk_size = max_payload_size;
  }
  ok (header first hdrs ∷ map sent_chunk chunks, callers_headers headers hdrs)

unfoldable pub publish :
    Bool → List ℕ → String → ℕ → Dict String String → Result (List Sent × Dict String String)
unfolding publish_chunked
publish connected encoded transfer_id max_payload_size headers =
    if connected
    then (if leb (length encoded) max_payload_size
        then ok (whole encoded headers ∷ [], headers)
        else publish_chunked encoded transfer_id max_payload_size headers)
    else err runtime_error
