-- ===== src/Client/Dispatch.antt =====
-- What the handlers of client.py's subscriptions do with an incoming message: message_handler in
-- _nats_subscribe with _handle_assembled_data, and _handle_mux_message of the reply inbox. All
-- subscriptions share the client's chunking manager. The completion callback of subscription `k` is
-- numbered k, and 0 is _route_mux_response. Headers are given as the handlers read them.
-- An exception of a handler is printed, and so has no result. The numbers of a chunk header are
-- counts.
pub mod Received
pub mod InOrder
pub mod Delivered
pub mod Tests
pub mod Transferred
use camera_ui_rpc.Base.{
  ℕ, zero, suc, String, Bool, true, false, ◌&&◌, Option, none, some, List, [], ◌∷◌, ◌++◌, map,
  nat_eq, ◌==◌, String_eq, if◌then◌else◌,
}
use camera_ui_rpc.Base.Result.{Result, ok, err}
use camera_ui_rpc.Codec.Values.{Value, str, dict, Fields, field_of, as_count?}
use camera_ui_rpc.Codec.Frame.{decode_message}
use camera_ui_rpc.Chunking.Manager.{
  ChunkingManager, new_manager, Event, completed, failed, Transfer, start_receiving, process_chunk,
}
use camera_ui_rpc.Chunking.Manager.Arrivals.{raw_chunk}
use camera_ui_rpc.Client.Calls.{Calls, new_calls, route_mux_response, handle_no_responders}

pub record Headers : Type 0 where
  pub status : Option String
  pub chunk_type : Option String
  pub chunk_id : Option String
  -- `int(headers.get("x-chunk-index", "0"))`
  pub chunk_index : Result ℕ

pub record Msg : Type 0 where
  -- the subject behind "rpc.reply.", for the reply inbox
  pub suffix : String
  pub headers : Headers
  pub bytes : List ℕ

pub record Receiver : Type 0 where
  pub manager : ChunkingManager
  -- the `assembled_queue` of each subscription
  pub assembled : ℕ → List Value
  pub calls : Calls

abbrev pub new_receiver : Receiver
new_receiver = record { manager = new_manager; assembled = λ k. []; calls = new_calls }

abbrev pub set_queue : ℕ → List Value → (ℕ → List Value) → ℕ → List Value
set_queue key queue assembled k = if nat_eq key k then queue else assembled k

-- the callbacks that the manager calls
unfoldable pub call_back : List (Event Value) → Receiver → Receiver
unfolding route_mux_response
call_back [] r = r
call_back (failed callback why ∷ events) r = call_back events r
call_back (completed zero value ∷ events) r =
    call_back events (record r { calls = route_mux_response value r.calls })
call_back (completed (suc k) value ∷ events) r =
    call_back events
      (record r { assembled = set_queue (suc k) (r.assembled (suc k) ++ value ∷ []) r.assembled })

abbrev pub managed : Receiver → ChunkingManager × List (Event Value) → Receiver
managed r (m, events) = call_back events (record r { manager = m })

-- `x is truthy` for a text that may be missing
abbrev pub given : Option String → Option String
given none = none
given (some s) = if s == "" then none else some s

abbrev pub is_text : String → Option Value → Bool
is_text wanted (some (str s)) = s == wanted
is_text wanted _ = false

abbrev pub transfer_with : ℕ → String → Fields → Option ℕ → Option Transfer
transfer_with me id fs none = none
transfer_with me id fs (some total_chunks) = some (record {
  transfer_id = id;
  total_chunks = total_chunks;
  on_complete = me;
  on_error = me;
  total_size = as_count? (field_of "totalSize" fs);
  chunk_size = as_count? (field_of "chunkSize" fs);
})

-- the transfer that a header message announces, if its id is the one of the headers
unfoldable pub announced : ℕ → Option String → Value → Option Transfer
unfolding field_of
announced me (some id) (dict fs) =
    if is_text id (field_of "transferId" fs)
    then transfer_with me id fs (as_count? (field_of "totalChunks" fs))
    else none
announced me _ value = none

abbrev pub is_type : String → Option String → Bool
is_type wanted none = false
is_type wanted (some s) = s == wanted

module _ (allocates : ℕ → Bool) (unpackb : List ℕ → Result Value) where
  abbrev pub receive_header : ℕ → Option Transfer → Receiver → Receiver
  receive_header now none r = r
  receive_header now (some t) r = managed r (start_receiving allocates r.manager now t)

  abbrev pub decoded_header : ℕ → ℕ → Option String → Result Value → Receiver → Receiver
  decoded_header me now id (err e) r = r
  decoded_header me now id (ok value) r = receive_header now (announced me (given id) value) r

  abbrev pub receive_chunk : ℕ → Option String → Result ℕ → List ℕ → Receiver → Receiver
  receive_chunk now (some id) (ok index) bytes r =
      managed r (process_chunk (decode_message unpackb) r.manager now (raw_chunk id index bytes))
  receive_chunk now _ _ bytes r = r

  -- the values that a subscription hands to its handler, in order
  abbrev pub drain : ℕ → Receiver → Receiver × List Value
  drain me r = (record r { assembled = set_queue me [] r.assembled }, r.assembled me)

  -- the queue is drained only when `process_chunk` has been called
  abbrev pub handle_chunk :
      ℕ → ℕ → Option String → Result ℕ → List ℕ → Receiver → Receiver × List Value
  handle_chunk me now (some id) (ok index) bytes r =
      drain me (receive_chunk now (some id) (ok index) bytes r)
  handle_chunk me now _ _ bytes r = (r, [])

  abbrev pub handle_regular : Result Value → Receiver → Receiver × List Value
  handle_regular (ok value) r = (r, value ∷ [])
  handle_regular (err e) r = (r, [])

  -- `message_handler` of subscription `me`, with what it hands to the subscription's handler
  unfoldable pub message_handler : ℕ → ℕ → Msg → Receiver → Receiver × List Value
  message_handler me now msg r =
      if is_type "header" msg.headers.chunk_type
      then (decoded_header me now msg.headers.chunk_id (unpackb msg.bytes) r, [])
      else if is_type "chunk" msg.headers.chunk_type
      then handle_chunk me now (given msg.headers.chunk_id) msg.headers.chunk_index msg.bytes r
      else handle_regular (decode_message unpackb msg.bytes) r

  abbrev pub is_empty : List ℕ → Bool
  is_empty [] = true
  is_empty (b ∷ bs) = false

  abbrev pub route_regular : Result Value → Receiver → Receiver
  route_regular (ok value) r = record r { calls = route_mux_response value r.calls }
  route_regular (err e) r = r

  -- `_handle_mux_message`, with the no-responder handler that it calls
  unfoldable pub handle_mux_message : ℕ → Msg → Receiver → Receiver × Option ℕ
  handle_mux_message now msg r =
      if is_empty msg.bytes && is_type "503" msg.headers.status
      then (let (calls, handler) = handle_no_responders msg.suffix r.calls in
          (record r { calls = calls }, handler))
      else if is_type "header" msg.headers.chunk_type
      then (decoded_header 0 now msg.headers.chunk_id (unpackb msg.bytes) r, none)
      else if is_type "chunk" msg.headers.chunk_type
      then (
        receive_chunk now (given msg.headers.chunk_id) msg.headers.chunk_index msg.bytes r,
        none,
      )
      else (route_regular (decode_message unpackb msg.bytes) r, none)
