-- ===== src/Client/Dispatch/Received.antt =====
-- What the chunks of one transfer do at one subscription: message_handler of client.py.
use camera_ui_rpc.Base.{
  ℕ, zero, suc, String, ◌≡◌, ◌≢◌, refl, sym, ap, ap₂, ◌∙◌, Bool, false, none, some, List, [], ◌∷◌,
  ◌++◌, map, nat_eq, nat_eq_iff, arith, ◌==◌, String_eq, eq_of_same, if◌then◌else◌,
}
use mathlib.Core.List.{append_assoc, append-nil}
use camera_ui_rpc.Base.Result.{Result, ok}
use camera_ui_rpc.Codec.Values.{Value}
use camera_ui_rpc.Codec.Frame.{decode_message}
use camera_ui_rpc.Chunking.Chunks.{ChunkData}
use camera_ui_rpc.Chunking.Manager.{
  ChunkingManager, Event, completed, failed, process_chunk, timed_out, cancelled, raised,
}
use camera_ui_rpc.Chunking.Manager.Sweep.{OnlyTimeouts}
use camera_ui_rpc.Chunking.Manager.Arrivals.{raw_chunk, process_all}
use camera_ui_rpc.Client.Calls.{route_mux_response}
use camera_ui_rpc.Client.Dispatch.{Msg, Receiver, call_back, message_handler, set_queue}

-- the values that the manager completes for subscription `me`
abbrev pub values_for : ℕ → List (Event Value) → List Value
values_for me [] = []
values_for me (failed callback why ∷ events) = values_for me events
values_for me (completed callback value ∷ events) =
    let rest = values_for me events in if nat_eq callback me then value ∷ rest else rest

pub values_for-append :
    (me : ℕ) (xs ys : List (Event Value))
    → values_for me (xs ++ ys) ≡ values_for me xs ++ values_for me ys
values_for-append me [] ys = refl
values_for-append me (failed callback why ∷ xs) ys = values_for-append me xs ys
values_for-append me (completed callback value ∷ xs) ys = ground (arith, values_for-append me xs ys)

pub values_for-OnlyTimeouts :
    (me : ℕ) (es : List (Event Value)) → OnlyTimeouts es → values_for me es ≡ []
values_for-OnlyTimeouts me [] h = refl
values_for-OnlyTimeouts me (completed callback value ∷ es) h = absurd h
values_for-OnlyTimeouts me (failed callback timed_out ∷ es) h = values_for-OnlyTimeouts me es h
values_for-OnlyTimeouts me (failed callback cancelled ∷ es) h = absurd h
values_for-OnlyTimeouts me (failed callback (raised e) ∷ es) h = absurd h

-- Calling back appends to the queues, and leaves the manager alone.
pub call_back_lem :
    (k : ℕ) (events : List (Event Value)) (r : Receiver)
    → ((call_back events r).manager ≡ r.manager)
      × ((call_back events r).assembled (suc k) ≡ r.assembled (suc k) ++ values_for (suc k) events)
unfolding call_back
call_back_lem k [] r = (refl, sym (append-nil (r.assembled (suc k))))
call_back_lem k (failed callback why ∷ events) r = call_back_lem k events r
call_back_lem k (completed zero value ∷ events) r =
    let (m, q) = call_back_lem k events (record r { calls = route_mux_response value r.calls }) in
    (m, q ∙ ground arith)
call_back_lem k (completed (suc j) value ∷ events) r =
    let (m, q) = call_back_lem k events (record r {
      assembled = set_queue (suc j) (r.assembled (suc j) ++ value ∷ []) r.assembled;
    }) in
    (
      m,
      q
          ∙ ground (
            arith,
            nat_eq_iff (suc j) (suc k),
            append_assoc (r.assembled (suc k)) (value ∷ []) (values_for (suc k) events),
          ),
    )

-- a message with the raw bytes of a chunk
abbrev pub chunk_msg : String → ℕ → List ℕ → Msg
chunk_msg transfer_id index bytes = record {
  suffix = "";
  headers = record {
    status = none;
    chunk_type = some "chunk";
    chunk_id = some transfer_id;
    chunk_index = ok index;
  };
  bytes = bytes;
}

module _ (allocates : ℕ → Bool) (unpackb : List ℕ → Result Value) where
  -- the messages of a subscription, with their times, one after the other
  unfoldable pub receive_all : ℕ → List (ℕ × Msg) → Receiver → Receiver × List Value
  unfolding message_handler
  receive_all me [] r = (r, [])
  receive_all me ((now, msg) ∷ msgs) r =
      let (r', values) = message_handler allocates unpackb me now msg r in
      let (r'', more) = receive_all me msgs r' in (r'', values ++ more)

  abbrev processed : String → Receiver → ℕ → ChunkData → ChunkingManager × List (Event Value)
  processed tid r now c =
      process_chunk (decode_message unpackb) r.manager now (raw_chunk tid c.index c.bytes)

  module _ (k : ℕ) (tid : String) (named : tid ≢ "") where
    chunk_lem :
        (now : ℕ) (c : ChunkData) (r : Receiver)
        → r.assembled (suc k) ≡ []
        → let out =
            message_handler allocates unpackb (suc k) now (chunk_msg tid c.index c.bytes) r in
          (out.0.manager ≡ (processed tid r now c).0)
          × (out.0.assembled (suc k) ≡ [])
          × (out.1 ≡ values_for (suc k) (processed tid r now c).1)
    unfolding message_handler
    chunk_lem now c r idle =
        let (m', events) = processed tid r now c in
        let (m, q) = call_back_lem k events (record r { manager = m' }) in
        let there : (tid == "") ≡ false = ground (arith, eq_of_same tid "") in
        rw there (m, ground (arith, nat_eq_iff k k), q ∙ rw idle refl)

    -- The chunks do to the manager what `process_chunk` does, and hand over what it completes.
    pub chunks_received :
        (cs : List (ℕ × ChunkData)) (r : Receiver)
        → r.assembled (suc k) ≡ []
        → let out =
            receive_all (suc k) (map (λ c. (c.0, chunk_msg tid c.1.index c.1.bytes)) cs) r in
          let all = process_all (decode_message unpackb) tid r.manager cs in
          (out.0.manager ≡ all.0) × (out.1 ≡ values_for (suc k) all.1)
    unfolding receive_all process_all
    chunks_received [] r idle = (refl, refl)
    chunks_received ((now, c) ∷ cs) r idle =
        let (r', values) =
          message_handler allocates unpackb (suc k) now (chunk_msg tid c.index c.bytes) r in
        let (m, still, handed) = chunk_lem now c r idle in
        let (m', handed') = chunks_received cs r' still in
        let next = λ (m : ChunkingManager). process_all (decode_message unpackb) tid m cs in
        (
          m' ∙ ap (λ (m : ChunkingManager). (next m).0) m,
          ap₂ ◌++◌ handed (handed' ∙ ap (λ (m : ChunkingManager). values_for (suc k) (next m).1) m)
              ∙ sym (
                  values_for-append (suc k) (processed tid r now c).1
                    (next (processed tid r now c).0).1),
        )
