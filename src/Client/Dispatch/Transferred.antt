-- ===== src/Client/Dispatch/Transferred.antt =====
-- What message_handler of client.py makes of the messages of one publish, whole or chunked.
use camera_ui_rpc.Base.{
  ℕ, suc, ◌+◌, ◌≤◌, ◌<◌, String, ◌≡◌, ◌≢◌, refl, sym, ap, ap₂, ◌∙◌, Bool, true, false, none, some,
  List, [], ◌∷◌, ◌++◌, nat_eq_iff, arith, length, ℕ_eq, String_eq, ◌==◌, same_self, eq_of_same,
}
use mathlib.Core.Path.{subst}
use camera_ui_rpc.Base.Result.{Result, ok}
use camera_ui_rpc.Base.Dict.{Dict, lookup, contains, insert, lookup-insert}
use camera_ui_rpc.Codec.Values.{Value, field_of}
use camera_ui_rpc.Codec.Frame.{decode_message}
use camera_ui_rpc.Codec.Received.{plain}
use camera_ui_rpc.Codec.RoundTrip.{MsgPack}
use camera_ui_rpc.Chunking.Chunks.{chunks_from, count_chunks}
use camera_ui_rpc.Chunking.Cutting.{chunk_of}
use camera_ui_rpc.Chunking.Manager.{
  ChunkingManager, Event, completed, stale_transfer_ttl, start_receiving,
}
use camera_ui_rpc.Chunking.Manager.Keeping.{IsConsistent}
use camera_ui_rpc.Chunking.Manager.Sweep.{sweep_stale-OnlyTimeouts}
use camera_ui_rpc.Chunking.Manager.Arrivals.{process_all, InTime, indices}
use camera_ui_rpc.Chunking.Manager.EndToEnd
use camera_ui_rpc.Chunking.Manager.EndToEnd.{transfer_delivered}
use camera_ui_rpc.Client.Publish.{TransferHeader, header_value, whole, header_headers}
use camera_ui_rpc.Client.Publish.Lossless.{chunked, marked}
use camera_ui_rpc.Client.Dispatch.{Receiver, announced, managed, message_handler}
use camera_ui_rpc.Client.Dispatch.Received.{
  values_for, values_for-append, values_for-OnlyTimeouts, call_back_lem, receive_all,
  chunks_received,
}
use camera_ui_rpc.Client.Dispatch.InOrder.{
  msg_with, arrivals, timed, arrivals-chunks_from, timed_last, contains-timed, timed-InTime,
}

-- the header of the chunked transfer of a message
abbrev pub transfer_header : List ℕ → String → ℕ → TransferHeader
transfer_header encoded tid m = record {
  transfer_id = tid;
  total_chunks = count_chunks (length encoded) m;
  total_size = length encoded;
  chunk_size = m;
}

-- The receiver reads from the header message what the sender put into it.
announced_lem :
    (k : ℕ) (encoded : List ℕ) (tid : String) (m : ℕ) (nonempty : 0 < length encoded)
    → announced (suc k) (some tid) (plain (header_value (transfer_header encoded tid m)))
      ≡ some (EndToEnd.header encoded m nonempty tid (suc k) (suc k) true)
unfolding announced plain field_of
announced_lem k encoded tid m nonempty = rw (same_self tid) refl

identified :
    (tid : String) (headers : Dict String String)
    → lookup "x-chunk-id" (header_headers tid headers) ≡ some tid
unfolding header_headers
identified tid headers =
    lookup-insert "x-chunk-id" "x-chunk-id" tid (insert "x-chunked-transfer" "header" headers)

module _ (p : MsgPack) (allocates : ℕ → Bool) (k : ℕ) (encoded : List ℕ) (tid : String) (m : ℕ)
    (positive : 0 < m) (named : tid ≢ "") (headers : Dict String String)
    (header_bytes : TransferHeader → List ℕ)
    (packed : p.packb (header_value (transfer_header encoded tid m))
      ≡ ok (header_bytes (transfer_header encoded tid m))) where
  header_lem :
      (now : ℕ) (r : Receiver) (nonempty : 0 < length encoded)
      → message_handler allocates p.unpackb
          (suc k)
          now
          (msg_with (header_headers tid headers) (header_bytes (transfer_header encoded tid m)))
          r
        ≡ (
          managed r (
              start_receiving allocates r.manager now
                (EndToEnd.header encoded m nonempty tid (suc k) (suc k) true)),
          [],
        )
  unfolding message_handler
  header_lem now r nonempty =
      let there : (tid == "") ≡ false = ground (arith, eq_of_same tid "") in
      rw (
        marked tid headers,
        identified tid headers,
        p.unpackb-packb (header_value (transfer_header encoded tid m))
            (header_bytes (transfer_header encoded tid m)) packed,
        there,
        announced_lem k encoded tid m nonempty,
      )

  module _ (clock : ℕ → ℕ) (r : Receiver) (x : Value)
      (steady : (t : ℕ) → clock (suc t) ≤ clock t + stale_transfer_ttl)
      (consistent : IsConsistent r.manager) (idle : r.assembled (suc k) ≡ [])
      (decodes : decode_message p.unpackb encoded ≡ ok x) where
    abbrev decoder : List ℕ → Result Value
    decoder = decode_message p.unpackb

    abbrev began : 0 < length encoded → ChunkingManager × List (Event Value)
    began nonempty =
        start_receiving allocates r.manager (clock 0)
          (EndToEnd.header encoded m nonempty tid (suc k) (suc k) true)

    -- what the manager completes from the chunks on is the message
    completed_once :
        (nonempty : 0 < length encoded) (n : ℕ)
        → count_chunks (length encoded) m ≡ suc n
        → values_for
            (suc k)
            (process_all decoder tid (began nonempty).0 (timed encoded tid m clock 1 0 (suc n))).1
          ≡ x ∷ []
    completed_once nonempty n counted =
        let (s', before) = began nonempty in
        let cs = timed encoded tid m clock 1 0 n in
        let final = chunk_of encoded tid m n in
        let now = clock (suc n) in
        let late : 1 + n ≡ suc n = omega arith in
        let last : 0 + n ≡ n = omega arith in
        let whole : timed encoded tid m clock 1 0 (suc n) ≡ cs ++ (now, final) ∷ [] =
          timed_last encoded tid m clock 1 0 n
          ∙ ap₂ (λ a b. cs ++ (clock a, chunk_of encoded tid m b) ∷ []) late last in
        let timely : InTime encoded m (clock 0) (timed encoded tid m clock 1 0 (suc n)) =
          timed-InTime encoded tid m clock (clock 0) 1 0 (suc n) (steady 0) steady
            (omega (arith, counted)) in
        let within = subst (InTime encoded m (clock 0)) whole timely in
        let unseen : contains n (indices cs) ≡ false =
          contains-timed encoded tid m clock n 1 0 n ∙ ground arith in
        let all : (j : ℕ)
            → j < count_chunks (length encoded) m
            → contains j (indices (cs ++ (now, final) ∷ [])) ≡ true =
          λ j below.
            subst (λ l. contains j (indices l) ≡ true) whole
              (contains-timed encoded tid m clock j 1 0 (suc n) ∙ ground (arith, below, counted)) in
        let (gone, es, only, reported) =
          transfer_delivered encoded m nonempty decoder positive tid named (suc k) (suc k) allocates
            true r.manager (clock 0) cs now final x consistent within unseen all decodes in
        let silent : values_for (suc k) before ≡ [] =
          values_for-OnlyTimeouts (suc k) before
            (unfold start_receiving in sweep_stale-OnlyTimeouts Value r.manager (clock 0)) in
        ap (λ l. values_for (suc k) (process_all decoder tid s' l).1) whole
        ∙ ap (λ l. l ++ values_for (suc k) (process_all decoder tid s' (cs ++ (now, final) ∷ [])).1)
            (sym silent)
        ∙ sym (
            values_for-append (suc k) before
              (process_all decoder tid s' (cs ++ (now, final) ∷ [])).1)
        ∙ ap (values_for (suc k)) reported
        ∙ values_for-append (suc k) es (completed (suc k) x ∷ [])
        ∙ ap (λ l. l ++ values_for (suc k) (completed (suc k) x ∷ []))
            (values_for-OnlyTimeouts (suc k) es only)
        ∙ ground (arith, nat_eq_iff k k)

    -- the whole transfer, from its header on
    pub chunked_delivered :
        (nonempty : 0 < length encoded) (n : ℕ)
        → count_chunks (length encoded) m ≡ suc n
        → (receive_all allocates p.unpackb
            (suc k)
            (arrivals header_bytes clock 0
              (chunked encoded tid m headers (chunks_from encoded tid m 0 (suc n))).0)
            r).1
          ≡ x ∷ []
    unfolding receive_all
    chunked_delivered nonempty n counted =
        let (s', before) = began nonempty in
        let (same, queued) = call_back_lem k before (record r { manager = s' }) in
        let silent : values_for (suc k) before ≡ [] =
          values_for-OnlyTimeouts (suc k) before
            (unfold start_receiving in sweep_stale-OnlyTimeouts Value r.manager (clock 0)) in
        let cs = timed encoded tid m clock 1 0 (suc n) in
        let after = managed r (s', before) in
        let handed =
          (chunks_received allocates p.unpackb k tid named cs after
            (queued ∙ rw (idle, silent) refl)).1 in
        rw
          (
            header_lem (clock 0) r nonempty,
            arrivals-chunks_from encoded tid m clock header_bytes 1 0 (suc n),
          )
          (handed
            ∙ ap (λ (s : ChunkingManager). values_for (suc k) (process_all decoder tid s cs).1) same
            ∙ completed_once nonempty n counted)

    pub whole_delivered :
        lookup "x-chunked-transfer" headers ≡ none
        → (receive_all allocates p.unpackb
            (suc k)
            (arrivals header_bytes clock 0 (whole encoded headers ∷ []))
            r).1
          ≡ x ∷ []
    unfolding receive_all message_handler
    whole_delivered unmarked = rw (unmarked, decodes) refl
