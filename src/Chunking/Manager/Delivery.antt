-- ===== src/Chunking/Manager/Delivery.antt =====
-- A transfer whose chunks arrive in time is delivered, once.
use mathlib.Core.List.{append-nil, append_assoc}
use camera_ui_rpc.Base.{
  ℕ, ◌<◌, String, ◌≡◌, ◌≢◌, ◌⊎◌, refl, sym, ap, ◌∙◌, true, false, none, List, [], ◌∷◌, ◌++◌, arith,
  length, ℕ_eq, String_eq, inl,
}
use camera_ui_rpc.Base.Result.{Result, ok}
use camera_ui_rpc.Base.Dict.{lookup, contains}
use camera_ui_rpc.Chunking.Chunks.{ChunkData, chunk_at, count_chunks}
use camera_ui_rpc.Chunking.Manager.{ChunkingManager, Event, completed, process_chunk}
use camera_ui_rpc.Chunking.Manager.Sweep.{OnlyTimeouts, OnlyTimeouts-append}
use camera_ui_rpc.Chunking.Manager.Arrivals.{raw_chunk, process_all, InTime, indices}
use camera_ui_rpc.Chunking.Manager.Stored.{Serves, step_wait, step_done}

module _ {A : Type 0} (decode_message : List ℕ → Result A) (encoded : List ℕ) (m : ℕ) (hm : 0 < m)
    (nonempty : 0 < length encoded) (tid : String) (named : tid ≢ "") (callback : ℕ) where
  final_below :
      (last : ℕ) (cs : List (ℕ × ChunkData)) (now : ℕ) (final : ChunkData)
      → InTime encoded m last (cs ++ (now, final) ∷ [])
      → final.index < count_chunks (length encoded) m
  final_below last [] now final h = h.1
  final_below last ((at, c) ∷ cs) now final h = final_below at cs now final h.3

  deliver_from :
      (s : ChunkingManager) (last : ℕ) (js : List ℕ) (cs : List (ℕ × ChunkData)) (now : ℕ)
      (final : ChunkData) (x : A)
      → Serves decode_message encoded m hm nonempty tid named callback s last js
      → InTime encoded m last (cs ++ (now, final) ∷ [])
      → contains final.index js ≡ false
      → contains final.index (indices cs) ≡ false
      → ((k : ℕ)
          → k < count_chunks (length encoded) m
          → (contains k (indices (cs ++ (now, final) ∷ [])) ≡ true) ⊎ (contains k js ≡ true))
      → decode_message encoded ≡ ok x
      → let out = process_all decode_message tid s (cs ++ (now, final) ∷ []) in
        (lookup tid out.0.assemblers ≡ none)
        × (es : List (Event A)) × OnlyTimeouts es
        × (out.1 ≡ es ++ completed callback x ∷ [])
  unfolding process_all contains
  deliver_from s last js [] now final x v timely missing unseen all decodes = rw timely.2 (
      let (gone, es, only, reported) =
        step_done decode_message encoded m hm nonempty tid named callback s last now final.index js
          x v timely.1 timely.0 (λ k kt. ground (arith, all k kt)) decodes in
      (gone, es, only, append-nil _ ∙ reported))
  deliver_from s last js ((at, c) ∷ cs) now final x v timely missing unseen all decodes =
      rw timely.2 (
        let ne : c.index ≢ final.index = λ e. ground (arith, e, unseen) in
        let unseen' : contains final.index (indices cs) ≡ false = ground (arith, unseen) in
        let missing' : contains final.index (c.index ∷ js) ≡ false =
          ground (arith, unseen, missing) in
        let (v', only) =
          step_wait decode_message encoded m hm nonempty tid named callback s last at c.index
            final.index js v timely.1 timely.0 (final_below at cs now final timely.3) missing ne in
        let (gone, es, rest_only, reported) =
          deliver_from
            (process_chunk decode_message s at
              (raw_chunk tid c.index (chunk_at encoded m c.index))).0
            at (c.index ∷ js) cs now final x v' timely.3 missing' unseen'
            (λ k kt. ground (arith, all k kt)) decodes in
        let events =
          (process_chunk decode_message s at
            (raw_chunk tid c.index (chunk_at encoded m c.index))).1 in
        (
          gone,
          events ++ es,
          OnlyTimeouts-append events es only rest_only,
          ap (◌++◌ events) reported ∙ sym (append_assoc events es (completed callback x ∷ [])),
        ))

  -- The same for a transfer without any chunk yet.
  pub delivery :
      (s : ChunkingManager) (last : ℕ) (cs : List (ℕ × ChunkData)) (now : ℕ) (final : ChunkData)
      (x : A)
      → Serves decode_message encoded m hm nonempty tid named callback s last []
      → InTime encoded m last (cs ++ (now, final) ∷ [])
      → contains final.index (indices cs) ≡ false
      → ((k : ℕ)
          → k < count_chunks (length encoded) m
          → contains k (indices (cs ++ (now, final) ∷ [])) ≡ true)
      → decode_message encoded ≡ ok x
      → let out = process_all decode_message tid s (cs ++ (now, final) ∷ []) in
        (lookup tid out.0.assemblers ≡ none)
        × (es : List (Event A)) × OnlyTimeouts es
        × (out.1 ≡ es ++ completed callback x ∷ [])
  delivery s last cs now final x v timely unseen all decodes =
      deliver_from s last [] cs now final x v timely (unfold contains in refl) unseen
        (λ k kt. inl (all k kt)) decodes
