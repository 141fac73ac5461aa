-- ===== src/Service/Monitor/Tests.antt =====
-- Discovery at a concrete input.
use camera_ui_rpc.Base.{ℕ, ◌≡◌, refl, true, Option, none, some, List, [], ◌∷◌}
use camera_ui_rpc.Service.Monitor.{arrives, times_out, opened, ping, info, stats}
use camera_ui_rpc.Service.Monitor.Collected.{waits_for, found, discovery_collects}

-- a reader of responses of one byte
abbrev first_byte : List ℕ → Option ℕ
first_byte (b ∷ []) = some b
first_byte _ = none

abbrev two_messages : List (List ℕ × ℕ)
two_messages = (1 ∷ [], 1) ∷ (2 ∷ [], 2) ∷ []

discovery_collects_example :
    let waits =
      waits_for first_byte two_messages (arrives []) (arrives (3 ∷ []) ∷ times_out ∷ []) in
    (ping first_byte true none (opened true) waits
      ≡ found first_byte true "$SRV.PING" none (1 ∷ 2 ∷ []))
    × (info first_byte true none (opened true) waits
        ≡ found first_byte true "$SRV.INFO" none (1 ∷ 2 ∷ []))
    × (stats first_byte true none (opened true) waits
        ≡ found first_byte true "$SRV.STATS" none (1 ∷ 2 ∷ []))
discovery_collects_example =
    discovery_collects first_byte none two_messages (arrives []) (arrives (3 ∷ []) ∷ times_out ∷ [])
      true (refl, (refl, tt)) refl
