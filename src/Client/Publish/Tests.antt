-- ===== src/Client/Publish/Tests.antt =====
-- The theorems on publishing at concrete inputs.
use camera_ui_rpc.Base.{ℕ, String, ◌≡◌, true, some, List, [], ◌∷◌, arith, String_eq}
use camera_ui_rpc.Base.Result.{ok}
use camera_ui_rpc.Base.Dict.{Dict, lookup}
use camera_ui_rpc.Client.Publish.{Sent, whole, publish}
use camera_ui_rpc.Client.Publish.Lossless.{stale_headers}

abbrev five_bytes : List ℕ
five_bytes = 1 ∷ 2 ∷ 3 ∷ 4 ∷ 5 ∷ []

abbrev own_headers : Dict String String
own_headers = ("trace", "7") ∷ []

-- A small message that is published with the headers of a large one before it carries their mark.
own_headers_reused :
    (r : List Sent × Dict String String) × (publish true five_bytes "t" 2 own_headers ≡ ok r)
    × (publish true (9 ∷ []) "u" 2 r.1 ≡ ok (whole (9 ∷ []) r.1 ∷ [], r.1))
    × (lookup "x-chunked-transfer" r.1 ≡ some "header")
own_headers_reused =
    stale_headers five_bytes (9 ∷ []) "t" "u" 2 "trace" "7" [] (omega arith) (omega arith)
      (omega arith)
