-- ===== src/Codec/Segments.antt =====
-- The sequential restore pass of codec.py on one segment after the other.
use camera_ui_rpc.Base.{
  ℕ, suc, ◌+◌, ◌-◌, ◌≤◌, ◌≡◌, refl, sym, ap, ap₂, ◌∙◌, List, [], ◌∷◌, ◌++◌, length, drop, concat,
  ltb, nat_eq, true, false, arith, length-append, length-drop, drop-drop, drop-append, take-append,
}
use mathlib.Core.List.{append_assoc}
use camera_ui_rpc.Base.Result.{ok}
use camera_ui_rpc.Codec.Values.{memoryview, Fields}
use camera_ui_rpc.Codec.Restore.{RestoreState, take_segment}

-- the state when everything came in order
abbrev pub in_order : ℕ → ℕ → RestoreState
in_order next offset = record { next = next; offset = offset; out_of_order = false }

-- the state behind the segments `ss`
abbrev pub behind : ℕ → ℕ → List (List ℕ) → RestoreState
behind next offset ss = in_order (next + length ss) (offset + length (concat ss))

concat-append : (xs ys : List (List ℕ)) → concat (xs ++ ys) ≡ concat xs ++ concat ys
concat-append [] ys = refl
concat-append (x ∷ xs) ys = rw (concat-append xs ys, append_assoc x (concat xs) (concat ys)) refl

pub behind_none : (n o : ℕ) → in_order n o ≡ behind n o []
behind_none n o =
    let nexts : n ≡ n + 0 = omega arith in
    let offsets : o ≡ o + 0 = omega arith in ap₂ in_order nexts offsets

pub behind-append :
    (n o : ℕ) (xs ys : List (List ℕ))
    → behind (n + length xs) (o + length (concat xs)) ys ≡ behind n o (xs ++ ys)
behind-append n o xs ys =
    let total : length (concat (xs ++ ys)) ≡ length (concat xs) + length (concat ys) =
      ap length (concat-append xs ys) ∙ length-append (concat xs) (concat ys) in
    ap₂ in_order (omega (arith, length-append xs ys)) (omega (arith, total))

-- the segments `ss` stand at `offset` of the payload
abbrev pub StandsAt : List ℕ → ℕ → List (List ℕ) → List ℕ → Type 0
StandsAt payload offset ss rest = drop offset payload ≡ concat ss ++ rest

pub stands_left :
    (payload : List ℕ) (o : ℕ) (xs ys : List (List ℕ)) (rest : List ℕ)
    → StandsAt payload o (xs ++ ys) rest
    → StandsAt payload o xs (concat ys ++ rest)
stands_left payload o xs ys rest h =
    h ∙ rw (concat-append xs ys, append_assoc (concat xs) (concat ys) rest) refl

pub stands_right :
    (payload : List ℕ) (o : ℕ) (xs ys : List (List ℕ)) (rest : List ℕ)
    → StandsAt payload o (xs ++ ys) rest
    → StandsAt payload (o + length (concat xs)) ys rest
stands_right payload o xs ys rest h =
    sym (drop-drop o (length (concat xs)) payload)
    ∙ ap (drop (length (concat xs))) (stands_left payload o xs ys rest h)
    ∙ drop-append (concat xs) (concat ys ++ rest)

pub take_segment_lem :
    (fs : Fields) (payload : List ℕ) (n o : ℕ) (b rest : List ℕ)
    → 1 ≤ length b
    → drop o payload ≡ b ++ rest
    → take_segment fs n (length b) payload (in_order n o)
      ≡ ok (memoryview b, in_order (suc n) (o + length b))
unfolding take_segment
take_segment_lem fs payload n o b rest some_bytes h =
    let sizes : length payload - o ≡ length b + length rest =
      sym (length-drop o payload) ∙ ap length h ∙ length-append b rest in
    let expected : nat_eq n n ≡ true = ground arith in
    let fits : ltb (length payload) (o + length b) ≡ false = ground arith in
    let width : o + length b - o ≡ length b = omega arith in
    rw (expected, fits, width, h, take-append b rest) refl
