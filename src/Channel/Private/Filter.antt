-- ===== src/Channel/Private/Filter.antt =====
-- Both ends of a private channel use one subject, and only the other end is heard.
use camera_ui_rpc.Base.{
  ◌≢◌, ◌==◌, ℕ, String, ◌≡◌, refl, ap, ap₂, ◌∙◌, Bool, true, false, Option, none, some, List, [],
  ◌∷◌, ◌++◌, String_eq, arith, Bool-cases, inl, inr, if◌then◌else◌, eq_of_same,
}
use Prim.Native.String.{◌∷◌ as ◌∷ₛ◌, [] as no_text, compare, then as next_answer}
use Prim.Native.String.compare as compare_laws
use Prim.Native.Nat.{Ordering, compare as compare_ℕ}
use Prim.Native.Char.{code}
use camera_ui_rpc.Channel.{Effect, message_handler}
use camera_ui_rpc.Channel.Private.{
  PrivateChannel, PrivateMessage, is_for_us, is_handshake, accepted, received_from, private_handler,
  sorted_pair, private_subject, remember,
}

unfoldable pub run : List PrivateMessage → PrivateChannel → PrivateChannel × List Effect
unfolding private_handler
run [] c = (c, [])
run (m ∷ ms) c =
    let (c', effects) = private_handler m c in
    let (c'', later) = run ms c' in (c'', effects ++ later)

-- whether the target is named as the sender
abbrev pub is_sender : String → Option String → Bool
is_sender target none = false
is_sender target (some sender) = sender == target

-- what the target sent
abbrev pub heard : String → List PrivateMessage → List PrivateMessage
heard target [] = []
heard target (m ∷ ms) =
    let rest = heard target ms in if is_sender target m.sender then m ∷ rest else rest

-- With another target than the client itself, the filter lets exactly the target's messages pass.
is_for_us_lem :
    (sender client_id target : String)
    → target ≢ client_id
    → is_for_us sender client_id target ≡ (sender == target)
is_for_us_lem sender client_id target other =
    ground (arith, eq_of_same sender client_id, eq_of_same sender target, other)

-- A message does not change who the two ends are.
abbrev SameEnds : PrivateChannel → PrivateChannel → Type 0
SameEnds c d = (d.client_id ≡ c.client_id) × (d.target_client_id ≡ c.target_client_id)

accepted-SameEnds :
    (sender : String) (m : PrivateMessage) (c : PrivateChannel) → SameEnds c (accepted sender m c).0
accepted-SameEnds sender m c = by_kind (is_handshake m.body)
  where
    by_kind :
        (b : Bool)
        → let r : PrivateChannel × List Effect =
            if b
            then (record c { remote_client_id = remember sender c.remote_client_id }, [])
            else (
              record c {
                remote_client_id = remember sender c.remote_client_id;
                channel = (message_handler m.body c.channel).0;
              },
              (message_handler m.body c.channel).1,
            ) in
          SameEnds c r.0
    by_kind true = (refl, refl)
    by_kind false = (refl, refl)

-- what is done with messages of the other end, in order
unfoldable pub handle_all :
    String → List PrivateMessage → PrivateChannel → PrivateChannel × List Effect
unfolding is_handshake message_handler
handle_all target [] c = (c, [])
handle_all target (m ∷ ms) c =
    let (c', effects) = accepted target m c in
    let (c'', later) = handle_all target ms c' in (c'', effects ++ later)

module _ (client_id target : String) (other : target ≢ client_id) where
  foreign_ignored :
      (o : Option String) (m : PrivateMessage) (c : PrivateChannel)
      → c.client_id ≡ client_id
      → c.target_client_id ≡ target
      → is_sender target o ≡ false
      → received_from o m c ≡ (c, [])
  foreign_ignored none m c a b h = refl
  foreign_ignored (some sender) m c a b h =
      let stopped : is_for_us sender c.client_id c.target_client_id ≡ false =
        ap₂ (is_for_us sender) a b ∙ is_for_us_lem sender client_id target other ∙ h in
      rw stopped refl

  ours_accepted :
      (o : Option String) (m : PrivateMessage) (c : PrivateChannel)
      → c.client_id ≡ client_id
      → c.target_client_id ≡ target
      → is_sender target o ≡ true
      → received_from o m c ≡ accepted target m c
  ours_accepted none m c a b h = cc h
  ours_accepted (some sender) m c a b h =
      let passes : is_for_us sender c.client_id c.target_client_id ≡ true =
        ap₂ (is_for_us sender) a b ∙ is_for_us_lem sender client_id target other ∙ h in
      rw passes (ap (λ x. accepted x m c) (eq_of_same sender target h))

  heard_from :
      (ms : List PrivateMessage) (c : PrivateChannel)
      → c.client_id ≡ client_id
      → c.target_client_id ≡ target
      → run ms c ≡ handle_all target (heard target ms) c
  unfolding run handle_all
  heard_from [] c a b = refl
  heard_from (m ∷ ms) c a b = elim (Bool-cases (is_sender target m.sender)) [
    | inl ours ↦
        let kept = accepted-SameEnds target m c in
        let here : private_handler m c ≡ accepted target m c =
          unfold private_handler in ours_accepted m.sender m c a b ours in
        rw (ours, here)
          (ap (λ r. (r.0, (accepted target m c).1 ++ r.1))
            (heard_from ms (accepted target m c).0 (kept.0 ∙ a) (kept.1 ∙ b)))
    | inr foreign ↦
        let here : private_handler m c ≡ (c, []) =
          unfold private_handler in foreign_ignored m.sender m c a b foreign in
        rw (foreign, here) (heard_from ms c a b)
  ]

-- A private channel whose target is another client hears just what names the target as its sender:
-- it handles those messages in order, and all others, of a third client, of no client and its own
-- echoes, change nothing and reach no handler.
pub only_other_end_heard :
    (ms : List PrivateMessage) (c : PrivateChannel)
    → c.target_client_id ≢ c.client_id
    → run ms c ≡ handle_all c.target_client_id (heard c.target_client_id ms) c
only_other_end_heard ms c other = heard_from c.client_id c.target_client_id other ms c refl refl

-- the opposite answer of a comparison
abbrev flipped : Ordering → Ordering
flipped Ordering.lt = Ordering.gt
flipped Ordering.eq = Ordering.eq
flipped Ordering.gt = Ordering.lt

flipped-next_answer :
    (q r : Ordering) → next_answer (flipped q) (flipped r) ≡ flipped (next_answer q r)
flipped-next_answer Ordering.lt r = refl
flipped-next_answer Ordering.eq r = refl
flipped-next_answer Ordering.gt r = refl

flipped-compare_ℕ : (m n : ℕ) → compare_ℕ m n ≡ flipped (compare_ℕ n m)
flipped-compare_ℕ m n = ground arith

flipped-compare : (a b : String) → compare a b ≡ flipped (compare b a)
flipped-compare no_text no_text = refl
flipped-compare no_text (d ∷ₛ t) = rw (compare_laws.nil-cons d t, compare_laws.cons-nil d t) refl
flipped-compare (c ∷ₛ s) no_text = rw (compare_laws.nil-cons c s, compare_laws.cons-nil c s) refl
flipped-compare (c ∷ₛ s) (d ∷ₛ t) =
    rw
      (
        compare_laws.cons-cons c d s t,
        compare_laws.cons-cons d c t s,
        flipped-compare_ℕ (code c) (code d),
        flipped-compare s t,
      )
      (flipped-next_answer (compare_ℕ (code d) (code c)) (compare t s))

equal_of_compare : (a b : String) → compare a b ≡ Ordering.eq → a ≡ b
equal_of_compare a b h = eq_of_same a b (rw h refl)

sorted_by :
    (a b : String) (o q : Ordering)
    → o ≡ flipped q
    → (o ≡ Ordering.eq → a ≡ b)
    → let leb : Ordering → Bool = λ r. elim r [ Ordering.gt ↦ false | _ ↦ true ] in
      let first : String × String = if leb o then (a, b) else (b, a) in
      let second : String × String = if leb q then (b, a) else (a, b) in first ≡ second
sorted_by a b o Ordering.lt h same = rw h refl
sorted_by a b o Ordering.gt h same = rw h refl
sorted_by a b o Ordering.eq h same = let e = same h in rw (h, e) refl

sorted_pair_comm : (a b : String) → sorted_pair a b ≡ sorted_pair b a
unfolding sorted_pair
sorted_pair_comm a b =
    sorted_by a b (compare a b) (compare b a) (flipped-compare a b) (equal_of_compare a b)

-- Both ends of a private channel listen to and publish on one subject.
pub same_subject :
    (channel_id client_id target : String)
    → private_subject channel_id client_id target ≡ private_subject channel_id target client_id
unfolding private_subject
same_subject channel_id client_id target = rw (sorted_pair_comm client_id target) refl
