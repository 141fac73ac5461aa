-- ===== src/Handler/Pull/Lifetime.antt =====
-- What a pull session sends over its whole life, and when it ends.
use camera_ui_rpc.Base.{
  ℕ, suc, ◌+◌, ◌≡◌, refl, sym, ap, ◌∙◌, Bool, true, false, Option, none, some, List, [], ◌∷◌, ◌++◌,
  map, length-append, map-append, arith, if◌then◌else◌,
}
use mathlib.Core.List.{append_assoc, append-nil}
use camera_ui_rpc.Codec.Values.{Value}
use camera_ui_rpc.Handler.Generators.{Raised, Produced, yielded, raised, Generator}
use camera_ui_rpc.Handler.Pull.{
  PullRequest, next_request, cancel_request, other_request, value_response, Session, start_session,
  sent_with, fail_session, or_fail, end_session, cancel_session, send_value, next_value, serve,
  handle_pull_request, cleanup,
}
use camera_ui_rpc.Handler.Streams.Delivery.{values_of}
use camera_ui_rpc.Handler.Pull.Progress.{
  Event, requested, cleaned_up, step, run, one_next, count_next, Progress, Ended, end-Progress,
}
use camera_ui_rpc.Handler.Pull.Endings.{fail_session-Ended, end_session-Ended, cancel_session-Ended}

module _ (publish : ℕ → Option Raised) where
  -- a value that could be published
  told_one :
      (values : List Value) (asked : ℕ) (s : Session) (value : Value) (produced : List Produced)
      → s.active ≡ true
      → s.produced ≡ yielded value ∷ produced
      → Progress values asked s
      → Progress values
          (1 + asked)
          (sent_with (record s { produced = produced }) (value_response value) none)
  told_one values asked s value produced active still p =
      let left : p.rest ≡ value ∷ values_of produced = (p.live active).1 ∙ ap values_of still in
      record {
        told = p.told ++ value ∷ [];
        rest = values_of produced;
        tail = [];
        split =
            p.split
            ∙ ap (λ r. p.told ++ r) left
            ∙ sym (append_assoc p.told (value ∷ []) (values_of produced));
        responses = told_responses;
        ends = tt;
        demanded = omega (arith, p.demanded, length-append p.told (value ∷ []));
        live = λ a. (refl, refl);
        closed = p.closed;
        owner_told = p.owner_told;
      }
    where
      told_responses :
          s.sent ++ value_response value ∷ [] ≡ map value_response (p.told ++ value ∷ []) ++ []
      told_responses =
          ap (λ r. r ++ value_response value ∷ [])
            (p.responses
              ∙ ap (λ t. map value_response p.told ++ t) (p.live active).0
              ∙ append-nil (map value_response p.told))
          ∙ sym (map-append value_response p.told (value ∷ []))
          ∙ sym (append-nil (map value_response (p.told ++ value ∷ [])))

  send_value-Progress :
      (values : List Value) (asked : ℕ) (s : Session) (value : Value) (produced : List Produced)
      → s.active ≡ true
      → s.finished ≡ false
      → s.produced ≡ yielded value ∷ produced
      → Progress values asked s
      → Progress values (1 + asked) (send_value publish value (record s { produced = produced }))
  send_value-Progress values asked s value produced active open_yet still p =
      sending (publish s.publishings)
    where
      failed_at :
          (e : Raised)
          → Ended s (
              fail_session publish e
                (record s { produced = produced; publishings = suc s.publishings }))
      failed_at e =
          let x =
            fail_session-Ended publish e
              (record s { produced = produced; publishings = suc s.publishings }) open_yet in
          record {
            tail = x.tail;
            ends = x.ends;
            responses = x.responses;
            inactive = x.inactive;
            closed = x.closed;
            owner_told = x.owner_told;
          }

      sending :
          (o : Option Raised)
          → Progress values (1 + asked) (
              or_fail publish o
                (sent_with (record s { produced = produced }) (value_response value) o))
      sending none = told_one values asked s value produced active still p
      sending (some e) =
          end-Progress values asked 1 s
            (fail_session publish e
              (record s { produced = produced; publishings = suc s.publishings }))
            active p (failed_at e)

  next_value-Progress :
      (values : List Value) (asked : ℕ) (s : Session) (produced : List Produced)
      → s.active ≡ true
      → s.finished ≡ false
      → s.produced ≡ produced
      → Progress values asked s
      → Progress values (1 + asked) (next_value publish produced s)
  next_value-Progress values asked s [] active open_yet still p =
      end-Progress values asked 1 s (end_session publish s) active p
        (end_session-Ended publish s open_yet)
  next_value-Progress values asked s (raised e ∷ produced) active open_yet still p =
      end-Progress values asked 1 s (fail_session publish e s) active p
        (fail_session-Ended publish e s open_yet)
  next_value-Progress values asked s (yielded value ∷ produced) active open_yet still p =
      send_value-Progress values asked s value produced active open_yet still p

  serve-Progress :
      (values : List Value) (asked : ℕ) (request : PullRequest) (s : Session)
      → s.active ≡ true
      → Progress values asked s
      → Progress values (one_next (requested request) + asked) (serve publish request s)
  serve-Progress values asked next_request s active p =
      next_value-Progress values asked s s.produced active (ground (arith, p.closed, active)) refl p
  serve-Progress values asked cancel_request s active p =
      end-Progress values asked 0 s (cancel_session publish s.closing s) active p
        (cancel_session-Ended publish s.closing s (ground (arith, p.closed, active)))
  serve-Progress values asked other_request s active p =
      let same : 0 + asked ≡ asked = omega arith in rw same p

  cleanup-Progress :
      (values : List Value) (asked : ℕ) (s : Session)
      → Progress values asked s
      → Progress values (0 + asked) (cleanup s)
  unfolding cleanup
  cleanup-Progress values asked s p = record {
    told = p.told;
    rest = p.rest;
    tail = p.tail;
    split = p.split;
    responses = p.responses;
    ends = p.ends;
    demanded = omega (arith, p.demanded);
    live = λ a. cc a;
    closed = refl;
    owner_told = ground (arith, p.owner_told);
  }

  step-Progress :
      (values : List Value) (asked : ℕ) (e : Event) (s : Session)
      → Progress values asked s
      → Progress values (one_next e + asked) (step publish e s)
  unfolding step
  step-Progress values asked cleaned_up s p = cleanup-Progress values asked s p
  step-Progress values asked (requested request) s p =
      unfold handle_pull_request in served s.active refl
    where
      served :
          (b : Bool)
          → s.active ≡ b
          → Progress values
              (one_next (requested request) + asked)
              (if b then serve publish request s else s)
      served true up = serve-Progress values asked request s up p
      served false down = record {
        told = p.told;
        rest = p.rest;
        tail = p.tail;
        split = p.split;
        responses = p.responses;
        ends = p.ends;
        demanded = omega (arith, p.demanded);
        live = p.live;
        closed = p.closed;
        owner_told = p.owner_told;
      }

  run-Progress :
      (values : List Value) (asked : ℕ) (es : List Event) (s : Session)
      → Progress values asked s
      → Progress values (count_next es + asked) (run publish es s)
  unfolding run
  run-Progress values asked [] s p = let same : 0 + asked ≡ asked = omega arith in rw same p
  run-Progress values asked (e ∷ es) s p =
      let moved : one_next e + count_next es + asked ≡ count_next es + (one_next e + asked) =
        omega arith in
      rw moved (
        run-Progress values (one_next e + asked) es (step publish e s)
          (step-Progress values asked e s p))

  -- Over the life of a pull session, whatever is requested, cleaned up or refused by the
  -- connection: the values of the generator are sent in order, no more of them than were asked
  -- for, and then at most one response that ends the iteration, with nothing sent behind it; the
  -- session is finished exactly when it is inactive, and its owner is told at most once.
  pub pull_session :
      (g : Generator) (es : List Event)
      → Progress (values_of g.produced) (count_next es) (run publish es (start_session g))
  unfolding start_session
  pull_session g es =
      let start : Progress (values_of g.produced) 0 (start_session g) = record {
        told = [];
        rest = values_of g.produced;
        tail = [];
        split = refl;
        responses = refl;
        ends = tt;
        demanded = omega arith;
        live = λ a. (refl, refl);
        closed = refl;
        owner_told = omega arith;
      } in
      let same : count_next es ≡ count_next es + 0 = omega arith in
      rw same (run-Progress (values_of g.produced) 0 es (start_session g) start)
