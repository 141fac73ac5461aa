-- ===== src/Handler/Pull.antt =====
-- The session of `handle_pull_iterator_request` of handler.py. A request is served in one step: a
-- subscription hands over its messages one after the other. `publish i` is the exception that the
-- publishing with this number raises, if any. The owner's `on_finished` and the scheduled
-- unsubscribing are counted.
pub mod Progress
pub mod Endings
pub mod Lifetime
use camera_ui_rpc.Base.{
  ℕ, suc, Bool, true, false, Option, none, some, List, [], ◌∷◌, ◌++◌, if◌then◌else◌,
}
use camera_ui_rpc.Codec.Values.{Value}
use camera_ui_rpc.Handler.Generators.{
  Raised, Produced, yielded, raised, Generator, Closing, no_aclose, closes, close_raises,
  format_error_dict, Handler, Got, generator, failed, get_generator,
}

pub data PullRequest : Type 0 where
  next_request cancel_request other_request : PullRequest

pub data PullResponse : Type 0 where
  value_response : Value → PullResponse
  done_response : PullResponse
  error_response : Value → PullResponse

pub record Session : Type 0 where
  pub active : Bool
  pub finished : Bool
  -- what the generator still produces
  pub produced : List Produced
  pub closing : Closing
  pub publishings : ℕ
  pub sent : List PullResponse
  pub finished_calls : ℕ
  pub unsubscribes : ℕ

unfoldable pub start_session : Generator → Session
start_session g = record {
  active = true;
  finished = false;
  produced = g.produced;
  closing = g.closing;
  publishings = 0;
  sent = [];
  finished_calls = 0;
  unsubscribes = 0;
}

unfoldable pub finish : Session → Session
finish s = if s.finished then s else record s {
  finished = true;
  active = false;
  finished_calls = suc s.finished_calls;
  unsubscribes = suc s.unsubscribes;
}

-- what is sent when the publishing ends like this
abbrev pub sent_with : Session → PullResponse → Option Raised → Session
sent_with s response none = record s {
  publishings = suc s.publishings;
  sent = s.sent ++ response ∷ [];
}
sent_with s response (some e) = record s { publishings = suc s.publishings }

module _ (publish : ℕ → Option Raised) where
  -- `client.publish(response_subject, response)`
  abbrev pub publish_response : PullResponse → Session → Session
  publish_response response s = sent_with s response (publish s.publishings)

  -- the outer `except` branch
  unfoldable pub fail_session : Raised → Session → Session
  unfolding finish format_error_dict
  fail_session e s = finish (
      publish_response (error_response (format_error_dict e))
        (record s { active = false; produced = [] }))

  -- a publishing that has raised reaches the `except` branch
  abbrev pub or_fail : Option Raised → Session → Session
  or_fail none s = s
  or_fail (some e) s = fail_session e s

  -- the done response, with `finish` in its `finally`
  unfoldable pub end_session : Session → Session
  unfolding finish fail_session
  end_session s =
      let s' = record s { active = false; produced = [] } in
      or_fail (publish s'.publishings) (finish (publish_response done_response s'))

  abbrev pub cancel_session : Closing → Session → Session
  cancel_session no_aclose s = end_session s
  cancel_session closes s = end_session s
  cancel_session (close_raises e) s = fail_session e s

  abbrev pub send_value : Value → Session → Session
  send_value value s = or_fail (publish s.publishings) (publish_response (value_response value) s)

  -- `generator.__anext__()` and what follows
  abbrev pub next_value : List Produced → Session → Session
  next_value [] s = end_session s
  next_value (raised e ∷ produced) s = fail_session e s
  next_value (yielded value ∷ produced) s = send_value value (record s { produced = produced })

  abbrev pub serve : PullRequest → Session → Session
  serve cancel_request s = cancel_session s.closing s
  serve next_request s = next_value s.produced s
  serve other_request s = s

  unfoldable pub handle_pull_request : PullRequest → Session → Session
  unfolding end_session fail_session
  handle_pull_request request s = if s.active then serve request s else s

-- `cleanup`, which the owner calls when its connection goes away
unfoldable pub cleanup : Session → Session
cleanup s = record s {
  active = false;
  finished = true;
  produced = [];
  unsubscribes = suc s.unsubscribes;
}

-- what a request for a pull iterator comes to: a session, or an exception for the caller
pub data Opened : Type 0 where
  opened : Session → Opened
  refused : Raised → Opened

abbrev pub opened_with : Got → Opened
opened_with (generator g) = opened (start_session g)
opened_with (failed e) = refused e

unfoldable pub handle_pull_iterator_request : Handler → Opened
unfolding get_generator start_session
handle_pull_iterator_request handler =
    opened_with (get_generator "Handler must return a generator for pull iterator" handler)
