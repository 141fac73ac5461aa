-- ===== src/Client/Calls.antt =====
-- The calls of a client that wait for an answer, and the muxed reply inbox of client.py. A call's
-- future is named by the call's id; `futures` has those that are done. Dispatching is one step:
-- everything here runs on the event loop without a suspension point.
pub mod Steps
pub mod Settled
pub mod NotLost
pub mod Answered
pub mod Unreadable
pub mod Gone
use camera_ui_rpc.Base.{ℕ, String, Option, none, some, [], ◌∷◌, ◌==◌, String_eq, if◌then◌else◌}
use camera_ui_rpc.Base.Result.{Result, ok, err}
use camera_ui_rpc.Base.Dict.{Dict, lookup, insert, erase}
use camera_ui_rpc.Codec.Values.{
  Value, null, str, dict, Fields, no_fields, field, text_key, is_text_key, field_of,
}
use camera_ui_rpc.Codec.Fields.{set_field}
use camera_ui_rpc.Errors.{RpcException, from_dict}

-- the exception that a future is given
pub data CallError : Type 0 where
  remote : RpcException → CallError
  timed_out no_responders : String → CallError
  connection_closed cancelled : CallError

pub data Outcome : Type 0 where
  result : Value → Outcome
  exception : CallError → Outcome

pub record Calls : Type 0 where
  -- by id, with the subject of the call
  pub pending_requests : Dict String String
  -- the timeout handles that are scheduled, with the subject for their message
  pub timers : Dict String String
  pub futures : Dict String Outcome
  -- by reply suffix, with a number for the handler
  pub status_handlers : Dict String ℕ

abbrev pub new_calls : Calls
new_calls = record { pending_requests = []; timers = []; futures = []; status_handlers = [] }

-- `if not future.done(): future.set_…(…)`
abbrev pub settle_if : String → Outcome → Dict String Outcome → Option Outcome → Dict String Outcome
settle_if id outcome futures none = insert id outcome futures
settle_if id outcome futures (some done) = futures

unfoldable pub settle : String → Outcome → Dict String Outcome → Dict String Outcome
settle id outcome futures = settle_if id outcome futures (lookup id futures)

-- `_call_once` up to the publishing of the request
unfoldable pub start_call : String → String → Calls → Calls
start_call id subject s = record s {
  pending_requests = insert id subject s.pending_requests;
  timers = insert id subject s.timers;
}

-- the request could not be published; the exception goes to the caller, who never awaits
abbrev pub publish_failed_pending : String → Calls → Option String → Calls
publish_failed_pending id s none = s
publish_failed_pending id s (some subject) = record s {
  pending_requests = erase id s.pending_requests;
  timers = erase id s.timers;
}

unfoldable pub publish_failed : String → Calls → Calls
publish_failed id s = publish_failed_pending id s (lookup id s.pending_requests)

-- `handle_timeout`, run by the timer, which is used up
abbrev pub fire_pending : String → String → Calls → Option String → Calls
fire_pending id subject s none = record s { timers = erase id s.timers }
fire_pending id subject s (some _) = record s {
  pending_requests = erase id s.pending_requests;
  timers = erase id s.timers;
  futures = settle id (exception (timed_out subject)) s.futures;
}

abbrev pub fire_timer : String → Calls → Option String → Calls
fire_timer id s none = s
fire_timer id s (some subject) = fire_pending id subject s (lookup id s.pending_requests)

unfoldable pub handle_timeout : String → Calls → Calls
unfolding settle
handle_timeout id s = fire_timer id s (lookup id s.timers)

-- the waiting task is cancelled: its future is done, the entry and the timer stay
unfoldable pub cancel_call : String → Calls → Calls
unfolding settle
cancel_call id s = record s { futures = settle id (exception cancelled) s.futures }

-- a pending request is popped and its timer cancelled
unfoldable pub take_pending : String → Calls → Calls
take_pending id s = record s {
  pending_requests = erase id s.pending_requests;
  timers = erase id s.timers;
}

unfoldable pub settle_call : String → Outcome → Calls → Calls
unfolding settle
settle_call id outcome s = record s { futures = settle id outcome s.futures }

-- the no-responder status on the reply subject with this suffix; the second component is the
-- status handler that is called
abbrev pub status_for_pending : String → Calls → Option String → Calls
status_for_pending suffix s none = s
status_for_pending suffix s (some subject) =
    settle_call suffix (exception (no_responders (if subject == "" then suffix else subject)))
      (take_pending suffix s)

abbrev pub status_for : String → Calls → Option ℕ → Calls × Option ℕ
status_for suffix s (some handler) =
    (record s { status_handlers = erase suffix s.status_handlers }, some handler)
status_for suffix s none = (status_for_pending suffix s (lookup suffix s.pending_requests), none)

unfoldable pub handle_no_responders : String → Calls → Calls × Option ℕ
unfolding take_pending settle_call
handle_no_responders suffix s = status_for suffix s (lookup suffix s.status_handlers)

abbrev pub with_methods : Option Value → Value → Value
with_methods (some methods) (dict fs) = dict (set_field "__methods" methods fs)
with_methods (some methods) value = value
with_methods none value = value

abbrev pub result_of : Option Value → Value
result_of none = null
result_of (some value) = value

-- `future.set_result(…)` and `future.set_exception(…)` with no test of their own: they write. Of a
-- future that is done asyncio would raise; `if_waiting` keeps them from it.
unfoldable pub set_future : String → Outcome → Calls → Calls
set_future id outcome s = record s { futures = insert id outcome s.futures }

-- The error of a response may be malformed: reading it raises, out of the handler.
abbrev pub settle_remote : String → Result RpcException → Calls → Calls
settle_remote id (ok e) s = set_future id (exception (remote e)) s
settle_remote id (err raised) s = s

abbrev pub settle_response : String → Fields → Option Value → Calls → Calls
settle_response id fs (some error) s = settle_remote id (from_dict error) s
settle_response id fs none s =
    set_future id
      (result (with_methods (field_of "__methods" fs) (result_of (field_of "result" fs)))) s

-- `if future is None or future.done(): return`
abbrev pub if_waiting : Option Outcome → Calls → Calls → Calls
if_waiting none waiting done = waiting
if_waiting (some _) waiting done = done

abbrev pub route_pending : String → Fields → Calls → Option String → Calls
route_pending id fs s none = s
route_pending id fs s (some subject) =
    let s' = take_pending id s in
    if_waiting (lookup id s'.futures) (settle_response id fs (field_of "error" fs) s') s'

-- An id that is no text, or the empty one, belongs to no request.
abbrev pub route_id : Fields → Calls → Option Value → Calls
route_id fs s (some (str id)) =
    if id == "" then s else route_pending id fs s (lookup id s.pending_requests)
route_id fs s (some other) = s
route_id fs s none = s

unfoldable pub route_mux_response : Value → Calls → Calls
unfolding take_pending set_future from_dict set_field field_of
route_mux_response (dict fs) s = route_id fs s (field_of "id" fs)
route_mux_response value s = s

-- `_cleanup_pending_requests`, on disconnect and suspend
unfoldable pub settle_all : Dict String String → Dict String Outcome → Dict String Outcome
unfolding settle
settle_all [] futures = futures
settle_all ((id, subject) ∷ rest) futures =
    settle_all rest (settle id (exception connection_closed) futures)

unfoldable pub erase_all : Dict String String → Dict String String → Dict String String
erase_all [] timers = timers
erase_all ((id, subject) ∷ rest) timers = erase_all rest (erase id timers)

unfoldable pub cleanup_pending_requests : Calls → Calls
unfolding settle_all erase_all
cleanup_pending_requests s = record s {
  pending_requests = [];
  timers = erase_all s.pending_requests s.timers;
  futures = settle_all s.pending_requests s.futures;
}
