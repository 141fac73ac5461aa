-- ===== src/Client/PullConsumer.antt =====
-- The consumer of a pull iterator: RPCClient.call_pull_iterator of client.py behind its
-- initialisation. `publishes` is whether a request can be published; requests are kept in `requests`.
pub mod Joined
use camera_ui_rpc.Base.{
  ℕ, Bool, true, false, String, Option, none, some, List, [], ◌∷◌, ◌++◌, if◌then◌else◌,
}
use camera_ui_rpc.Base.Result.{Error, Result, ok, err}
use camera_ui_rpc.Codec.Values.{Value, null, str}
use camera_ui_rpc.Codec.Fields.{truthy}
use camera_ui_rpc.Errors.{RpcException, to_dict, from_dict}
use camera_ui_rpc.Handler.Pull.{
  PullRequest, next_request, cancel_request, PullResponse, value_response, done_response,
  error_response,
}

-- how the generator has ended
pub data Ending : Type 0 where
  finished left publishing_failed : Ending
  failed : RpcException → Ending
  -- an error that from_dict cannot read
  unreadable : Error → Ending

pub data Phase : Type 0 where
  -- at a `yield` or before the first one, or in `response_queue.get()`
  ready waiting : Phase
  over : Ending → Phase

pub record Consumer : Type 0 where
  pub phase : Phase
  pub response_queue : List PullResponse
  pub ended : Bool
  pub error : Option RpcException
  -- in `_pull_iterator_settles`, in `status_handlers`, and subscribed to the responses
  pub settling : Bool
  pub status_handling : Bool
  pub subscribed : Bool
  pub requests : List PullRequest
  pub got : List Value

abbrev pub new_consumer : Consumer
new_consumer = record {
  phase = ready;
  response_queue = [];
  ended = false;
  error = none;
  settling = true;
  status_handling = true;
  subscribed = true;
  requests = [];
  got = [];
}

abbrev pub put : PullResponse → Consumer → Consumer
put response c = record c { response_queue = c.response_queue ++ response ∷ [] }

abbrev pub error_read : Value → Consumer → Result RpcException → Consumer
error_read error c (err e) = c
error_read error c (ok e) = put (error_response error) (record c { ended = true; error = some e })

abbrev pub handle_open : PullResponse → Consumer → Consumer
handle_open (error_response error) c =
    if truthy error
    then error_read error c (from_dict error)
    else put (error_response error) (record c { ended = true })
handle_open done_response c = put done_response (record c { ended = true })
handle_open (value_response value) c = put (value_response value) c

unfoldable pub handle_response : PullResponse → Consumer → Consumer
unfolding from_dict
handle_response response c = if c.subscribed then handle_open response c else c

abbrev pub closed_error : RpcException
closed_error = record {
  code = str "CONNECTION_CLOSED";
  message = str "Connection closed";
  payload = null;
}

abbrev pub or_closed : Option RpcException → RpcException
or_closed none = closed_error
or_closed (some e) = e

unfoldable pub settle_on_disconnect : Consumer → Consumer
unfolding to_dict
settle_on_disconnect c =
    if c.settling
    then (let e = if c.ended then or_closed c.error else closed_error in
        put (error_response (to_dict e))
          (record c { ended = true; error = some e; settling = false }))
    else c

-- `text` is that of the NoRespondersError
unfoldable pub on_no_responders : String → Consumer → Consumer
unfolding to_dict
on_no_responders text c =
    if c.status_handling
    then (let e : RpcException = record { code = str "503"; message = str text; payload = null } in
        put (error_response (to_dict e))
          (record c { ended = true; error = some e; status_handling = false }))
    else c

-- the `finally` block, with the ending that it runs for
abbrev pub clean_up : Ending → Consumer → Consumer
clean_up ending c = record c {
  phase = over ending;
  settling = false;
  status_handling = false;
  subscribed = false;
  requests = if c.ended then c.requests else c.requests ++ cancel_request ∷ [];
}

abbrev pub ask_ready : Bool → Phase → Consumer → Consumer
ask_ready publishes ready c =
    if publishes
    then record c { phase = waiting; requests = c.requests ++ next_request ∷ [] }
    else clean_up publishing_failed c
ask_ready publishes phase c = c

-- the consumer asks for the next value
unfoldable pub ask : Bool → Consumer → Consumer
ask publishes c = ask_ready publishes c.phase c

abbrev pub raise_read : Consumer → Result RpcException → Consumer
raise_read c (ok e) = clean_up (failed e) c
raise_read c (err e) = clean_up (unreadable e) c

-- An error without contents starts the next round.
abbrev pub take_response : List PullResponse → Consumer → Consumer
take_response [] c = c
take_response (value_response value ∷ queue) c = record c {
  phase = ready;
  response_queue = queue;
  got = c.got ++ value ∷ [];
}
take_response (done_response ∷ queue) c = clean_up finished (record c { response_queue = queue })
take_response (error_response error ∷ queue) c =
    let c' = record c { response_queue = queue } in
    if truthy error then raise_read c' (from_dict error) else record c' { phase = ready }

abbrev pub take_waiting : Phase → Consumer → Consumer
take_waiting waiting c = take_response c.response_queue c
take_waiting phase c = c

-- the consumer gets a response, if one is there
unfoldable pub take : Consumer → Consumer
unfolding from_dict
take c = take_waiting c.phase c

abbrev pub leave_ready : Phase → Consumer → Consumer
leave_ready ready c = clean_up left c
leave_ready phase c = c

-- the consumer leaves its loop at a value
unfoldable pub leave : Consumer → Consumer
leave c = leave_ready c.phase c
