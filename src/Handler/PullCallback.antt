-- ===== src/Handler/PullCallback.antt =====
-- The session of `handle_pull_callback_request` of handler.py and its `CallbackInvoker`. It is a
-- pull session whose value responses carry no value, with an invoker that ends with it.
pub mod Inert
use camera_ui_rpc.Base.{
  ℕ, Bool, true, false, String, Option, none, some, List, [], ◌∷◌, ◌==◌, String_eq, if◌then◌else◌,
}
use camera_ui_rpc.Base.Dict.{contains}
use camera_ui_rpc.Codec.Values.{Value, null}
use camera_ui_rpc.Handler.Generators.{
  Raised, Produced, yielded, raised, Generator, Handler, Got, generator, failed, get_generator,
}
use camera_ui_rpc.Handler.Pull.{
  Session, start_session, PullRequest, next_request, cancel_request, other_request, send_value,
  end_session, fail_session, cancel_session, cleanup,
}

pub record CallbackInvoker : Type 0 where
  pub oneway : List String
  pub active : Bool

pub record CallbackInvocation : Type 0 where
  pub method : String
  pub args : List Value

-- `invoke`; `connected` is what the client says
unfoldable pub invoke : Bool → String → List Value → CallbackInvoker → List CallbackInvocation
invoke connected method args invoker =
    if invoker.active
    then (if contains method invoker.oneway
        then (if connected then record { method = method; args = args } ∷ [] else [])
        else [])
    else []

pub record CallbackSession : Type 0 where
  pub session : Session
  pub invoker : CallbackInvoker

unfoldable pub start_callback_session : List String → Generator → CallbackSession
unfolding start_session
start_callback_session oneway g = record {
  session = start_session g;
  invoker = record { oneway = oneway; active = true };
}

-- a session that has ended takes its invoker with it
abbrev pub ended_with : Session → CallbackSession → CallbackSession
ended_with s c = record { session = s; invoker = record c.invoker { active = false } }

-- the batch boundary; when its publishing raises, the session fails
abbrev pub boundary : Option Raised → Session → CallbackSession → CallbackSession
boundary none s c = record c { session = s }
boundary (some e) s c = ended_with s c

module _ (publish : ℕ → Option Raised) where
  abbrev pub next_batch : List Produced → CallbackSession → CallbackSession
  next_batch [] c = ended_with (end_session publish c.session) c
  next_batch (raised e ∷ produced) c = ended_with (fail_session publish e c.session) c
  next_batch (yielded value ∷ produced) c =
      boundary (publish c.session.publishings)
        (send_value publish null (record c.session { produced = produced })) c

  abbrev pub serve_callback : PullRequest → CallbackSession → CallbackSession
  serve_callback cancel_request c =
      ended_with (cancel_session publish c.session.closing c.session) c
  serve_callback next_request c = next_batch c.session.produced c
  serve_callback other_request c = c

  unfoldable pub handle_callback_pull : PullRequest → CallbackSession → CallbackSession
  unfolding end_session fail_session
  handle_callback_pull request c = if c.session.active then serve_callback request c else c

unfoldable pub cleanup_callback : CallbackSession → CallbackSession
unfolding cleanup
cleanup_callback c = ended_with (cleanup c.session) c

-- what a request for a pull iterator with callbacks comes to
pub data CallbackOpened : Type 0 where
  callbacks_opened : CallbackSession → CallbackOpened
  callbacks_refused : Raised → CallbackOpened

abbrev pub callbacks_opened_with : List String → Got → CallbackOpened
callbacks_opened_with oneway (generator g) = callbacks_opened (start_callback_session oneway g)
callbacks_opened_with oneway (failed e) = callbacks_refused e

unfoldable pub handle_pull_callback_request : List String → Handler → CallbackOpened
unfolding get_generator start_callback_session
handle_pull_callback_request oneway handler =
    callbacks_opened_with oneway
      (get_generator "Handler must return a generator for pull-callback iterator" handler)
