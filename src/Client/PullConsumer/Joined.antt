-- ===== src/Client/PullConsumer/Joined.antt =====
-- A consumer of client.py and a pull session of handler.py, joined by a connection that delivers
-- every request and every response in order.
pub mod Delivered
pub mod Tests
use camera_ui_rpc.Base.{ℕ, zero, suc, true, Option, none, some, List, [], ◌∷◌, ◌++◌}
use camera_ui_rpc.Handler.Generators.{Raised, Generator}
use camera_ui_rpc.Handler.Pull.{
  PullRequest, PullResponse, Session, start_session, handle_pull_request,
}
use camera_ui_rpc.Client.PullConsumer.{Consumer, new_consumer, ask, handle_response, take, leave}

pub record Joined : Type 0 where
  pub consumer : Consumer
  pub session : Session

abbrev pub start : Generator → Joined
start g = record { consumer = new_consumer; session = start_session g }

unfoldable pub deliver_responses : List PullResponse → Consumer → Consumer
unfolding handle_response
deliver_responses [] c = c
deliver_responses (response ∷ responses) c =
    deliver_responses responses (handle_response response c)

-- The session serves the requests that the consumer has published, and forgets them; the consumer
-- is handed what the session sends for them.
unfoldable pub serve_requests : List PullRequest → Session → Session
unfolding handle_pull_request
serve_requests [] s = s
serve_requests (request ∷ requests) s =
    serve_requests requests (handle_pull_request (λ i. none) request s)

unfoldable pub exchange : Joined → Joined
unfolding deliver_responses serve_requests
exchange j =
    let s = serve_requests j.consumer.requests j.session in
    record {
      consumer = deliver_responses s.sent (record j.consumer { requests = [] });
      session = record s { sent = [] };
    }

abbrev pub asked : Joined → Joined
asked j = record j { consumer = ask true j.consumer }

abbrev pub took : Joined → Joined
took j = record j { consumer = take j.consumer }

-- one round of the consumer's loop
unfoldable pub round : Joined → Joined
unfolding exchange ask take
round j = took (exchange (asked j))

unfoldable pub rounds : ℕ → Joined → Joined
rounds zero j = j
rounds (suc n) j = rounds n (round j)

-- the consumer leaves its loop
unfoldable pub break_off : Joined → Joined
unfolding exchange leave
break_off j = exchange (record j { consumer = leave j.consumer })
