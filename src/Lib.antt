-- ===== src/Lib.antt =====
-- A verification library for the Python runtime of camera.ui-rpc (python/camera_ui_rpc), an RPC
-- library over NATS.
--
-- The program. A client (client.py) publishes requests and waits for their answers, which arrive on
-- one wildcard inbox and are routed to the waiting calls by id. Messages are encoded by codec.py:
-- MessagePack, with large binaries moved behind the envelope. A message that exceeds the payload
-- limit of the server is cut into chunks by chunking.py and put together again by the receiver.
-- Failures travel as dictionaries (errors.py). A responder (handler.py) answers calls, streams and
-- pull iterators. A service (service.py) offers its methods as endpoints of a NATS micro service,
-- and a proxy (utils.py) turns the call of an attribute into a call of the client.
--
-- The files.
-- - Base: what the modules share. Base/Result is Python exceptions as values, Base/Dict Python's
--   dict as an association list in insertion order, Base/Lists byte strings and their slices,
--   Base/Sets sets of chunk indices, Base/Tests Boolean tests.
-- - Chunking (chunking.py): Chunks is create_chunks, Assembler is ChunkAssembler with both of its
--   storage paths, Manager is ChunkingManager with its pool, time-outs and callbacks. Cutting,
--   Storage, Fallback, Complete and Reassembly are about chunks and assemblers, the modules below
--   Manager about its histories.
-- - Codec (codec.py): Values is what a message is made of, Extract the extraction of large binaries,
--   Restore the sequential restore pass, Remaining the fallback for segments out of order, Frame
--   the functions encode_message and decode_message. Received is the reference: what a receiver
--   is to get. Extracted, Shape, Segments, Sequential and Unframed lead to RoundTrip. Fields is the
--   truth and the fields of values.
-- - Errors (errors.py): RPCException and its form on the wire.
-- - Client (client.py): Retry is _with_no_responder_retry; Calls is the state machine of the
--   waiting calls, that is start and publishing in _call_once, its timer, _handle_mux_message for
--   no-responder statuses, _route_mux_response and _cleanup_pending_requests. Calls/Steps makes
--   these the events of a history. Publish is publish with its chunking. Dispatch is the other end
--   of it: the message_handler of subscribe and _handle_mux_message, which put chunked messages
--   together with the chunking manager; Dispatch/Received and Dispatch/InOrder feed it a transfer.
--   Requests is _request_once and the responder of on_request, which use NATS requests.
--   Handlers is handle_message of register_handler: Handlers/Answers is about its answers,
--   Handlers/RoundTrip joins it with the waiting call.
-- - Client, continued: Subscriptions is connecting, suspending, disconnecting, subscribing and
--   unsubscribing with the restoring of subscriptions between them. Subscriptions/Registry is the
--   abstract specification, a bare registry, which Subscriptions/Refines relates to the code by
--   way of Serving, Restored and Dropped; Subscriptions/Races is about overlapping operations.
-- - Client, continued: Streams is the consumer of _call_stream_once; Streams/Rounds has the events
--   of a consumer, Streams/Consumed what it gets of a stream, and Streams/Drained that it returns.
--   Streams/Retries is call_stream, which tries again.
--   ServiceCalls is _call_once_service, the call of a service with its own subscriptions, as the
--   events of one call; its modules Tidy, CleanedUp and Leaked are about what it leaves behind.
--   PullConsumer is the consumer of call_pull_iterator; PullConsumer/Joined connects it with the
--   session of Handler/Pull.
-- - Handler (handler.py): Generators is how a handler becomes a generator and how exceptions are
--   formatted, Streams the loop of handle_stream_request, Pull the session of
--   handle_pull_iterator_request, PullCallback that of handle_pull_callback_request with its
--   CallbackInvoker; Pull/Progress has the events of a session.
--   Callbacks is handle_callback_request.
-- - Channel (channel.py): Channel with its registries and its closing; Private is the subject and
--   the incoming messages of PrivateChannel.
-- - Service (service.py): Endpoint is what register_handler makes of a method: endpoint_handler with
--   chunked requests, and handle_rpc_message; Endpoint/Answers is about its replies
--   (Endpoint/Asked: when a stream is asked for), and
--   Endpoint/RoundTrip joins it with Client/ServiceCalls. Lifecycle is RPCService from init to
--   stop_all, Monitor the discovery of ServiceMonitor.
-- - Decorators (decorators.py): objects by number in a heap, their marks, and what becomes of each
--   attribute; Extracted is extract_nested_methods_with_decorators. Terminates and Exposed are about
--   it, the latter by way of Marked, Shown and Allowed, where Shown is the reference.
-- - Utils (utils.py): Ids is generate_reply_prefix, Proxies is create_proxy and rpc_callbacks.
--   Proxies/Discovery joins a proxy's call with Client/Handlers and Client/Calls.
-- - Tests modules apply the theorems to concrete inputs.
--
-- Conventions. State is passed explicitly: an operation takes the state of its object and returns
-- the next one, together with the callbacks that it calls or the messages that it publishes.
-- Whatever the source does between two suspension points of the event loop is one step, and an
-- interleaving is a list of events. A raised exception is an err of Base/Result. Numbers are
-- unbounded naturals, as Python's are; the length field of a frame is the one machine word, and its
-- bound of 2^32 is written out. Time is an argument, in milliseconds. Loops are structural: the
-- chunk loops recur on the number of chunks and the retry loop on the number of rounds, which is
-- one more than max_retries, so that no fuel is needed; the loop of generate_reply_prefix has ten
-- rounds of fuel, which suffice for 48 bits since 2^48 < 36^10, and the extraction of methods has
-- one more than the number of objects, since it enters each object once.
--
-- Parameters. ormsgpack is third-party code: Codec/RoundTrip states what is relied on in the record
-- MsgPack (unpacking gives back what was packed, with dates and times as texts; a packed message that
-- starts with a byte below 128 is that byte; objects of classes of one's own are refused). Whether a buffer can be allocated is a function of its size. The decoder
-- that a chunked transfer ends in is a parameter of the chunking manager. What a user's handler does,
-- whether a response can be published, and what NATS makes of a request or a service are arguments
-- of the operations that depend on them; so is Python's text of a value that is no text.
--
-- Not modelled: the NATS connection itself with TLS and authentication, the executor, logging, the
-- runtimes in Go, Node.js and Swift, examples and scripts. Of the Python runtime,
-- call_with_callback, the consumer of a pull iterator with callbacks, service proxies,
-- and the groups of a service's endpoints are not modelled, nor is how the decorators set their
-- marks.
pub mod Base
pub mod Channel
pub mod Chunking
pub mod Client
pub mod Codec
pub mod Decorators
pub mod Errors
pub mod Handler
pub mod Service
pub mod Utils
