-- ===== src/Client.antt =====
-- client.py: the calls of a client, the inbox that their answers arrive in, and retries.
pub mod Retry
pub mod Requests
pub mod ServiceCalls
pub mod Calls
pub mod Publish
pub mod Streams
pub mod Subscriptions
pub mod Dispatch
pub mod Handlers
pub mod PullConsumer
pub mod Tests
