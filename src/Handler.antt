-- ===== src/Handler.antt =====
-- handler.py: how a responder serves streams and pull iterators.
pub mod Generators
pub mod Streams
pub mod Pull
pub mod PullCallback
pub mod Callbacks
pub mod Tests
