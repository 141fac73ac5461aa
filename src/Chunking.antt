-- ===== src/Chunking.antt =====
-- python/camera_ui_rpc/chunking.py: large messages are cut into chunks and put together again.
pub mod Chunks
pub mod Assembler
pub mod Cutting
pub mod Storage
pub mod Fallback
pub mod Complete
pub mod Reassembly
pub mod Manager
pub mod Tests
