-- ===== src/Utils.antt =====
-- utils.py: ids and proxies.
pub mod Ids
pub mod Proxies
