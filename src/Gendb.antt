-- ===== src/Gendb.antt =====
-- gendb: the tool that registers, links and configures accounts.
pub mod Encoding
pub mod Png
pub mod Bootstrap
pub mod Commands
pub mod Args
pub mod Registration
