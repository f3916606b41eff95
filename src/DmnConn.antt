-- ===== src/DmnConn.antt =====
-- The connection of the GPS daemon (gps/loc_api/libloc_api_50001/loc_eng_dmn_conn_*.c).
pub mod Kernel
pub mod Pipe
pub mod Messages
pub mod Exchange
pub mod Sequence
pub mod Hostile
pub mod Thread
pub mod Lifecycle
pub mod Launch
