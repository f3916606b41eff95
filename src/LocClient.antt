-- ===== src/LocClient.antt =====
-- The clients of the location engine (gps/loc_api/loc_api_v02/loc_api_v02_client.c).
pub mod State
pub mod Requests
pub mod Open
pub mod Indications
pub mod Supported
pub mod Bits
pub mod Tables
pub mod Opening
pub mod Registering
pub mod Attempts
pub mod Lifetime
pub mod Dispatch
