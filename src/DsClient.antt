-- ===== src/DsClient.antt =====
-- gps/loc_api/ds_api/ds_client.c: the client that makes emergency data calls.
pub mod Types
pub mod Service
pub mod Profiles
pub mod Call
pub mod Accounts
pub mod Choice
pub mod Leaks
