-- ===== src/Agps.antt =====
-- gps/loc_api/libloc_api_50001/loc_eng_agps.cpp: the state machines that share a data connection among
-- subscribers.
pub mod Types
pub mod Subscribers
pub mod Machine
pub mod States
pub mod Notify
pub mod Consistent
pub mod Requests
pub mod Steps
pub mod Protocol
pub mod Operations
pub mod Lost
pub mod Retries
pub mod Bounds
