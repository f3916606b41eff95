-- ===== src/Ni.antt =====
-- gps/loc_api/libloc_api_50001/loc_eng_ni.cpp: requests that the network initiates, and the answers of
-- the user to them.
pub mod Types
pub mod Thread
pub mod Requests
pub mod Account
pub mod Balance
pub mod Watched
pub mod Guarded
pub mod Answers
pub mod Races
