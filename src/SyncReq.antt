-- ===== src/SyncReq.antt =====
-- gps/loc_api/loc_api_v02/loc_api_sync_req.c: synchronous requests over asynchronous indications,
-- through eight slots.
pub mod Ops
pub mod Calls
pub mod Slots
pub mod Process
pub mod Requests
pub mod Outcomes
