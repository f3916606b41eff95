-- ===== src/Agps/Types.antt =====
-- The types of gps/loc_api/libloc_api_50001/loc_eng_agps.h.
use android_device_lenovo_a.Base.{ℕ, Bool, Option, List}
use android_device_lenovo_a.Base.Int.{ℤ}

-- AgpsRsrcStatus
pub data Status : Type 0 where
  subscribe unsubscribe granted released denied status_max : Status

-- The two actions of AGpsStatusValue: GPS_REQUEST_AGPS_DATA_CONN and GPS_RELEASE_AGPS_DATA_CONN.
pub data Action : Type 0 where
  request_conn release_conn : Action

pub data State : Type 0 where
  released_state pending_state acquired_state releasing_state : State

-- The classes of subscribers, with the members of each.
pub data Kind : Type 0 where
  bit : (ipv6_addr : List ℕ) → Kind
  atl : (backward_compatible_mode : Bool) → Kind
  wifi : (ssid password : Option (List ℕ)) → Kind
  ds : Kind

-- `is_inactive` stays false where the class has no such member.
pub record Subscriber : Type 0 where
  pub id : ℕ
  pub kind : Kind
  pub is_inactive : Bool

-- `rcver`, or a broadcast to a group.
pub data Receiver : Type 0 where
  rcver : Subscriber → Receiver
  broadcast_all broadcast_active broadcast_inactive : Receiver

pub record Notification : Type 0 where
  pub receiver : Receiver
  pub rsrc_status : Status
  pub post_notify_delete : Bool

pub data ConnStatus : Type 0 where
  request_success release_success failure : ConnStatus

-- The calls that leave the state machine: loc_eng_dmn_conn_loc_api_server_data_conn, atlOpenStatus,
-- atlCloseStatus, the callback of the servicer, and what the state machine of emergency calls asks
-- of its adapter and of the timer.
pub data Call : Type 0 where
  data_conn : (sender : ℕ) → ConnStatus → Call
  atl_open_status : (id : ℕ) (is_success : Bool) (apn : Option (List ℕ)) (bearer type : ℤ) → Call
  atl_close_status : (id : ℕ) → Call
  request_rsrc : Action → (type : ℤ) (ssid password : List ℕ) → Call
  request_data_call : Action → Call
  request_atl : (id : ℕ) → Call
  request_supl_es : (id : ℕ) → Call
  close_data_call : Call
  start_timer : Call

-- What the callbacks change: the calls that were made, the last one first, and mRetries.
pub record Env : Type 0 where
  pub calls : List Call
  pub retries : ℕ

-- AgpsStateMachine, or DSStateMachine.
pub data Class : Type 0 where
  agps_class ds_class : Class

-- The members that no event changes.
pub record Nif : Type 0 where
  pub class : Class
  pub type : ℤ
  pub apn : Option (List ℕ)
  pub bearer : ℤ
  pub enforce_single_subscriber : Bool

pub record Machine : Type 0 where
  pub nif : Nif
  pub state : State
  pub subscribers : List Subscriber
  pub env : Env

-- The results of AGpsServicer and ExtServicer: SUCCESS, ENGINE_BUSY, UNSUPPORTED, -1, or another.
pub data Answer : Type 0 where
  success engine_busy unsupported failed other : Answer
