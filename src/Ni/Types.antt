-- ===== src/Ni/Types.antt =====
-- The types of gps/loc_api/libloc_api_50001/loc_eng_ni.h, with the part of the engine's data that
-- loc_eng_ni.cpp reads and writes.
use android_device_lenovo_a.Base.{ℕ, Bool, Option, List}

-- GpsUserResponseType with GPS_NI_RESPONSE_IGNORE; `unset` is the zero of a session that had none.
pub data Response : Type 0 where
  unset accept deny no_response ignore : Response

-- A block of memory that the modem's request came in is a number; an int is a number below 2 ^ 32, a
-- negative one that many below 2 ^ 32.
pub record NiSession : Type 0 where
  pub resp_time_left : ℕ
  pub resp_recvd : Bool
  pub raw_request : Option ℕ
  pub req_id : ℕ
  pub resp : Response

pub record NiData : Type 0 where
  pub session : NiSession
  pub session_es : NiSession
  pub req_id_counter : ℕ

-- A pointer to one of the two sessions.
pub data Which : Type 0 where
  supl supl_es : Which

-- The fields of GpsNiNotification that the code tests; `privacy_override` is the test of notify_flags.
pub record NiNotification : Type 0 where
  pub ni_type : ℕ
  pub privacy_override : Bool
  pub timeout : ℕ

-- LocEngInformNiResponse
pub record Message : Type 0 where
  pub response : Response
  pub payload : ℕ

pub record Time : Type 0 where
  pub sec : ℕ
  pub usec : ℕ

-- Where ni_thread_proc is: before it takes the lock, in pthread_cond_timedwait, or behind the unlock.
pub data Position : Type 0 where
  starting : Position
  waiting : (tv_sec tv_nsec : ℕ) → Position
  leaving : (msg : Option Message) → Position

pub record Thread : Type 0 where
  pub which : Which
  pub position : Position

-- What the threads share: the sessions, the messages that were sent and the memory that was freed,
-- the last first.
pub record Shared : Type 0 where
  pub ni : NiData
  pub sent : List Message
  pub freed : List ℕ

pub data MuteState : Type 0 where
  mute_none mute_wait mute_in_session : MuteState

-- Where loc_eng_ni_reset_on_engine_restart is: not called, before its test of a session, or behind the
-- free of the session's request and before it clears the pointer, or before it takes the lock.
pub data ResetAt : Type 0 where
  not_resetting : ResetAt
  testing clearing signalling : Which → ResetAt

-- `ni_notify_cb` is whether there is a callback, and `notified` has the numbers it was called with.
pub record Engine : Type 0 where
  pub shared : Shared
  pub ni_notify_cb : Bool
  pub mute_session_state : MuteState
  pub reset_at : ResetAt
  pub threads : List Thread
  pub notified : List ℕ
