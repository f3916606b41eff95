-- ===== src/LocClient/Supported.antt =====
-- Which messages the location engine supports (loc_api_v02_client.c). The static variables of
-- locClientSupportMsgCheck are a record. `msgs` is the bitmap of the response, a list of bytes.
use android_device_lenovo_a.Base.{
  ℕ, zero, suc, ◌+◌, ◌/◌, ◌%◌, ◌^◌, Bool, true, false, not, Option, none, some, List, [], ◌∷◌, ◌==◌,
  if◌then◌else◌, ltb, length, get_elem?,
}
use android_device_lenovo_a.Base.Run.{fault, Cmd, pure, ◌>>=◌}
use android_device_lenovo_a.LocClient.State.{
  Ptr, Status, success, failure_general, failure_invalid_parameter, CallbackData, World, sane,
  is_success,
}
use android_device_lenovo_a.LocClient.Requests.{
  Reply, service_err, other_err, response, convert_qmi_response_to_loc_status,
}

-- Bit `i` of a number.
abbrev pub bit : ℕ → ℕ → Bool
bit n zero = n % 2 == 1
bit n (suc i) = bit (n / 2) i

-- `1 << i` on an int, undefined from 31 on.
abbrev pub shifted : ℕ → Option ℕ
shifted i = if ltb i 31 then some (2 ^ i) else none

-- `result |= 1 << i`
abbrev pub or_bit : ℕ → ℕ → Option ℕ → Option ℕ
or_bit result i none = none
or_bit result i (some b) = some (if bit result i then result else result + b)

abbrev pub bit_of : Option ℕ → ℕ → Bool
bit_of none i = false
bit_of (some byte) i = bit byte i

-- The bit of a request in the bitmap.
unfoldable pub is_supported : (msgs : List ℕ) (req_id : ℕ) → Bool
is_supported msgs req_id =
    if ltb (req_id / 8) (length msgs)
    then bit_of (get_elem? msgs (req_id / 8)) (req_id % 8)
    else false

abbrev pub loop_size : (req_ids : List ℕ) (msgs : List ℕ) → ℕ
loop_size req_ids msgs =
    let n : ℕ = if ltb (length req_ids) (length msgs) then length req_ids else length msgs in
    if ltb n 64 then n else 64

-- The loop from index `idx` on, `left` times; `none` where a shift is undefined.
unfoldable pub check_loop : (msgs : List ℕ) (left idx : ℕ) (req_ids : List ℕ) → Option ℕ → Option ℕ
check_loop msgs zero idx req_ids result = result
check_loop msgs (suc left) idx [] result = result
check_loop msgs (suc left) idx (id ∷ req_ids) none = none
check_loop msgs (suc left) idx (id ∷ req_ids) (some result) =
    check_loop msgs left (suc idx) req_ids
      (if is_supported msgs id then or_bit result idx (shifted idx) else some result)

-- The bitmap is `none` if it is not valid.
unfoldable pub check_qmi_msgs_supported : (req_ids : List ℕ) → Option (List ℕ) → Option ℕ
check_qmi_msgs_supported req_ids none = some 0
check_qmi_msgs_supported req_ids (some msgs) =
    check_loop msgs (loop_size req_ids msgs) 0 req_ids (some 0)

-- The static variables of locClientSupportMsgCheck.
pub record Checked : Type 0 where
  pub is_checked_already : Bool
  pub supported_msg_checked : ℕ

abbrev pub undefined_or : Option ℕ → Checked → Cmd World (Status × Option ℕ × Checked)
undefined_or none c = λ w. fault
undefined_or (some result) c =
    pure
      (success, some result, record { is_checked_already = true; supported_msg_checked = result })

-- The answer of the engine; what is left of the client's wish if there is none.
unfoldable pub answered :
    Reply
    → (bitmap : Option (List ℕ)) (msg_array : List ℕ) → Checked
    → Cmd World (Status × Option ℕ × Checked)
answered service_err bitmap msg_array c = pure (failure_general, none, c)
answered other_err bitmap msg_array c = pure (failure_general, none, c)
answered (response result error) bitmap msg_array c =
    if is_success (convert_qmi_response_to_loc_status result error)
    then undefined_or (check_qmi_msgs_supported msg_array bitmap) c
    else pure (failure_general, none, c)

unfoldable pub asked :
    Reply
    → (bitmap : Option (List ℕ)) (msg_array : List ℕ) → Checked
    → Option CallbackData
    → Cmd World (Status × Option ℕ × Checked)
asked reply bitmap msg_array c none = pure (failure_general, none, c)
asked reply bitmap msg_array c (some d) = answered reply bitmap msg_array c

-- locClientSupportMsgCheck: the status, what `*supportedMsg` is set to, and the static variables.
-- `none` for the array, or false for `supported_msg`, is NULL.
unfoldable pub support_msg_check :
    Reply
    → (bitmap : Option (List ℕ)) (handle : Ptr) (msg_array : Option (List ℕ)) (supported_msg : Bool)
    → Checked
    → Cmd World (Status × Option ℕ × Checked)
support_msg_check reply bitmap handle none supported_msg c =
    pure (failure_invalid_parameter, none, c)
support_msg_check reply bitmap handle (some msg_array) supported_msg c =
    if not supported_msg
    then pure (failure_invalid_parameter, none, c)
    else if c.is_checked_already
    then pure (success, some c.supported_msg_checked, c)
    else (do d ← sane handle; asked reply bitmap msg_array c d)
