-- ===== src/LocClient/Tables.antt =====
-- The tables of loc_api_v02_client.c, with the numbers of location_service_v02.h. The sizes of the
-- generated structs are a parameter.
use android_device_lenovo_a.Base.{ℕ, Option, none, some, List, [], ◌∷◌, ◌++◌}
use android_device_lenovo_a.LocClient.Requests.{RequestTable}
use android_device_lenovo_a.LocClient.Indications.{EventTable}

-- The generated struct of the indication, or of the request, with a number.
pub data Struct : Type 0 where
  ind_msg req_msg : (id : ℕ) → Struct

-- The events, with the masks that enable them.
abbrev pub events : List (ℕ × ℕ)
events =
    (36, 1)
    ∷ (37, 2)
    ∷ (38, 4)
    ∷ (39, 8)
    ∷ (40, 16)
    ∷ (41, 32)
    ∷ (42, 64)
    ∷ (43, 128)
    ∷ (44, 256)
    ∷ (45, 512)
    ∷ (46, 1024)
    ∷ (47, 2048)
    ∷ (48, 4096)
    ∷ (49, 8192)
    ∷ (96, 16384)
    ∷ (97, 32768)
    ∷ (98, 65536)
    ∷ (128, 4194304)
    ∷ (109, 131072)
    ∷ (110, 262144)
    ∷ (124, 2097152)
    ∷ (120, 1048576)
    ∷ (119, 524288)
    ∷ (129, 8388608)
    ∷ (140, 67108864)
    ∷ (144, 134217728)
    ∷ (145, 268435456)
    ∷ (134, 16777216)
    ∷ (147, 0)
    ∷ (151, 536870912)
    ∷ (152, 1073741824)
    ∷ (156, 2147483648)
    ∷ (163, 0)
    ∷ (164, 0)
    ∷ (165, 0)
    ∷ []

-- The responses. The row of QMI_LOC_SET_PREMIUM_SERVICES_CONFIG_IND_V02 has the struct of the request,
-- and that of the live batched reports the struct of the position reports.
abbrev pub responses : List (ℕ × Struct)
responses =
    (50, ind_msg 50)
    ∷ (51, ind_msg 51)
    ∷ (52, ind_msg 52)
    ∷ (53, ind_msg 53)
    ∷ (54, ind_msg 54)
    ∷ (55, ind_msg 55)
    ∷ (56, ind_msg 56)
    ∷ (57, ind_msg 57)
    ∷ (58, ind_msg 58)
    ∷ (59, ind_msg 59)
    ∷ (60, ind_msg 60)
    ∷ (61, ind_msg 61)
    ∷ (62, ind_msg 62)
    ∷ (63, ind_msg 63)
    ∷ (64, ind_msg 64)
    ∷ (65, ind_msg 65)
    ∷ (66, ind_msg 66)
    ∷ (67, ind_msg 67)
    ∷ (68, ind_msg 68)
    ∷ (154, ind_msg 154)
    ∷ (155, ind_msg 155)
    ∷ (69, ind_msg 69)
    ∷ (70, ind_msg 70)
    ∷ (71, ind_msg 71)
    ∷ (72, ind_msg 72)
    ∷ (73, ind_msg 73)
    ∷ (74, ind_msg 74)
    ∷ (75, ind_msg 75)
    ∷ (76, ind_msg 76)
    ∷ (77, ind_msg 77)
    ∷ (78, ind_msg 78)
    ∷ (79, ind_msg 79)
    ∷ (80, ind_msg 80)
    ∷ (81, ind_msg 81)
    ∷ (82, ind_msg 82)
    ∷ (83, ind_msg 83)
    ∷ (84, ind_msg 84)
    ∷ (85, ind_msg 85)
    ∷ (86, ind_msg 86)
    ∷ (87, ind_msg 87)
    ∷ (88, ind_msg 88)
    ∷ (89, ind_msg 89)
    ∷ (90, ind_msg 90)
    ∷ (91, ind_msg 91)
    ∷ (92, ind_msg 92)
    ∷ (93, ind_msg 93)
    ∷ (94, ind_msg 94)
    ∷ (95, ind_msg 95)
    ∷ (99, ind_msg 99)
    ∷ (100, ind_msg 100)
    ∷ (101, ind_msg 101)
    ∷ (102, ind_msg 102)
    ∷ (103, ind_msg 103)
    ∷ (150, ind_msg 150)
    ∷ (104, ind_msg 104)
    ∷ (105, ind_msg 105)
    ∷ (106, ind_msg 106)
    ∷ (107, ind_msg 107)
    ∷ (108, ind_msg 108)
    ∷ (111, ind_msg 111)
    ∷ (112, ind_msg 112)
    ∷ (113, ind_msg 113)
    ∷ (114, ind_msg 114)
    ∷ (125, ind_msg 125)
    ∷ (118, ind_msg 118)
    ∷ (122, ind_msg 122)
    ∷ (117, ind_msg 117)
    ∷ (120, ind_msg 36)
    ∷ (119, ind_msg 119)
    ∷ (121, ind_msg 121)
    ∷ (123, ind_msg 123)
    ∷ (133, ind_msg 133)
    ∷ (130, ind_msg 130)
    ∷ (126, ind_msg 126)
    ∷ (127, ind_msg 127)
    ∷ (132, req_msg 132)
    ∷ (131, ind_msg 131)
    ∷ (141, ind_msg 141)
    ∷ (142, ind_msg 142)
    ∷ (143, ind_msg 143)
    ∷ (136, ind_msg 136)
    ∷ (146, ind_msg 146)
    ∷ (149, ind_msg 149)
    ∷ (153, ind_msg 153)
    ∷ (157, ind_msg 157)
    ∷ (158, ind_msg 158)
    ∷ (159, ind_msg 159)
    ∷ (160, ind_msg 160)
    ∷ (161, ind_msg 161)
    ∷ (162, ind_msg 162)
    ∷ []

-- The requests that have a payload, and those that have none.
abbrev pub with_payload : List ℕ
with_payload =
    32 ∷ 33 ∷ 34 ∷ 35 ∷ 52 ∷ 53 ∷ 56 ∷ 57 ∷ 58 ∷ 60 ∷ 62 ∷ 64 ∷ 66 ∷ 68 ∷ 154 ∷ 155 ∷ 69 ∷ 71 ∷ 72
    ∷ 74 ∷ 76 ∷ 77 ∷ 78 ∷ 79 ∷ 81 ∷ 83 ∷ 84 ∷ 85 ∷ 86 ∷ 89 ∷ 88 ∷ 90 ∷ 92 ∷ 93 ∷ 94 ∷ 95 ∷ 99 ∷ 100
    ∷ 101 ∷ 102 ∷ 103 ∷ 150 ∷ 104 ∷ 105 ∷ 106 ∷ 107 ∷ 111 ∷ 112 ∷ 113 ∷ 114 ∷ 125 ∷ 117 ∷ 118 ∷ 121
    ∷ 122 ∷ 123 ∷ 133 ∷ 130 ∷ 126 ∷ 127 ∷ 132 ∷ 131 ∷ 141 ∷ 142 ∷ 143 ∷ 136 ∷ 146 ∷ 149 ∷ 153 ∷ 157
    ∷ 158 ∷ 159 ∷ 160 ∷ 161 ∷ 162 ∷ []

abbrev pub without_payload : List ℕ
without_payload =
    50 ∷ 51 ∷ 54 ∷ 55 ∷ 59 ∷ 61 ∷ 63 ∷ 65 ∷ 67 ∷ 70 ∷ 73 ∷ 75 ∷ 80 ∷ 82 ∷ 87 ∷ 91 ∷ 108 ∷ 30 ∷ 31
    ∷ []

abbrev pub event_rows : (Struct → ℕ) → List (ℕ × ℕ) → EventTable
event_rows size_of [] = []
event_rows size_of ((id, mask) ∷ rows) = (id, size_of (ind_msg id), mask) ∷ event_rows size_of rows

abbrev pub sized_rows : (Struct → ℕ) → List (ℕ × Struct) → List (ℕ × ℕ)
sized_rows size_of [] = []
sized_rows size_of ((id, struct) ∷ rows) = (id, size_of struct) ∷ sized_rows size_of rows

abbrev pub request_rows : (ℕ → Option ℕ) → List ℕ → RequestTable
request_rows size_of [] = []
request_rows size_of (id ∷ ids) = (id, size_of id) ∷ request_rows size_of ids

-- locClientEventIndTable
unfoldable pub event_table : (size_of : Struct → ℕ) → EventTable
event_table size_of = event_rows size_of events

-- locClientRespIndTable
unfoldable pub resp_table : (size_of : Struct → ℕ) → List (ℕ × ℕ)
resp_table size_of = sized_rows size_of responses

-- The cases of validateRequest.
unfoldable pub request_table : (size_of : Struct → ℕ) → RequestTable
request_table size_of =
    request_rows (λ id. some (size_of (req_msg id))) with_payload
    ++ request_rows (λ id. none) without_payload
