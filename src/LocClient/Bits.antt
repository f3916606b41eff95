-- ===== src/LocClient/Bits.antt =====
-- What the bits of the result of checkQmiMsgsSupported (loc_api_v02_client.c) say.
use android_device_lenovo_a.Base.{
  ℕ, zero, suc, ◌+◌, ◌*◌, ◌/◌, ◌^◌, ◌≤◌, ◌<◌, ◌≡◌, ◌%◌, refl, ap, subst, sym, ◌++◌, ◌∙◌, Bool, true,
  false, Option, none, some, List, [], ◌∷◌, if◌then◌else◌, ltb, length, get_elem?, arith,
  Bool-cases, inl, inr,
}
use android_device_lenovo_a.LocClient.Supported.{
  bit, bit_of, is_supported, loop_size, check_loop, check_qmi_msgs_supported,
}

-- The bits of a byte, and of a bitmap, the lowest of the first byte first.
abbrev pub byte_bits : ℕ → List Bool
byte_bits b = bit b 0 ∷ bit b 1 ∷ bit b 2 ∷ bit b 3 ∷ bit b 4 ∷ bit b 5 ∷ bit b 6 ∷ bit b 7 ∷ []

abbrev pub bitmap_bits : List ℕ → List Bool
bitmap_bits [] = []
bitmap_bits (b ∷ bs) = byte_bits b ++ bitmap_bits bs

-- The flags that the loop turns into bits.
abbrev pub flags : (msgs : List ℕ) (left : ℕ) (req_ids : List ℕ) → List Bool
flags msgs zero req_ids = []
flags msgs (suc left) [] = []
flags msgs (suc left) (id ∷ req_ids) = is_supported msgs id ∷ flags msgs left req_ids

abbrev pub value_of : List Bool → ℕ
value_of [] = 0
value_of (true ∷ bs) = 1 + 2 * value_of bs
value_of (false ∷ bs) = 2 * value_of bs

abbrev pub flag_at : List Bool → ℕ → Bool
flag_at [] i = false
flag_at (b ∷ bs) zero = b
flag_at (b ∷ bs) (suc i) = flag_at bs i

-- Whether a request of the array is supported; there is none behind its end.
abbrev pub supported_at : List ℕ → Option ℕ → Bool
supported_at msgs none = false
supported_at msgs (some id) = flag_at (bitmap_bits msgs) id

in_first : (b r : ℕ) (rest : List Bool) → r < 8 → flag_at (byte_bits b ++ rest) r ≡ bit b r
in_first b zero rest lt = refl
in_first b (suc zero) rest lt = refl
in_first b (suc (suc zero)) rest lt = refl
in_first b (suc (suc (suc zero))) rest lt = refl
in_first b (suc (suc (suc (suc zero)))) rest lt = refl
in_first b (suc (suc (suc (suc (suc zero))))) rest lt = refl
in_first b (suc (suc (suc (suc (suc (suc zero)))))) rest lt = refl
in_first b (suc (suc (suc (suc (suc (suc (suc zero))))))) rest lt = refl
in_first b (suc (suc (suc (suc (suc (suc (suc (suc r)))))))) rest lt = absurd (omega arith)

in_rest : (b k : ℕ) (rest : List Bool) → flag_at (byte_bits b ++ rest) (8 + k) ≡ flag_at rest k
in_rest b k rest =
    let same : 8 + k ≡ suc (suc (suc (suc (suc (suc (suc (suc k))))))) = omega arith in
    ap (λ n. flag_at (byte_bits b ++ rest) n) same

-- The test of the code finds the bit of the bitmap.
is_supported-bitmap :
    (q r : ℕ) (msgs : List ℕ)
    → r < 8
    → is_supported msgs (8 * q + r) ≡ flag_at (bitmap_bits msgs) (8 * q + r)
unfolding is_supported
is_supported-bitmap q r msgs lt =
    let high : (8 * q + r) / 8 ≡ q = omega arith in
    let low : (8 * q + r) % 8 ≡ r = omega arith in rw (high, low) (go q msgs)
  where
    go :
        (k : ℕ) (ms : List ℕ)
        → (if ltb k (length ms) then bit_of (get_elem? ms k) r else false)
          ≡ flag_at (bitmap_bits ms) (8 * k + r)
    go k [] = ground arith
    go zero (b ∷ ms) =
        let here : 8 * 0 + r ≡ r = omega arith in
        let less : ltb 0 (suc (length ms)) ≡ true = ground arith in
        rw (less, here) (sym (in_first b r (bitmap_bits ms) lt))
    go (suc k) (b ∷ ms) =
        let same : ltb (suc k) (suc (length ms)) ≡ ltb k (length ms) = ground arith in
        let next : 8 * suc k + r ≡ 8 + (8 * k + r) = omega arith in
        rw (same, next) (go k ms ∙ sym (in_rest b (8 * k + r) (bitmap_bits ms)))

is_supported-flag_at :
    (msgs : List ℕ) (id : ℕ) → is_supported msgs id ≡ flag_at (bitmap_bits msgs) id
is_supported-flag_at msgs id =
    let split : 8 * (id / 8) + id % 8 ≡ id = omega arith in
    subst (λ n. is_supported msgs n ≡ flag_at (bitmap_bits msgs) n) split
      (is_supported-bitmap (id / 8) (id % 8) msgs (omega arith))

bit_zero : (i : ℕ) → bit 0 i ≡ false
bit_zero zero = refl
bit_zero (suc i) = bit_zero i

bit-value_of : (bs : List Bool) (i : ℕ) → bit (value_of bs) i ≡ flag_at bs i
bit-value_of [] i = bit_zero i
bit-value_of (true ∷ bs) zero = ground arith
bit-value_of (false ∷ bs) zero = ground arith
bit-value_of (true ∷ bs) (suc i) =
    let half : (1 + 2 * value_of bs) / 2 ≡ value_of bs = omega arith in
    ap (λ n. bit n i) half ∙ bit-value_of bs i
bit-value_of (false ∷ bs) (suc i) =
    let half : 2 * value_of bs / 2 ≡ value_of bs = omega arith in
    ap (λ n. bit n i) half ∙ bit-value_of bs i

bit_small : (i n : ℕ) → n < 2 ^ i → bit n i ≡ false
bit_small zero n lt = ground arith
bit_small (suc i) n lt = bit_small i (n / 2) (omega arith)

double_mul : (q x v : ℕ) → q ≡ 2 * x → q * v ≡ x * (2 * v)
double_mul q x v e = rw e (grind arith)

double_mul_suc : (q x v r : ℕ) → q ≡ 2 * x → r + x + q * v ≡ r + x * (1 + 2 * v)
double_mul_suc q x v r e = rw e (grind arith)

check_loop-flags :
    (msgs : List ℕ) (left idx : ℕ) (req_ids : List ℕ) (result : ℕ)
    → result < 2 ^ idx
    → idx + left ≤ 31
    → check_loop msgs left idx req_ids (some result)
      ≡ some (result + 2 ^ idx * value_of (flags msgs left req_ids))
unfolding check_loop
check_loop-flags msgs zero idx req_ids result lt le = ap some (grind arith)
check_loop-flags msgs (suc left) idx [] result lt le = ap some (grind arith)
check_loop-flags msgs (suc left) idx (id ∷ req_ids) result lt le =
    elim (Bool-cases (is_supported msgs id)) [
      | inl y ↦
          let fits : ltb idx 31 ≡ true = ground arith in
          rw (y, fits, bit_small idx result lt)
            (check_loop-flags msgs left (suc idx) req_ids (result + 2 ^ idx) (omega arith)
                (omega arith)
              ∙ ap some (
                  double_mul_suc (2 ^ suc idx) (2 ^ idx) (value_of (flags msgs left req_ids)) result
                    (omega arith)))
      | inr n ↦ rw n (
          check_loop-flags msgs left (suc idx) req_ids result (omega arith) (omega arith)
          ∙ ap (λ k. some (result + k))
              (double_mul (2 ^ suc idx) (2 ^ idx) (value_of (flags msgs left req_ids))
                (omega arith)))
    ]

flag_at-flags :
    (msgs : List ℕ) (left : ℕ) (req_ids : List ℕ) (i : ℕ)
    → flag_at (flags msgs left req_ids) i
      ≡ (if ltb i left then supported_at msgs (get_elem? req_ids i) else false)
flag_at-flags msgs zero req_ids i = ground arith
flag_at-flags msgs (suc left) [] i = ground arith
flag_at-flags msgs (suc left) (id ∷ req_ids) zero =
    let less : ltb 0 (suc left) ≡ true = ground arith in rw less (is_supported-flag_at msgs id)
flag_at-flags msgs (suc left) (id ∷ req_ids) (suc i) =
    let same : ltb (suc i) (suc left) ≡ ltb i left = ground arith in
    rw same (flag_at-flags msgs left req_ids i)

get_elem?-none : (xs : List ℕ) (i : ℕ) → length xs ≤ i → get_elem? xs i ≡ none
get_elem?-none [] i le = refl
get_elem?-none (x ∷ xs) zero le = absurd (omega arith)
get_elem?-none (x ∷ xs) (suc i) le = get_elem?-none xs i (omega arith)

either_false : (a b : Bool) → (if a then false else false) ≡ (if b then false else false)
either_false true true = refl
either_false true false = refl
either_false false true = refl
either_false false false = refl

-- The end of the array is no matter: there is no request behind it.
cut_off :
    (req_ids msgs : List ℕ)
    → length req_ids ≤ 31
    → (i : ℕ)
    → (if ltb i (loop_size req_ids msgs) then supported_at msgs (get_elem? req_ids i) else false)
      ≡ (if ltb i (length msgs) then supported_at msgs (get_elem? req_ids i) else false)
cut_off req_ids msgs few i = elim (Bool-cases (ltb i (length req_ids))) [
  | inl inside ↦
      let same : ltb i (loop_size req_ids msgs) ≡ ltb i (length msgs) = ground arith in rw same refl
  | inr behind ↦
      rw (get_elem?-none req_ids i (ground arith))
        (either_false (ltb i (loop_size req_ids msgs)) (ltb i (length msgs)))
]

-- For at most 31 requests checkQmiMsgsSupported shifts within an int, and bit `i` of its result says
-- whether the bitmap, read bit by bit from the lowest bit of its first byte on, has a 1 at the number
-- of request `i` of the array; but a request that stands in the array behind as
-- many as the bitmap has bytes is not looked up, and counts as unsupported.
pub bit-check_qmi_msgs_supported :
    (req_ids msgs : List ℕ)
    → length req_ids ≤ 31
    → (r : ℕ) × (check_qmi_msgs_supported req_ids (some msgs) ≡ some r)
      × ((i : ℕ)
          → bit r i
            ≡ (if ltb i (length msgs) then supported_at msgs (get_elem? req_ids i) else false))
unfolding check_qmi_msgs_supported
bit-check_qmi_msgs_supported req_ids msgs few =
    let n = loop_size req_ids msgs in
    let fs = flags msgs n req_ids in
    let less : 0 + n ≤ 31 = ground arith in
    let run = check_loop-flags msgs n 0 req_ids 0 (omega arith) less in
    let whole : 0 + 2 ^ 0 * value_of fs ≡ value_of fs = omega arith in
    (
      value_of fs,
      run ∙ ap some whole,
      λ i. bit-value_of fs i ∙ flag_at-flags msgs n req_ids i ∙ cut_off req_ids msgs few i,
    )
