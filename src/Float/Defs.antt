-- ===== src/Float/Defs.antt =====
-- iter_float.go. Floats, strconv.ParseFloat and the types of math/big are parameters; ReadFloat32
-- and ReadFloat64 are one code, but for the names in the errors and for the test on maxFloat64.
use jsoniter.Base.{
  ℕ, zero, suc, ◌+◌, ◌-◌, ◌*◌, ◌^◌, String, Bool, true, false, ◌&&◌, ◌||◌, ◌⊎◌, inl, inr, Option,
  none, some, [], ◌∷◌, ◌++◌, Bytes, length, get_or, take, drop, ltb, leb, ◌==◌, if◌then◌else◌,
}
use jsoniter.Iter.Defs.{
  Iterator, Error, eof, read_error, window, loads, with_head, load_more, report_error, next_token,
  unread_byte,
}
use jsoniter.Integer.Defs.{u64}

-- The operations of a float type: a conversion, a quotient of conversions, the sign, and the
-- parser, whose failure is an error of strconv.
pub record Floats : Type 1 where
  pub F : Type 0
  pub zero_float : F
  pub of_uint : ℕ → F
  pub quotient : ℕ → ℕ → F
  pub minus : F → F
  pub parse : Bytes → F ⊎ ℕ
  pub limit : Option ℕ
  pub operation : String
  pub slow_operation : String

abbrev pub max_float64 : ℕ
max_float64 = 2 ^ 53 - 1

pub data FloatDigit : Type 0 where
  digit : ℕ → FloatDigit
  invalid_char end_of_number dot_in_number : FloatDigit

-- The table floatDigits.
unfoldable pub float_digits : ℕ → FloatDigit
float_digits c =
    if leb b'0' c && leb c b'9'
    then digit (c - b'0')
    else if c == b',' || c == b']' || c == b'}' || c == b' ' || c == 9 || c == 10
    then end_of_number
    else if c == b'.'
    then dot_in_number
    else invalid_char

-- The table pow10 has the powers up to the sixth.
abbrev pub pow10_length : ℕ
pow10_length = 7

-- The bytes that readNumberAsBytes takes.
unfoldable pub is_number_byte : ℕ → Bool
is_number_byte c =
    c == b'+' || c == b'-' || c == b'.' || c == b'e' || c == b'E' || (leb b'0' c && leb c b'9')

-- The offset of the first byte that is not of a number.
unfoldable pub number_end : Bytes → Option ℕ
number_end [] = none
number_end (c ∷ s) =
    let more : Option ℕ = elim (number_end s) [ none ↦ none | some k ↦ some (suc k) ] in
    if is_number_byte c then more else some 0

abbrev pub is_failed : Option Error → Bool
is_failed e = elim e [ none ↦ false | some eof ↦ false | some _ ↦ true ]

-- The end of readNumberAsBytes; a nil result is the empty one.
unfoldable pub end_number : Bytes → Iterator → Bytes × Iterator
end_number buf it =
    if is_failed it.error
    then ([], it)
    else if length buf == 0
    then (buf, report_error "readNumberAsBytes" "invalid number" [] it)
    else (buf, it)

unfoldable pub number_loop : ℕ → Bytes → Iterator → Bytes × Iterator
number_loop zero buf it = (buf, it)
number_loop (suc fuel) buf it =
    if ltb (length it.buf) it.tail then end_number buf it else elim (number_end (window it)) [
      | some k ↦ end_number (buf ++ take k (window it)) (with_head (it.head + k) it)
      | none ↦
          let (more, it') = load_more it in
          let rest = number_loop fuel (buf ++ window it) it' in
          if more then rest else end_number (buf ++ window it) it'
    ]

unfoldable pub read_number_as_bytes : Bytes → Iterator → Bytes × Iterator
read_number_as_bytes buf it = number_loop (loads it + 1) buf it

unfoldable pub read_number_as_string : Iterator → Bytes × Iterator
read_number_as_string it = read_number_as_bytes [] it

unfoldable pub index_byte : ℕ → Bytes → Option ℕ
index_byte b [] = none
index_byte b (c ∷ s) =
    let more : Option ℕ = elim (index_byte b s) [ none ↦ none | some k ↦ some (suc k) ] in
    if c == b then some 0 else more

abbrev pub is_digit : ℕ → Bool
is_digit c = leb b'0' c && leb c b'9'

-- `none` is the empty message.
unfoldable pub validate_positive_float : Bytes → Option String
validate_positive_float input =
    if length input == 0
    then some "empty number"
    else if get_or input 0 0 == b'-'
    then some "-- is not valid"
    else elim (index_byte b'.' input) [
      | none ↦ none
      | some k ↦
          if k + 1 == length input
          then some "dot can not be last character"
          else if is_digit (get_or input (k + 1) 0)
          then none
          else some "missing digit after dot"
    ]

unfoldable pub read_number_as_slice : Bytes → Iterator → Bytes × Iterator
read_number_as_slice buf it =
    let (bytes, it1) = read_number_as_bytes buf it in
    let checked =
      if ltb 0 (length bytes) && get_or bytes 0 0 == b'-' then drop 1 bytes else bytes in
    elim (validate_positive_float checked) [
      | none ↦ (bytes, it1)
      | some message ↦ ([], report_error "ReadNumberAsSlice" message [] it1)
    ]

-- The chars before the dot: `slow` is the slow path, and the others have the offset.
pub data Whole : Type 0 where
  slow : Whole
  at_end at_dot : ℕ → ℕ → Whole

unfoldable pub whole_part : ℕ → Bytes → Whole
whole_part value [] = slow
whole_part value (c ∷ s) = elim (float_digits c) [
  | invalid_char ↦ slow
  | end_of_number ↦ at_end 0 value
  | dot_in_number ↦ at_dot 0 value
  | digit ind ↦ if ltb u64.safe value then slow else elim (whole_part (value * 10 + ind) s) [
    | slow ↦ slow
    | at_end k v ↦ at_end (suc k) v
    | at_dot k v ↦ at_dot (suc k) v
  ]
]

-- The test on maxFloat64, where there is one.
unfoldable pub exceeds : Option ℕ → ℕ → Bool
exceeds none value = false
exceeds (some limit) value = ltb limit value

module _ (ops : Floats) where
  -- The chars after the dot: the offset and the float, or the slow path.
  unfoldable pub fraction : ℕ → ℕ → Bytes → Option (ℕ × ops.F)
  fraction value places [] = none
  fraction value places (c ∷ s) =
      let more : ℕ → Option (ℕ × ops.F) =
        λ v. elim (fraction v (suc places) s) [ none ↦ none | some (k, x) ↦ some (suc k, x) ] in
      elim (float_digits c) [
        | invalid_char ↦ none
        | dot_in_number ↦ none
        | end_of_number ↦
            if ltb 0 places && ltb places pow10_length
            then some (0, ops.quotient value (10 ^ places))
            else none
        | digit ind ↦
            let next = value * 10 + ind in
            if ltb u64.safe value || exceeds ops.limit next then none else more next
      ]

  unfoldable pub fast_float : ℕ → Bytes → Option (ℕ × ops.F)
  fast_float value s = elim (whole_part value s) [
    | slow ↦ none
    | at_end k v ↦ some (k, ops.of_uint v)
    | at_dot k v ↦ elim (fraction v 0 (drop (suc k) s)) [
      | none ↦ none
      | some (j, x) ↦ some (suc k + j, x)
    ]
  ]

  unfoldable pub slow_path : Iterator → ops.F × Iterator
  slow_path it =
      let (bytes, it1) = read_number_as_bytes [] it in
      if is_failed it1.error then (ops.zero_float, it1) else elim (validate_positive_float bytes) [
        | some message ↦ (ops.zero_float, report_error ops.slow_operation message [] it1)
        | none ↦ elim (ops.parse bytes) [
          | inl x ↦ (x, it1)
          | inr e ↦ (ops.zero_float, record it1 { error = some (read_error e) })
        ]
      ]

  -- Behind the first digit.
  unfoldable pub fast_path : ℕ → Iterator → ops.F × Iterator
  fast_path value it = elim (fast_float value (drop 1 (window it))) [
    | none ↦ slow_path it
    | some (k, x) ↦ (x, with_head (it.head + 1 + k) it)
  ]

  unfoldable pub read_positive_float : Iterator → ops.F × Iterator
  read_positive_float it =
      if it.head == it.tail then slow_path it else elim (float_digits (get_or it.buf it.head 0)) [
        | invalid_char ↦ slow_path it
        | end_of_number ↦ (ops.zero_float, report_error ops.operation "empty number" [] it)
        | dot_in_number ↦
            (ops.zero_float, report_error ops.operation "leading dot is invalid" [] it)
        | digit (suc ind) ↦ fast_path (suc ind) it
        | digit zero ↦
            if it.head + 1 == it.tail
            then slow_path it
            else if is_digit (get_or it.buf (it.head + 1) 0)
            then (ops.zero_float, report_error ops.operation "leading zero is invalid" [] it)
            else fast_path 0 it
      ]

  unfoldable pub read_float : Iterator → ops.F × Iterator
  read_float it =
      let (c, it1) = next_token it in
      let (x, it2) = read_positive_float it1 in
      if c == b'-' then (ops.minus x, it2) else read_positive_float (unread_byte it1)

-- big.ParseFloat, with the precision, and SetString of big.Int are parameters; `none` is nil.
unfoldable pub read_big_float : {B : Type 0} → (ℕ → Bytes → B ⊎ ℕ) → Iterator → Option B × Iterator
read_big_float parse it =
    let (str, it1) = read_number_as_string it in
    let prec = if ltb 64 (length str) then length str else 64 in
    if is_failed it1.error then (none, it1) else elim (parse prec str) [
      | inl x ↦ (some x, it1)
      | inr e ↦ (none, record it1 { error = some (read_error e) })
    ]

unfoldable pub read_big_int : {B : Type 0} → (Bytes → Option B) → Iterator → Option B × Iterator
read_big_int set_string it =
    let (str, it1) = read_number_as_string it in
    if is_failed it1.error then (none, it1) else elim (set_string str) [
      | some x ↦ (some x, it1)
      | none ↦ (none, report_error "ReadBigInt" "invalid big int" [] it1)
    ]
