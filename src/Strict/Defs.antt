-- ===== src/Strict/Defs.antt =====
-- iter_skip_strict.go and Skip of iter_skip.go.
use jsoniter.Base.{
  ℕ, zero, suc, ◌+◌, Bool, true, false, ◌||◌, ◌&&◌, ◌⊎◌, none, [], ◌∷◌, Bytes, length, ltb, leb,
  ◌==◌, if◌then◌else◌,
}
use jsoniter.Iter.Defs.{
  Iterator, window, with_head, next_token, unread_byte, report_error, max_depth,
}
use jsoniter.Text.Read.{skip_three_bytes, skip_four_bytes}
use jsoniter.Array.Defs.{read_array_cb}
use jsoniter.Raw.Defs.{RawString, read_raw_string_inner}
use jsoniter.Object.Defs.{read_object_raw_cb}
use jsoniter.Float.Defs.{Floats, is_digit, is_failed, read_float, read_big_float}

-- How the pass of trySkipNumber ends: the offset of the byte behind the number, a second dot, a
-- dot without a digit, or none of these, which is left to the readers of numbers.
pub data NumberScan : Type 0 where
  valid_to : ℕ → NumberScan
  two_dots no_digit may_be_invalid : NumberScan

abbrev pub further : NumberScan → NumberScan
further x = elim x [
  | valid_to k ↦ valid_to (suc k)
  | two_dots ↦ two_dots
  | no_digit ↦ no_digit
  | may_be_invalid ↦ may_be_invalid
]

-- The bytes after which a number is taken to be valid.
unfoldable pub ends_valid : ℕ → Bool
ends_valid c = c == b',' || c == b']' || c == b'}' || c == b' ' || c == 9 || c == 10 || c == 13

-- The flags are dotFound and whether this is the first byte.
unfoldable pub scan_number : Bool → Bool → Bytes → NumberScan
scan_number dot_found at_head [] = may_be_invalid
scan_number dot_found at_head (c ∷ s) =
    let digits = further (scan_number dot_found false s) in
    let decimals = further (scan_number true false s) in
    if is_digit c
    then digits
    else if c == b'.'
    then (if dot_found
        then two_dots
        else elim s [ [] ↦ may_be_invalid | d ∷ _ ↦ if is_digit d then decimals else no_digit ])
    else if ends_valid c
    then (if at_head then may_be_invalid else valid_to 0)
    else may_be_invalid

unfoldable pub try_skip_number : Iterator → Bool × Iterator
try_skip_number it =
    if leb it.tail it.head || ltb (length it.buf) it.tail
    then (false, it)
    else elim (scan_number false true (window it)) [
      | valid_to k ↦ (true, with_head (it.head + k) it)
      | two_dots ↦ (true, report_error "validateNumber" "more than one dot found in number" [] it)
      | no_digit ↦ (true, report_error "validateNumber" "missing digit after dot" [] it)
      | may_be_invalid ↦ (false, it)
    ]

-- The pass of skipString: the offset of the quote, or of the first byte that is left to
-- readRawStringInner, if one of these is in the window.
pub data StringScan : Type 0 where
  quote_at left_at : ℕ → StringScan
  not_found : StringScan

abbrev pub beyond : StringScan → StringScan
beyond x = elim x [
  | quote_at k ↦ quote_at (suc k)
  | left_at k ↦ left_at (suc k)
  | not_found ↦ not_found
]

unfoldable pub scan_string : Bytes → StringScan
scan_string [] = not_found
scan_string (c ∷ s) =
    let rest = beyond (scan_string s) in
    if c == b'"'
    then quote_at 0
    else if c == b'\\'
    then left_at 0
    else if ltb c b' '
    then left_at 0
    else rest

-- Skip is an argument of these two.
unfoldable pub skip_array : (Iterator → Iterator) → Iterator → Iterator
skip_array skip_value it =
    let element : Iterator → Unit {0} → Bool × Iterator × Unit {0} =
      λ i s. (true, skip_value i, s) in
    (read_array_cb element (unread_byte it) tt).1

unfoldable pub skip_object : (ℕ → Bytes) → (Iterator → Iterator) → Iterator → Iterator
skip_object format_int skip_value it =
    let member : Iterator → (Iterator → RawString) → Unit {0} → Bool × Iterator × Unit {0} =
      λ i name s. (true, skip_value i, s) in
    (read_object_raw_cb format_int member (unread_byte it) tt).1

module _ (format_int : ℕ → Bytes) where
  unfoldable pub skip_string : Iterator → Iterator
  skip_string it =
      if ltb it.head it.tail && leb it.tail (length it.buf)
      then elim (scan_string (window it)) [
        | quote_at k ↦ with_head (it.head + k + 1) it
        | left_at k ↦ (read_raw_string_inner format_int (with_head (it.head + k) it)).1
        | not_found ↦ (read_raw_string_inner format_int it).1
      ]
      else (read_raw_string_inner format_int it).1

  -- The floats of 32 and of 64 bits, and big.ParseFloat.
  module _ (f32 f64 : Floats) {B : Type 0} (parse_big : ℕ → Bytes → B ⊎ ℕ) where
    unfoldable pub skip_number : Iterator → Iterator
    skip_number it =
        let (done, it1) = try_skip_number it in
        let it2 = unread_byte it1 in
        let (_, it3) = read_float f64 it2 in
        let (_, it4) = read_big_float parse_big (record it3 { error = none }) in
        if done
        then it1
        else if is_failed it2.error
        then it2
        else if is_failed it3.error
        then it4
        else it3

    -- Skip calls itself on elements and values, a level deeper each time, and increment_depth stops
    -- it behind max_depth levels.
    unfoldable pub skip_levels : ℕ → Iterator → Iterator
    skip_levels zero it = it
    skip_levels (suc fuel) it =
        let (c, it1) = next_token it in
        if c == b'"'
        then skip_string it1
        else if c == b'n'
        then skip_three_bytes b'u' b'l' b'l' it1
        else if c == b't'
        then skip_three_bytes b'r' b'u' b'e' it1
        else if c == b'f'
        then skip_four_bytes b'a' b'l' b's' b'e' it1
        else if c == b'0'
        then (read_float f32 (unread_byte it1)).1
        else if c == b'-' || is_digit c
        then skip_number it1
        else if c == b'['
        then skip_array (skip_levels fuel) it1
        else if c == b'{'
        then skip_object format_int (skip_levels fuel) it1
        else report_error "Skip" "do not know how to skip: " (format_int c) (unread_byte it1)

    unfoldable pub skip : Iterator → Iterator
    skip it = skip_levels (max_depth + 1) it
