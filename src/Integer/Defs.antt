-- ===== src/Integer/Defs.antt =====
-- readUint32 and readUint64 of iter_int.go, which are one code at two widths, and assertInteger.
use jsoniter.Base.{
  ℕ, zero, suc, ◌+◌, ◌-◌, ◌*◌, ◌/◌, ◌%◌, ◌^◌, String, true, false, ◌&&◌, Option, none, some, [],
  ◌∷◌, Bytes, get_or, ltb, leb, ◌==◌, if◌then◌else◌,
}
use jsoniter.Iter.Defs.{Iterator, window, loads, report_error, load_more, with_head}

-- An unsigned type, and the bound up to which the code multiplies by ten without a test.
pub record Width : Type 0 where
  pub modulus : ℕ
  pub safe : ℕ
  pub operation : String

abbrev pub u32 : Width
u32 = record { modulus = 2 ^ 32; safe = (2 ^ 32 - 1) / 10 - 1; operation = "readUint32" }

abbrev pub u64 : Width
u64 = record { modulus = 2 ^ 64; safe = (2 ^ 64 - 1) / 10 - 1; operation = "readUint64" }

-- The table intDigits; `none` is invalidCharForNumber.
unfoldable pub int_digits : ℕ → Option ℕ
int_digits c = if leb b'0' c && leb c b'9' then some (c - b'0') else none

unfoldable pub assert_integer : Iterator → Iterator
unfolding report_error
assert_integer it =
    if ltb it.head it.tail && get_or it.buf it.head 0 == b'.'
    then report_error "assertInteger" "can not decode float as int" [] it
    else it

-- The unrolled rounds either return or go on to the loop with a value and an iterator.
pub data Step : Type 0 where
  returns : ℕ → Iterator → Step
  goes_on : ℕ → Iterator → Step

-- Why a pass over the window ends: at a byte that is no digit, by the overflow test, or at the
-- end of the window.
pub data Scan : Type 0 where
  stopped : ℕ → ℕ → Scan
  overflowed : Scan
  ran_out : ℕ → Scan

abbrev pub wrap : Width → ℕ → ℕ
wrap w n = n % w.modulus

module _ (w : Width) where
  -- The digits behind the first are at offsets 0 to 7 from head.
  unfoldable pub fast_path : ℕ → Iterator → Step
  fast_path value it =
      let ind = λ (k : ℕ). int_digits (get_or it.buf (it.head + k) 0) in
      let stop = λ (k v : ℕ). returns (wrap w v) (assert_integer (with_head (it.head + k) it)) in
      elim (ind 0) [
        | none ↦ stop 0 value
        | some ind2 ↦ elim (ind 1) [
          | none ↦ stop 1 (value * 10 + ind2)
          | some ind3 ↦ elim (ind 2) [
            | none ↦ stop 2 (value * 100 + ind2 * 10 + ind3)
            | some ind4 ↦ elim (ind 3) [
              | none ↦ stop 3 (value * 1000 + ind2 * 100 + ind3 * 10 + ind4)
              | some ind5 ↦ elim (ind 4) [
                | none ↦ stop 4 (value * 10000 + ind2 * 1000 + ind3 * 100 + ind4 * 10 + ind5)
                | some ind6 ↦ elim (ind 5) [
                  | none ↦
                      stop 5 (
                        value * 100000 + ind2 * 10000 + ind3 * 1000 + ind4 * 100 + ind5 * 10 + ind6)
                  | some ind7 ↦ elim (ind 6) [
                    | none ↦ stop 6 (
                        value * 1000000
                        + ind2 * 100000
                        + ind3 * 10000
                        + ind4 * 1000
                        + ind5 * 100
                        + ind6 * 10
                        + ind7)
                    | some ind8 ↦
                        let value8 =
                          value * 10000000
                          + ind2 * 1000000
                          + ind3 * 100000
                          + ind4 * 10000
                          + ind5 * 1000
                          + ind6 * 100
                          + ind7 * 10
                          + ind8 in
                        elim (ind 7) [
                          | none ↦ stop 7 value8
                          | some ind9 ↦ goes_on (wrap w value8) (with_head (it.head + 7) it)
                        ]
                  ]
                ]
              ]
            ]
          ]
        ]
      ]

  -- One digit of the loop: `none` is the overflow that the test finds.
  unfoldable pub add_digit : ℕ → ℕ → Option ℕ
  add_digit value ind =
      let value2 = wrap w (wrap w (value * 8) + wrap w (value * 2) + ind) in
      if ltb w.safe value then (if ltb value2 value then none else some value2) else some value2

  -- `for i := iter.head; i < iter.tail; i++`, over the window.
  unfoldable pub scan_digits : ℕ → Bytes → Scan
  scan_digits value [] = ran_out value
  scan_digits value (b ∷ s) = elim (int_digits b) [
    | none ↦ stopped 0 value
    | some ind ↦ elim (add_digit value ind) [
      | none ↦ overflowed
      | some value2 ↦ elim (scan_digits value2 s) [
        | stopped k v ↦ stopped (suc k) v
        | overflowed ↦ overflowed
        | ran_out v ↦ ran_out v
      ]
    ]
  ]

  -- The outer loop: a round for each window, as in next_token_loop.
  unfoldable pub read_digits : ℕ → ℕ → Iterator → ℕ × Iterator
  read_digits zero value it = (0, it)
  read_digits (suc fuel) value it = elim (scan_digits value (window it)) [
    | stopped k v ↦ (v, assert_integer (with_head (it.head + k) it))
    | overflowed ↦ (0, report_error w.operation "overflow" [] it)
    | ran_out v ↦
        let (more, it') = load_more it in
        elim more [ true ↦ read_digits fuel v it' | false ↦ (v, assert_integer it') ]
  ]

  unfoldable pub read_uint : ℕ → Iterator → ℕ × Iterator
  read_uint c it = elim (int_digits c) [
    -- The detail is byte(ind), which is byte(-1).
    | none ↦ (0, report_error w.operation "unexpected character: " (255 ∷ []) it)
    | some zero ↦ (0, assert_integer it)
    | some (suc n) ↦
        if ltb 10 (it.tail - it.head)
        then elim (fast_path (suc n) it) [
          | returns v it' ↦ (v, it')
          | goes_on v it' ↦ read_digits (loads it' + 1) v it'
        ]
        else read_digits (loads it + 1) (suc n) it
  ]

unfoldable pub read_uint32_from : ℕ → Iterator → ℕ × Iterator
unfolding read_uint
read_uint32_from = read_uint u32

unfoldable pub read_uint64_from : ℕ → Iterator → ℕ × Iterator
unfolding read_uint
read_uint64_from = read_uint u64
