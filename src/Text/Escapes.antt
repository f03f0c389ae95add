-- ===== src/Text/Escapes.antt =====
-- The escapes of JSON strings, as the grammar of JSON lists them, and the tests of iter_str.go for
-- them.
use jsoniter.Base.{
  ℕ, ◌+◌, ◌-◌, ◌<◌, ◌≡◌, refl, ap, subst, inl, inr, Bool, true, false, Option, none, some, ltb,
  ◌==◌, arith, Bool-cases, every, every_lem,
}
use jsoniter.Text.Write.{hex_chars}
use jsoniter.Text.Read.{hex_digit, simple_escape}

-- The letter behind a backslash, and the byte that it stands for.
pub data LetterEscape : ℕ → ℕ → Type 0 where
  quotation_mark : LetterEscape b'"' b'"'
  reverse_solidus : LetterEscape b'\\' b'\\'
  solidus : LetterEscape b'/' b'/'
  backspace : LetterEscape b'b' 8
  form_feed : LetterEscape b'f' 12
  line_feed : LetterEscape b'n' 10
  carriage_return : LetterEscape b'r' 13
  tab : LetterEscape b't' 9

-- A hexadecimal digit and its value.
pub data HexDigit : ℕ → ℕ → Type 0 where
  zero_to_nine : (k : ℕ) → k < 10 → HexDigit (b'0' + k) k
  upper_a_to_f : (k : ℕ) → k < 6 → HexDigit (b'A' + k) (10 + k)
  lower_a_to_f : (k : ℕ) → k < 6 → HexDigit (b'a' + k) (10 + k)

pub simple_escape-LetterEscape : {e b : ℕ} → LetterEscape e b → simple_escape e ≡ some b
unfolding simple_escape
simple_escape-LetterEscape quotation_mark = refl
simple_escape-LetterEscape reverse_solidus = refl
simple_escape-LetterEscape solidus = refl
simple_escape-LetterEscape backspace = refl
simple_escape-LetterEscape form_feed = refl
simple_escape-LetterEscape line_feed = refl
simple_escape-LetterEscape carriage_return = refl
simple_escape-LetterEscape tab = refl

has_value_lem :
    (o : Option ℕ) (n : ℕ) → elim o [ none ↦ false | some d ↦ d == n ] ≡ true → o ≡ some n
has_value_lem none n h = cc
has_value_lem (some d) n h = ap some (ground arith)

abbrev has_value : ℕ → ℕ → Bool
has_value c n = elim (hex_digit c) [ none ↦ false | some d ↦ d == n ]

decimal_table : every (λ k. has_value (b'0' + k) k) 10 ≡ true
unfolding every hex_digit
decimal_table = refl

upper_table : every (λ k. has_value (b'A' + k) (10 + k)) 6 ≡ true
unfolding every hex_digit
upper_table = refl

lower_table : every (λ k. has_value (b'a' + k) (10 + k)) 6 ≡ true
unfolding every hex_digit
lower_table = refl

pub hex_digit-HexDigit : {c d : ℕ} → HexDigit c d → hex_digit c ≡ some d
hex_digit-HexDigit (zero_to_nine k h) =
    has_value_lem (hex_digit (b'0' + k)) k
      (every_lem (λ n. has_value (b'0' + n) n) 10 k h decimal_table)
hex_digit-HexDigit (upper_a_to_f k h) =
    has_value_lem (hex_digit (b'A' + k)) (10 + k)
      (every_lem (λ n. has_value (b'A' + n) (10 + n)) 6 k h upper_table)
hex_digit-HexDigit (lower_a_to_f k h) =
    has_value_lem (hex_digit (b'a' + k)) (10 + k)
      (every_lem (λ n. has_value (b'a' + n) (10 + n)) 6 k h lower_table)

-- The digits that the writer of strings uses.
digit_chars : every (λ k. hex_chars k == b'0' + k) 10 ≡ true
unfolding every hex_chars
digit_chars = refl

letter_chars : every (λ k. hex_chars (10 + k) == b'a' + k) 6 ≡ true
unfolding every hex_chars
letter_chars = refl

equal : (a b : ℕ) → (a == b) ≡ true → b ≡ a
equal a b h = ground (arith, h)

pub hex_chars-HexDigit : (n : ℕ) → n < 16 → HexDigit (hex_chars n) n
hex_chars-HexDigit n h = elim (Bool-cases (ltb n 10)) [
  | inl low ↦
      let k : n < 10 = ground (arith, low) in
      subst (λ c. HexDigit c n)
        (equal _ _ (every_lem (λ m. hex_chars m == b'0' + m) 10 n k digit_chars)) (zero_to_nine n k)
  | inr high ↦
      let k : n - 10 < 6 = ground (arith, high, h) in
      let same : 10 + (n - 10) ≡ n = ground (arith, high) in
      subst (λ m. HexDigit (hex_chars m) m) same
        (subst (λ c. HexDigit c (10 + (n - 10)))
          (equal _ _ (every_lem (λ m. hex_chars (10 + m) == b'a' + m) 6 (n - 10) k letter_chars))
          (lower_a_to_f (n - 10) k))
]
