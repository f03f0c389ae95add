-- ===== src/Tests/Skipping.antt =====
-- Skip and Valid at concrete inputs.
use jsoniter.Base.{
  inl, ℕ, ◌≡◌, refl, inr, ◌⊎◌, true, false, none, some, [], ◌++◌, Bytes, codes, arith,
}
use jsoniter.Base.Int.{pos}
use jsoniter.Iter.Defs.{Iterator, parse, parse_bytes, next_token, max_depth}
use jsoniter.Iter.View.{IsValid}
use jsoniter.Strict.Depth.{Refused, skip-Refused}
use jsoniter.Iter.Token.{next_token-Takes}
use jsoniter.Text.Escapes.{line_feed}
use jsoniter.Array.Elements
use jsoniter.Array.Whole
use jsoniter.Raw.Body.{close, plain, letter}
use jsoniter.Object.Fields
use jsoniter.Float.Defs.{Floats, max_float64}
use jsoniter.Strict.Grammar.{Unsigned, no_fraction, no_exponent}
use jsoniter.Strict.Floats.{Leaves, Number}
use jsoniter.Strict.Defs.{skip_number, skip_string, skip}
use jsoniter.Strict.Number.{skip_number-Leaves}
use jsoniter.Strict.Text.{skip_string-Leaves}
use jsoniter.Strict.Value.{Json, number, array, object}
use jsoniter.Strict.Json.{skip-Json}
use jsoniter.Strict.Valid.{valid, valid-Json}
use jsoniter.Float.Defs.{is_number_byte}
use jsoniter.Tests.Inputs.{in_chunks, in_chunks-IsValid, parse_bytes-IsValid}
use jsoniter.Tests.Numbers.{fractions}

abbrev pub no_big : ℕ → Bytes → ℕ ⊎ ℕ
no_big prec s = inr 0

abbrev pub floats32 : Floats
floats32 = fractions none

abbrev pub floats64 : Floats
floats64 = fractions (some max_float64)

digits_23 : Unsigned b'1' (codes "23")
digits_23 = record {
  whole = codes "23";
  fraction = [];
  exponent = [];
  splits = refl;
  first = omega arith;
  digits = (omega arith, (omega arith, tt));
  no_zero = λ e. absurd (omega (arith, e));
  has_fraction = no_fraction;
  has_exponent = no_exponent;
}

value_123 : Number floats64 b'1' (codes "23")
value_123 = Number.plain (false, 123, 1) digits_23 refl

-- The number goes on in the next chunk.
skip_number-Leaves_example :
    Leaves
      (codes ",")
      (pos 0)
      (skip_number (λ n. []) floats32 floats64 no_big (next_token in_chunks).1)
unfolding parse is_number_byte
skip_number-Leaves_example =
    skip_number-Leaves (λ n. []) floats32 floats64 no_big b'1' (codes "23") (codes ",") in_chunks
      (next_token in_chunks) value_123 refl (next_token-Takes in_chunks in_chunks-IsValid) refl

skip_string-Leaves_example :
    Leaves (codes ",") (pos 0) (skip_string (λ n. []) (parse_bytes (codes "a\\n\",")))
unfolding parse_bytes
skip_string-Leaves_example =
    skip_string-Leaves (λ n. []) (codes "a\\n\"") (codes ",") (parse_bytes (codes "a\\n\","))
      (plain b'a' (codes "\\n\",") refl refl
        (letter b'n' 10 (codes "\",") refl line_feed (close refl)))
      (parse_bytes-IsValid (codes "a\\n\",")) refl

abbrev an_object : Bytes
an_object = codes " {\"a\":[ 123]}"

an_array : Json floats32 floats64 1 (codes "[ 123]")
an_array = array (codes " 123]") refl (
    Whole.Body.first b'1' (codes "23]") (codes "123") (codes "]") refl (λ e. omega (arith, e)) refl
      (number b'1' (codes "23") refl (λ e. omega (arith, e)) value_123)
      (Elements.Elements.close refl))

object-Json : Json floats32 floats64 2 an_object
object-Json = object (codes "\"a\":[ 123]}") refl (
    Fields.ObjectBody.first (codes "a\":[ 123]}") (codes "a\"") (codes ":[ 123]}") (codes "[ 123]")
      (codes "}") refl (plain b'a' (codes "\":[ 123]}") refl refl (close refl)) refl an_array
      (Fields.Fields.close refl))

skip-Json_example :
    Leaves
      (codes ",")
      (pos 0)
      (skip (λ n. []) floats32 floats64 no_big (parse_bytes (an_object ++ codes ",")))
unfolding parse_bytes is_number_byte
skip-Json_example =
    skip-Json (λ n. []) floats32 floats64 no_big 2 0 an_object (codes ",")
      (parse_bytes (an_object ++ codes ",")) object-Json refl (omega arith)
      (parse_bytes-IsValid (an_object ++ codes ",")) refl refl refl

valid-Json_example :
    ((valid (λ n. []) floats32 floats64 no_big (an_object ++ codes "]") in_chunks).0 ≡ true)
    × ((valid (λ n. []) floats32 floats64 no_big (an_object ++ codes "]") in_chunks).1.error ≡ none)
unfolding parse is_number_byte
valid-Json_example =
    valid-Json (λ n. []) floats32 floats64 no_big 2 an_object (codes "]") in_chunks object-Json refl
      (omega arith) refl

abbrev deep_array : Iterator
deep_array = record (parse_bytes (codes " [1]")) { depth = pos max_depth }

deep_array-IsValid : IsValid deep_array
unfolding parse_bytes
deep_array-IsValid = record { head_le = omega arith; tail_le = omega arith; fits = tt }

skip-Refused_example : Refused (codes "1]") (skip (λ n. []) floats32 floats64 no_big deep_array)
unfolding parse_bytes
skip-Refused_example =
    skip-Refused (λ n. []) floats32 floats64 no_big b'[' (codes "1]") deep_array (inl refl)
      deep_array-IsValid refl refl refl
