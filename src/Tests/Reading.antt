-- ===== src/Tests/Reading.antt =====
-- The readers at concrete inputs.
use jsoniter.Base.{
  inl, false, ◌≡◌, refl, none, some, [], codes, true, arith, ℕ, List, Bool, Bytes, ◌++◌, ap, sym,
  ◌∙◌, ◌∷◌,
}
use jsoniter.Base.Int.{pos}
use jsoniter.Iter.Defs.{Iterator, parse, parse_bytes, load_more, next_token, read_byte}
use jsoniter.Iter.View.{Sees, LoadResult}
use jsoniter.Iter.Load.{load_more-result}
use jsoniter.Iter.Token.{Took, next_token-Takes}
use jsoniter.Integer.Defs.{u32, int_digits, add_digit, read_uint}
use jsoniter.Integer.Digits.{number, Reads}
use jsoniter.Integer.Fast.{read_uint-Reads}
use jsoniter.Integer.Value.{u32-IsWide}
use jsoniter.Integer.Sized.{read_uint32, read_uint64}
use jsoniter.Integer.Overflow.{read_uint32-Wraps}
use jsoniter.RoundTrip.Unsigned.{ReadsBack, read_uint64-decimal}
use jsoniter.Skip.Sloppy.{find_string_end}
use jsoniter.Skip.Parity.{Agrees, find_string_end-closing}
use jsoniter.Text.Read.{read_u4, read_string}
use jsoniter.Text.Escapes.{line_feed, zero_to_nine, upper_a_to_f, lower_a_to_f}
use jsoniter.Text.Hex.{ReadsTo, read_byte-Took, read_u4-ReadsTo}
use jsoniter.Text.Spells.{plain, letter}
use jsoniter.Text.Spells
use jsoniter.Text.Loop.{ReadsText, read_string-Spells}
use jsoniter.Field.Defs.{calc_hash, fold_case, read_field_hash}
use jsoniter.Field.Hash.{ReadsHash, read_field_hash-calc_hash}
use jsoniter.Array.Defs.{read_array_cb}
use jsoniter.Array.Elements.{Collects, Follows, close, more}
use jsoniter.Array.Whole.{first, read_array_cb-Body}
use jsoniter.Tests.Inputs.{
  in_chunks, digit_chunks, digit_chunks-IsValid, unicode, parse_bytes-IsValid, in_chunks-IsValid,
}

load_more-result_example : LoadResult in_chunks (load_more in_chunks)
load_more-result_example = load_more-result in_chunks in_chunks-IsValid

next_token-Takes_example : Took b'1' (codes "23,") in_chunks (next_token in_chunks)
unfolding parse
next_token-Takes_example = next_token-Takes in_chunks in_chunks-IsValid

read_uint-Reads_example :
    Reads
      (number 123456789 (codes ", 1"))
      (parse_bytes (codes "23456789, 1"))
      (read_uint u32 b'1' (parse_bytes (codes "23456789, 1")))
unfolding parse_bytes int_digits add_digit
read_uint-Reads_example =
    read_uint-Reads u32 (parse_bytes (codes "23456789, 1")) u32-IsWide
      (parse_bytes-IsValid (codes "23456789, 1")) b'1' 0 refl

read_uint64-decimal_example : ReadsBack 123 (codes ",") digit_chunks (read_uint64 digit_chunks)
unfolding parse int_digits
read_uint64-decimal_example =
    read_uint64-decimal 123 (codes "123") (codes ",") digit_chunks digit_chunks-IsValid refl
      (ground arith, refl, inl (omega arith)) refl (omega arith)

read_uint32-Wraps_example :
    Reads
      (number 1410065408 (codes ","))
      (next_token (parse_bytes (codes "10000000000,"))).1
      (read_uint32 (parse_bytes (codes "10000000000,")))
unfolding parse_bytes int_digits
read_uint32-Wraps_example =
    read_uint32-Wraps b'1' (codes "000000000") b'0' (codes ",") (parse_bytes (codes "10000000000,"))
      (parse_bytes-IsValid (codes "10000000000,")) refl (omega arith) (ground arith)
      (omega arith, omega arith) refl (record { above = omega arith; below = omega arith })

find_string_end-closing_example :
    Agrees (find_string_end (parse_bytes (codes "a\\\\\", 1"))) (some 4, false)
unfolding parse_bytes
find_string_end-closing_example = find_string_end-closing (parse_bytes (codes "a\\\\\", 1"))

read_u4-ReadsTo_example :
    ReadsTo 0xab9
      (codes "\"")
      (parse_bytes (codes "0aB9\""))
      (read_u4 (parse_bytes (codes "0aB9\"")))
unfolding parse_bytes
read_u4-ReadsTo_example =
    read_u4-ReadsTo
      (record {
        a = 0;
        b = 10;
        c = 11;
        d = 9;
        first = zero_to_nine 0 (omega arith);
        second = lower_a_to_f 0 (omega arith);
        third = upper_a_to_f 1 (omega arith);
        fourth = zero_to_nine 9 (omega arith);
        value = refl;
      })
      (codes "\"") (parse_bytes (codes "0aB9\"")) (parse_bytes-IsValid (codes "0aB9\"")) refl refl

read_string-Spells_example :
    ReadsText
      (codes "a\n")
      (codes "]")
      (pos 0)
      (read_string unicode (λ n. []) (parse_bytes (codes " \"a\\n\"]")))
unfolding parse_bytes
read_string-Spells_example =
    read_string-Spells unicode (λ n. []) (parse_bytes (codes " \"a\\n\"]")) (codes "a\\n\"]")
      (codes "a\n") (codes "]") (parse_bytes-IsValid (codes " \"a\\n\"]")) refl refl
      (plain b'a' (codes "\\n\"]") refl refl
        (letter b'n' 10 (codes "\"]") refl line_feed (Spells.close refl)))

read_field_hash-calc_hash_example :
    ReadsHash
      (calc_hash (λ s. codes "id") false (codes "Id"))
      (codes "1")
      (parse_bytes (codes " \"Id\" :1"))
      (read_field_hash unicode (λ n. []) (λ s. s) false (parse_bytes (codes " \"Id\" :1")))
unfolding parse_bytes fold_case
read_field_hash-calc_hash_example =
    read_field_hash-calc_hash unicode (λ n. []) (λ s. s) (λ s. codes "id") false (codes "Id")
      (codes " :1") (codes "1") (parse_bytes (codes " \"Id\" :1")) refl
      (parse_bytes-IsValid (codes " \"Id\" :1")) refl (ground arith) refl

abbrev digit : Iterator → List ℕ → Bool × Iterator × List ℕ
digit it s = let (c, it') = read_byte it in (true, it', s ++ c ∷ [])

abbrev Digit : List ℕ → Bytes → List ℕ → Type 0
Digit s x s' = (c : ℕ) × (x ≡ c ∷ []) × (s' ≡ s ++ c ∷ [])

digit-Collects :
    (s s' : List ℕ) (x t : Bytes) (it : Iterator)
    → Digit s x s'
    → Follows t
    → Sees (x ++ t) it
    → it.error ≡ none
    → it.depth ≡ pos 1
    → Collects s' t it.depth (digit it s)
digit-Collects s s' x t it (c, e, f) behind sees clear depth =
    let took = read_byte-Took it sees.valid (sees.remains ∙ ap (λ y. y ++ t) e) in
    record {
      success = refl;
      state = ap (λ (b : ℕ). s ++ b ∷ []) took.byte ∙ sym f;
      seen = took.seen;
      clear = took.same_error ∙ clear;
      depth = took.same_depth;
    }

read_array_cb-Body_example :
    Collects
      (codes "78")
      (codes ",")
      (pos 0)
      (read_array_cb digit (parse_bytes (codes " [7 ,8],")) [])
unfolding parse_bytes
read_array_cb-Body_example =
    read_array_cb-Body digit Digit 0 digit-Collects [] (codes "78") (codes "7 ,8],") (codes ",")
      (parse_bytes (codes " [7 ,8],")) (parse_bytes-IsValid (codes " [7 ,8],")) refl refl
      (omega arith) refl
      (first b'7' (codes " ,8],") (codes "7") (codes " ,8],") refl (λ e. absurd (omega (arith, e)))
        refl (b'7', refl, refl)
        (more (codes "8") (codes "],") refl (b'8', refl, refl) (close refl)))
