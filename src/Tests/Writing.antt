-- ===== src/Tests/Writing.antt =====
-- The writers, and reading back, at concrete inputs.
use jsoniter.Base.{false, ◌≡◌, refl, none, [], ◌∷◌, codes, arith, ℕ, Bytes, All, take, ◌≤◌}
use jsoniter.Base.Int.{pos, negsuc}
use jsoniter.Iter.Defs.{parse_bytes}
use jsoniter.Stream.Defs.{
  Stream, new_stream, write, write_byte, write_indention, write_object_start, write_object_end,
}
use jsoniter.Stream.Integers.{
  put_uint64, write_uint64, write_int64, write_signed, digits, write_first_buf, write_buf,
}
use jsoniter.Stream.Decimal.{Appends, put_uint64-Appends}
use jsoniter.Stream.Conserve.{contents, contents-write, write_object_end-indention}
use jsoniter.RoundTrip.Unsigned.{ReadsBack, read_uint64-write_uint64}
use jsoniter.RoundTrip.Signed.{read_int64-write_int64}
use jsoniter.RoundTrip.Text.{read_string-write_string}
use jsoniter.Integer.Sized.{read_uint64, read_int64}
use jsoniter.Integer.Defs.{int_digits}
use jsoniter.Text.Write.{
  put_html_string, write_object_field, write_string, put_string, fast_path, slow_path, escaped,
  safe_set, hex_chars,
}
use jsoniter.Text.Print.{quoted, put_string-quoted}
use jsoniter.Text.Html.{IsSafe, put_html_string-IsSafe}
use jsoniter.Text.Read.{read_string}
use jsoniter.Text.Loop.{ReadsText}
use jsoniter.Field.Defs.{calc_hash, fold_case, read_field_hash}
use jsoniter.Field.Hash.{ReadsHash}
use jsoniter.RoundTrip.Field.{read_field_hash-write_object_field}
use jsoniter.Tests.Inputs.{unicode, unicode-IsUnicode, parse_bytes-IsValid}

abbrev stream : Stream
stream = new_stream 2 none

put_uint64-Appends_example :
    Appends (b'[' ∷ []) 10000000000000000000 (put_uint64 10000000000000000000 (b'[' ∷ []))
put_uint64-Appends_example = put_uint64-Appends 10000000000000000000 (b'[' ∷ []) (omega arith)

contents-write_example : contents (write (codes "{}") stream).1 ≡ codes "{}"
unfolding new_stream
contents-write_example = contents-write (codes "{}") stream

write_object_end-indention_example :
    (write_object_end (write_object_start stream)).indention ≡ pos 0
unfolding new_stream write_object_start write_byte write_indention
write_object_end-indention_example =
    write_object_end-indention stream (write_object_start stream) 0 refl refl refl

read_uint64-write_uint64_example :
    ReadsBack 1234567
      (codes ",")
      (parse_bytes (codes "1234567,"))
      (read_uint64 (parse_bytes (codes "1234567,")))
unfolding parse_bytes new_stream write_uint64 put_uint64 digits write_first_buf write_buf int_digits
read_uint64-write_uint64_example =
    read_uint64-write_uint64 1234567 0 none (codes ",") (parse_bytes (codes "1234567,"))
      (omega arith) (parse_bytes-IsValid (codes "1234567,")) refl refl

read_int64-write_int64_example :
    ReadsBack
      (negsuc 1233)
      (codes ",")
      (parse_bytes (codes "-1234,"))
      (read_int64 (λ n. []) (parse_bytes (codes "-1234,")))
unfolding parse_bytes new_stream write_int64 write_signed write_uint64 put_uint64 digits
    write_first_buf write_buf int_digits
read_int64-write_int64_example =
    read_int64-write_int64 (λ n. []) (negsuc 1233) 0 none (codes ",") (parse_bytes (codes "-1234,"))
      (omega arith) (parse_bytes-IsValid (codes "-1234,")) refl refl

read_string-write_string_example :
    ReadsText
      (codes "a\"\n")
      (codes "]")
      (pos 0)
      (read_string unicode (λ n. []) (parse_bytes (codes "\"a\\\"\\n\"]")))
unfolding parse_bytes new_stream write_string put_string fast_path slow_path escaped safe_set
    hex_chars
read_string-write_string_example =
    read_string-write_string unicode (λ n. []) 0 none (codes "a\"\n") (codes "]")
      (parse_bytes (codes "\"a\\\"\\n\"]")) unicode-IsUnicode
      (parse_bytes-IsValid (codes "\"a\\\"\\n\"]")) refl refl

put_string-quoted_example : put_string (codes "a\"\n") (b'[' ∷ []) ≡ codes "[\"a\\\"\\n\""
unfolding quoted escaped safe_set
put_string-quoted_example = put_string-quoted (codes "a\"\n") (b'[' ∷ [])

read_field_hash-write_object_field_example :
    ReadsHash
      (calc_hash (λ s. codes "id") false (codes "Id"))
      (codes "1")
      (parse_bytes (codes "\"Id\":1"))
      (read_field_hash unicode (λ n. []) (λ s. s) false (parse_bytes (codes "\"Id\":1")))
unfolding parse_bytes new_stream write_object_field write_string write_byte put_string fast_path
    fold_case
read_field_hash-write_object_field_example =
    read_field_hash-write_object_field unicode (λ n. []) (λ s. s) (λ s. codes "id") false 0 none
      (codes "Id") (codes "1") (parse_bytes (codes "\"Id\":1")) refl (refl, (refl, tt))
      (parse_bytes-IsValid (codes "\"Id\":1")) refl

abbrev decode : Bytes → ℕ × ℕ
decode s = (0xfffd, 1)

decode-high : (b : ℕ) (s : Bytes) → 128 ≤ b → All (λ c. 128 ≤ c) (take (decode (b ∷ s)).1 (b ∷ s))
decode-high b s h = (h, tt)

put_html_string-IsSafe_example : All IsSafe (put_html_string decode (codes "a<b>&") [])
put_html_string-IsSafe_example = put_html_string-IsSafe decode decode-high (codes "a<b>&") [] tt
