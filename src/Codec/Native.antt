-- ===== src/Codec/Native.antt =====
-- reflect_native.go: the codecs of strings, integers, floats and Booleans.
use jsoniter.Base.{ℕ, Bool, not, Bytes, length, ◌==◌, if◌then◌else◌}
use jsoniter.Base.Int.{ℤ, pos, ◌==ℤ◌}
use jsoniter.Iter.Defs.{Iterator}
use jsoniter.Text.Read.{Unicode, read_string}
use jsoniter.Text.Write.{write_string}
use jsoniter.Skip.Literal.{read_nil, read_bool}
use jsoniter.Integer.Sized.{
  read_int8, read_int16, read_int32, read_int64, read_uint8, read_uint16, read_uint32, read_uint64,
}
use jsoniter.Stream.Defs.{write_bool}
use jsoniter.Stream.Integers.{
  write_int8, write_int16, write_int32, write_int64, write_uint8, write_uint16, write_uint32,
  write_uint64,
}
use jsoniter.Codec.Defs.{Decoder, Encoder}

-- The methods of a codec.
pub record Codec (A : Type 0) : Type 0 where
  pub decode : Decoder A
  pub encode : Encoder A
  pub is_empty : A → Bool

-- null leaves the value as it is.
unfoldable pub unless_nil : {A : Type 0} → (Iterator → A × Iterator) → Decoder A
unless_nil read old it =
    let (nil, it1) = read_nil it in let decoded = read it1 in if nil then (old, it1) else decoded

unfoldable pub string_codec : Unicode → (ℕ → Bytes) → Codec Bytes
string_codec u format_int = record {
  decode = λ old it. read_string u format_int it;
  encode = write_string;
  is_empty = λ s. length s == 0;
}

module _ (format_uint : ℕ → Bytes) where
  unfoldable pub int8_codec : Codec ℤ
  int8_codec = record {
    decode = unless_nil (read_int8 format_uint);
    encode = write_int8;
    is_empty = λ n. n ==ℤ pos 0;
  }

  unfoldable pub int16_codec : Codec ℤ
  int16_codec = record {
    decode = unless_nil (read_int16 format_uint);
    encode = write_int16;
    is_empty = λ n. n ==ℤ pos 0;
  }

  unfoldable pub int32_codec : Codec ℤ
  int32_codec = record {
    decode = unless_nil (read_int32 format_uint);
    encode = write_int32;
    is_empty = λ n. n ==ℤ pos 0;
  }

  unfoldable pub int64_codec : Codec ℤ
  int64_codec = record {
    decode = unless_nil (read_int64 format_uint);
    encode = write_int64;
    is_empty = λ n. n ==ℤ pos 0;
  }

  unfoldable pub uint8_codec : Codec ℕ
  uint8_codec = record {
    decode = unless_nil (read_uint8 format_uint);
    encode = write_uint8;
    is_empty = λ n. n == 0;
  }

  unfoldable pub uint16_codec : Codec ℕ
  uint16_codec = record {
    decode = unless_nil (read_uint16 format_uint);
    encode = write_uint16;
    is_empty = λ n. n == 0;
  }

unfoldable pub uint32_codec : Codec ℕ
uint32_codec = record {
  decode = unless_nil read_uint32;
  encode = write_uint32;
  is_empty = λ n. n == 0;
}

unfoldable pub uint64_codec : Codec ℕ
uint64_codec = record {
  decode = unless_nil read_uint64;
  encode = write_uint64;
  is_empty = λ n. n == 0;
}

unfoldable pub bool_codec : Codec Bool
bool_codec = record { decode = unless_nil read_bool; encode = write_bool; is_empty = λ b. not b }
