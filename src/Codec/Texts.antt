-- ===== src/Codec/Texts.antt =====
-- Codecs of values that are kept as text or bytes: reflect_json_number.go, reflect_json_raw_message.go,
-- the base64 codec and the float decoders of reflect_native.go, and SkipAndReturnBytes of iter_skip.go.
use jsoniter.Base.{ℕ, ◌⊎◌, inl, inr, Option, some, none, [], Bytes, length, ◌==◌, if◌then◌else◌}
use jsoniter.Iter.Defs.{Iterator, report_error, what_is_next, string_value, nil_value, array_value}
use jsoniter.Text.Read.{Unicode, read_string, skip_four_bytes}
use jsoniter.Skip.Literal.{read_nil, start_capture, start_capture_to, stop_capture}
use jsoniter.Float.Defs.{Floats, read_float, read_number_as_string}
use jsoniter.Stream.Defs.{append, write_byte, write_nil, write_raw}
use jsoniter.Codec.Defs.{Decoder, Encoder}
use jsoniter.Codec.Native.{Codec, unless_nil}

-- Skip is a parameter; `none` is a panic.
unfoldable pub skip_and_return_bytes : (Iterator → Iterator) → Iterator → Option (Bytes × Iterator)
skip_and_return_bytes skip_value it = elim (start_capture it.head it) [
  | none ↦ none
  | some it1 ↦ stop_capture (skip_value it1)
]

unfoldable pub skip_and_append_bytes :
    (Iterator → Iterator) → Bytes → Iterator → Option (Bytes × Iterator)
skip_and_append_bytes skip_value buf it = elim (start_capture_to (some buf) it.head it) [
  | none ↦ none
  | some it1 ↦ stop_capture (skip_value it1)
]

-- A raw message; `none` is nil. A panic of SkipAndReturnBytes is `none` of the result.
unfoldable pub raw_message_decode :
    (Iterator → Iterator) → Iterator → Option (Option Bytes × Iterator)
raw_message_decode skip_value it =
    let (nil, it1) = read_nil it in
    let skipped : Option (Option Bytes × Iterator) = elim (skip_and_return_bytes skip_value it1) [
      | none ↦ none
      | some (s, it2) ↦ some (some s, it2)
    ] in
    if nil then some (none, it1) else skipped

unfoldable pub raw_message_encode : Encoder (Option Bytes)
raw_message_encode none st = write_nil st
raw_message_encode (some s) st = write_raw s st

unfoldable pub number_codec : Unicode → (ℕ → Bytes) → Codec Bytes
number_codec u format_int = record {
  decode = λ old it.
      let (x, it1) = what_is_next it in
      elim x [
        | string_value ↦ read_string u format_int it1
        | nil_value ↦ ([], skip_four_bytes b'n' b'u' b'l' b'l' it1)
        | _ ↦ read_number_as_string it1
      ];
  encode = λ s st. if length s == 0 then write_byte b'0' st else write_raw s st;
  is_empty = λ s. length s == 0;
}

unfoldable pub float_decode : (ops : Floats) → Decoder ops.F
float_decode ops = unless_nil (read_float ops)

-- encoding/base64 is a parameter: what the text stands for, or the error's text.
module _ (u : Unicode) (format_int : ℕ → Bytes) (base64_decode : Bytes → Bytes ⊎ Bytes)
    (base64_encode : Bytes → Bytes) where
  unfoldable pub base64_string : Decoder (Option Bytes)
  base64_string old it =
      let (src, it1) = read_string u format_int it in
      elim (base64_decode src) [
        | inl dst ↦ (some dst, it1)
        | inr e ↦ (old, report_error "decode base64" "" e it1)
      ]

  unfoldable pub base64_do_decode : Decoder (Option Bytes) → Decoder (Option Bytes)
  base64_do_decode decode_slice old it =
      let (nil, it1) = read_nil it in
      let (x, it2) = what_is_next it1 in
      let found : Option Bytes × Iterator = elim x [
        | string_value ↦ base64_string old it2
        | array_value ↦ decode_slice old it2
        | _ ↦ (old, report_error "base64Codec" "invalid input" [] it2)
      ] in
      if nil then (none, it1) else found

  unfoldable pub base64_do_encode : Encoder (Option Bytes)
  base64_do_encode none st = write_nil st
  base64_do_encode (some src) st =
      let opened = write_byte b'"' st in
      write_byte b'"' (if length src == 0 then opened else append (base64_encode src) opened)
