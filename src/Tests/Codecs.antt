-- ===== src/Tests/Codecs.antt =====
-- The codecs of slices at concrete inputs.
use jsoniter.Base.{refl, none, some, [], ◌∷◌, Bytes, codes, arith}
use jsoniter.Base.Int.{pos}
use jsoniter.Iter.Defs.{parse_bytes}
use jsoniter.Stream.Defs.{new_stream}
use jsoniter.Text.Print.{quoted}
use jsoniter.Array.Whole
use jsoniter.Array.Elements
use jsoniter.Codec.Defs.{slice_decode, slice_encode}
use jsoniter.Codec.Native.{Codec, string_codec}
use jsoniter.Codec.Reads.{Decodes}
use jsoniter.Codec.Slice.{slice_decode-Body}
use jsoniter.Codec.RoundTrip.{string_codec-RoundTrips, slice_decode-slice_encode, RoundTrips}
use jsoniter.Codec.Map.{map_decode, map_encode, set_index}
use jsoniter.Codec.MapTrip.{map_decode-map_encode}
use jsoniter.Struct.General.{bytes_eq}
use jsoniter.Tests.Inputs.{unicode, unicode-IsUnicode, parse_bytes-IsValid}

abbrev strings : Codec Bytes
strings = string_codec unicode (λ n. [])

abbrev text : Bytes → Bytes
text v = b'"' ∷ quoted v

law : RoundTrips 0 strings.encode strings.decode text
law = string_codec-RoundTrips unicode (λ n. []) 0 unicode-IsUnicode

slice_decode-Body_example : Decodes (some (codes "x" ∷ codes "y" ∷ [])) (codes ",") (pos 0) (
    slice_decode
      (codes "[]string")
      (λ i. [])
      strings.decode
      none
      (parse_bytes (codes " [\"x\" ,\"y\"],")))
unfolding parse_bytes quoted jsoniter.Text.Write.safe_set
slice_decode-Body_example =
    slice_decode-Body (codes "[]string") (λ i. []) strings.decode 0 none
      (codes "x" ∷ codes "y" ∷ []) (codes "\"x\" ,\"y\"],") (codes ",")
      (parse_bytes (codes " [\"x\" ,\"y\"],")) (parse_bytes-IsValid (codes " [\"x\" ,\"y\"],")) refl
      refl refl
      (Whole.Body.first b'"' (codes "x\" ,\"y\"],") (codes "\"x\"") (codes " ,\"y\"],") refl
        (λ e. omega (arith, e)) refl (codes "x", refl, law.reads (codes "x"))
        (Elements.Elements.more (codes "\"y\"") (codes "],") refl
          (codes "y", refl, law.reads (codes "y")) (Elements.Elements.close refl)))

slice_decode-slice_encode_example :
    Decodes (some (codes "x" ∷ codes "y" ∷ [])) (codes ",") (pos 0) (
      slice_decode
        (codes "[]string")
        (λ i. [])
        strings.decode
        none
        (parse_bytes (codes "[\"x\",\"y\"],")))
unfolding parse_bytes slice_encode jsoniter.Codec.Defs.wrap_stream_error
    jsoniter.Stream.Defs.write_array_end jsoniter.Codec.Defs.encode_more string_codec
    jsoniter.Text.Write.write_string jsoniter.Stream.Defs.write_more
    jsoniter.Stream.Defs.write_array_start new_stream
slice_decode-slice_encode_example =
    slice_decode-slice_encode 0 (codes "[]string") (λ i. []) strings.encode strings.decode text law
      (some (codes "x" ∷ codes "y" ∷ [])) none none (codes ",")
      (parse_bytes (codes "[\"x\",\"y\"],")) (parse_bytes-IsValid (codes "[\"x\",\"y\"],")) refl
      refl refl

map_decode-map_encode_example :
    Decodes (some ((codes "j", codes "y") ∷ (codes "k", codes "x") ∷ [])) (codes ",") (pos 0) (
      map_decode bytes_eq [] [] strings.decode strings.decode
        (some ((codes "j", codes "y") ∷ []))
        (parse_bytes (codes "{\"k\":\"x\"},")))
unfolding parse_bytes set_index map_encode jsoniter.Stream.Defs.write_object_end
    jsoniter.Codec.Map.map_entries string_codec jsoniter.Text.Write.write_string
    jsoniter.Stream.Defs.write_object_start new_stream
map_decode-map_encode_example =
    map_decode-map_encode unicode (λ n. []) unicode-IsUnicode 0 bytes_eq [] strings.encode
      strings.decode text law (some ((codes "k", codes "x") ∷ []))
      (some ((codes "j", codes "y") ∷ [])) none (codes ",") (parse_bytes (codes "{\"k\":\"x\"},"))
      (parse_bytes-IsValid (codes "{\"k\":\"x\"},")) refl refl refl
