-- ===== src/Tests/Structs.antt =====
-- The codecs of structs at concrete inputs.
use jsoniter.Base.{
  ℕ, ◌≡◌, ◌≢◌, refl, inl, inr, true, false, none, List, [], ◌∷◌, Bytes, codes, arith, ◌==◌,
  same_head,
}
use jsoniter.Base.Int.{pos}
use jsoniter.Iter.Defs.{Iterator, parse_bytes}
use jsoniter.Stream.Defs.{new_stream}
use jsoniter.Text.Print.{quoted}
use jsoniter.Field.Defs.{calc_hash, hash_all, hash_round}
use jsoniter.Field.Hash.{folded}
use jsoniter.Raw.Body
use jsoniter.Object.Fields as Fields
use jsoniter.Object.Fields.{ObjectBody}
use jsoniter.Struct.Slots.{Fresh}
use jsoniter.Strict.Defs.{skip}
use jsoniter.Strict.Value
use jsoniter.Codec.Defs.{Decoder}
use jsoniter.Codec.Native.{Codec, string_codec}
use jsoniter.Codec.Reads.{Decodes}
use jsoniter.Codec.RoundTrip.{RoundTrips, string_codec-RoundTrips}
use jsoniter.Struct.Defs.{StructType, StructField, field_decode}
use jsoniter.Struct.General.{general_decode}
use jsoniter.Struct.Create.{create_struct_decoder, decode_struct}
use jsoniter.Struct.Hashed
use jsoniter.Struct.Hashed.{Plain, Skips}
use jsoniter.Struct.Named
use jsoniter.Struct.Lookup.{lowered, here, there}
use jsoniter.Struct.Whole.{general_decode-ObjectBody}
use jsoniter.Struct.Encode.{FieldTo, field_encode, field_is_empty, leaves_out, struct_encode}
use jsoniter.Struct.Prints.{Members, struct_encode-Prints}
use jsoniter.Struct.RoundTrip.{
  decode_struct-struct_encode, string_codec-Prints, field_encode-Prints,
}
use jsoniter.Codec.Flat.{flat}
use jsoniter.Struct.Values.{skip-Skips, field_decode-Takes}
use jsoniter.Struct.Chosen.{
  EitherStep, create_struct_decoder-ObjectBody, create_struct_decoder-EitherStep,
}
use jsoniter.Tests.Inputs.{unicode, unicode-IsUnicode, parse_bytes-IsValid}
use jsoniter.Tests.Skipping.{no_big, floats32, floats64}

abbrev Pair : Type 0
Pair = Bytes × Bytes

abbrev field_a : StructField Pair Bytes
field_a = record { field_name = codes "A"; get = λ s. s.0; set = λ v s. (v, s.1) }

abbrev field_b : StructField Pair Bytes
field_b = record { field_name = codes "B"; get = λ s. s.1; set = λ v s. (s.0, v) }

abbrev strings : Codec Bytes
strings = string_codec unicode (λ n. [])

law : RoundTrips 1 strings.encode strings.decode (λ v. b'"' ∷ quoted v)
law = string_codec-RoundTrips unicode (λ n. []) 1 unicode-IsUnicode

abbrev typ : StructType
typ = record { type_name = codes "Pair"; printed = codes "main.Pair" }

abbrev decode_a : Decoder Pair
decode_a = field_decode field_a strings.decode

abbrev decode_b : Decoder Pair
decode_b = field_decode field_b strings.decode

abbrev fields : List (Bytes × Decoder Pair)
fields = (codes "a", decode_a) ∷ (codes "b", decode_b) ∷ []

abbrev skips : Iterator → Iterator
skips = skip (λ n. []) floats32 floats64 no_big

abbrev lower : Bytes → Bytes
lower = folded false

letter_name : (c : ℕ) → (c ≢ b'"') → (c ≢ b'\\') → Plain skips lower false (c ∷ []) (c ∷ b'"' ∷ [])
letter_name c p q = record { quoted = refl; bytes = ((p, q), tt); lower = refl }

abbrev NullStep : Pair → Type 0
NullStep s = Hashed.Step skips lower false fields 0 s (codes "z\"") (codes "null") s

skips_null : Skips skips 0 (codes "null")
skips_null =
    skip-Skips (λ n. []) floats32 floats64 no_big 0 0 (codes "null") (Value.Value.null refl)
      (omega arith)

step_b :
    Hashed.Step skips lower false fields 0 ([], []) (codes "B\"") (codes "\"x\"") ([], codes "x")
unfolding jsoniter.Field.Defs.fold_case quoted jsoniter.Text.Write.safe_set
step_b =
    Hashed.Step.known (codes "B") (codes "b") decode_b
      (letter_name b'B' (λ e. omega (arith, e)) (λ e. omega (arith, e))) refl
      (inr (inl (refl, refl)))
      (field_decode-Takes field_b strings.decode 1 ([], []) (codes "\"x\"") (codes "x")
        (law.reads (codes "x") []))

differ : (m n : ℕ) → (m == n) ≡ false → m ≢ n
differ m n h e = ground (arith, h, e)

step_z : (s : Pair) → NullStep s
unfolding jsoniter.Field.Defs.fold_case calc_hash hash_all hash_round
step_z s =
    Hashed.Step.unknown (codes "z")
      (letter_name b'z' (λ e. omega (arith, e)) (λ e. omega (arith, e)))
      (differ _ _ refl, (differ _ _ refl, tt)) skips_null refl

different : Fresh lower false (0 ∷ []) fields
unfolding jsoniter.Field.Defs.fold_case calc_hash hash_all hash_round
different = (refl, (refl, tt))

object_text :
    (R : Pair → Bytes → Bytes → Pair → Type 0)
    → R ([], []) (codes "z\"") (codes "null") ([], [])
    → R ([], []) (codes "B\"") (codes "\"x\"") ([], codes "x")
    → ObjectBody R ([], []) (codes "\"z\":null, \"B\":\"x\"},") ([], codes "x") (codes ",")
object_text R z b =
    ObjectBody.first (codes "z\":null, \"B\":\"x\"},") (codes "z\"") (codes ":null, \"B\":\"x\"},")
      (codes "null") (codes ", \"B\":\"x\"},") refl
      (Body.Body.plain b'z' (codes "\":null, \"B\":\"x\"},") refl refl (Body.Body.close refl)) refl
      z
      (Fields.Fields.more (codes " \"B\":\"x\"},") (codes "B\":\"x\"},") (codes "B\"")
        (codes ":\"x\"},") (codes "\"x\"") (codes "},") refl refl
        (Body.Body.plain b'B' (codes "\":\"x\"},") refl refl (Body.Body.close refl)) refl b
        (Fields.Fields.close refl))

abbrev object : Iterator
object = parse_bytes (codes "{\"z\":null, \"B\":\"x\"},")

create_struct_decoder-ObjectBody_example :
    Decodes
      ([], codes "x")
      (codes ",")
      (pos 0)
      (decode_struct typ skips unicode
        (λ n. [])
        lower
        (λ s. s)
        false
        false
        (create_struct_decoder lower false false fields)
        ([], [])
        object)
unfolding parse_bytes
create_struct_decoder-ObjectBody_example =
    create_struct_decoder-ObjectBody skips lower false typ unicode (λ n. []) (λ s. s)
      (codes "a", decode_a) ((codes "b", decode_b) ∷ []) false 0 ([], []) ([], codes "x")
      (codes "\"z\":null, \"B\":\"x\"},") (codes ",") object (omega arith) different
      (parse_bytes-IsValid (codes "{\"z\":null, \"B\":\"x\"},")) refl refl (omega arith) refl
      (object_text (Hashed.Step skips lower false fields 0) (step_z ([], [])) step_b)

abbrev NamedStep : Pair → Bytes → Bytes → Pair → Type 0
NamedStep = Named.Step skips unicode (λ n. []) lower false true fields 0

not_a : codes "B" ≢ codes "a"
not_a e = absurd (omega (arith, same_head _ _ _ _ e))

not_b : codes "B" ≢ codes "b"
not_b e = absurd (omega (arith, same_head _ _ _ _ e))

a_b : codes "b" ≢ codes "a"
a_b e = absurd (omega (arith, same_head _ _ _ _ e))

z_a : codes "z" ≢ codes "a"
z_a e = absurd (omega (arith, same_head _ _ _ _ e))

z_b : codes "z" ≢ codes "b"
z_b e = absurd (omega (arith, same_head _ _ _ _ e))

named_b : NamedStep ([], []) (codes "B\"") (codes "\"x\"") ([], codes "x")
unfolding jsoniter.Field.Defs.fold_case quoted jsoniter.Text.Write.safe_set
named_b =
    Named.Step.found (codes "B") decode_b refl (lowered refl (not_a, (not_b, tt)) (there a_b here))
      (field_decode-Takes field_b strings.decode 1 ([], []) (codes "\"x\"") (codes "x")
        (law.reads (codes "x") []))

named_z : (s : Pair) → NamedStep s (codes "z\"") (codes "null") s
unfolding jsoniter.Field.Defs.fold_case
named_z s =
    Named.Step.skipped (codes "z") refl ((z_a, (z_b, tt)), inr (z_a, (z_b, tt))) skips_null refl

general_decode-ObjectBody_example :
    Decodes
      ([], codes "x")
      (codes ",")
      (pos 0)
      (general_decode skips unicode (λ n. []) lower false true false fields typ ([], []) object)
unfolding parse_bytes
general_decode-ObjectBody_example =
    general_decode-ObjectBody skips unicode (λ n. []) lower false true fields typ 0 ([], [])
      ([], codes "x") (codes "\"z\":null, \"B\":\"x\"},") (codes ",") object
      (parse_bytes-IsValid (codes "{\"z\":null, \"B\":\"x\"},")) refl refl (omega arith) refl
      (object_text NamedStep (named_z ([], [])) named_b)

abbrev BothStep : Pair → Bytes → Bytes → Pair → Type 0
BothStep = EitherStep skips lower false typ unicode (λ n. []) (λ s. s) true fields 0

create_struct_decoder-EitherStep_example :
    Decodes
      ([], codes "x")
      (codes ",")
      (pos 0)
      (decode_struct typ skips unicode
        (λ n. [])
        lower
        (λ s. s)
        false
        true
        (create_struct_decoder lower false false fields)
        ([], [])
        object)
unfolding parse_bytes
create_struct_decoder-EitherStep_example =
    create_struct_decoder-EitherStep skips lower false typ unicode (λ n. []) (λ s. s)
      (codes "a", decode_a) ((codes "b", decode_b) ∷ []) true 0 ([], []) ([], codes "x")
      (codes "\"z\":null, \"B\":\"x\"},") (codes ",") object
      (parse_bytes-IsValid (codes "{\"z\":null, \"B\":\"x\"},")) refl refl (omega arith) refl
      (object_text BothStep (step_z ([], []), named_z ([], [])) (step_b, named_b))

-- The first field is left out, since it is empty.
abbrev to_a : FieldTo Pair
to_a = record {
  to_name = codes "a";
  encode = field_encode field_a strings.encode;
  omitempty = true;
  is_empty = field_is_empty field_a strings.is_empty;
  is_embedded_nil = λ s. false;
}

abbrev to_b : FieldTo Pair
to_b = record {
  to_name = codes "B";
  encode = field_encode field_b strings.encode;
  omitempty = true;
  is_empty = field_is_empty field_b strings.is_empty;
  is_embedded_nil = λ s. false;
}

one_kept : Members ([], codes "x") (to_a ∷ to_b ∷ []) ((codes "B", codes "\"x\"") ∷ [])
unfolding field_is_empty string_codec quoted jsoniter.Text.Write.safe_set
one_kept = inl (
  inl (refl, refl),
  inr (
    codes "\"x\"",
    [],
    (inr refl, refl),
    refl,
    field_encode-Prints field_b strings.encode ([], codes "x") (codes "\"x\"")
        (string_codec-Prints unicode (λ n. []) (codes "x")),
    refl,
  ),
)

struct_encode-Prints_example :
    struct_encode typ (to_a ∷ to_b ∷ []) ([], codes "x") (flat none (codes "["))
    ≡ flat none (codes "[{\"B\":\"x\"}")
unfolding quoted jsoniter.Text.Write.safe_set
struct_encode-Prints_example =
    struct_encode-Prints ([], codes "x") typ (to_a ∷ to_b ∷ []) ((codes "B", codes "\"x\"") ∷ [])
      one_kept none (codes "[")

decode_struct-struct_encode_example :
    Decodes
      ([], codes "x")
      (codes ",")
      (pos 0)
      (decode_struct typ skips unicode
        (λ n. [])
        lower
        (λ s. s)
        false
        true
        (create_struct_decoder lower false false fields)
        ([], [])
        (parse_bytes (codes "{\"B\":\"x\"},")))
unfolding parse_bytes struct_encode jsoniter.Codec.Defs.wrap_stream_error
    jsoniter.Stream.Defs.write_object_end jsoniter.Struct.Encode.encode_fields leaves_out
    field_is_empty string_codec field_encode jsoniter.Text.Write.write_string
    jsoniter.Text.Write.write_object_field jsoniter.Stream.Defs.write_object_start new_stream
decode_struct-struct_encode_example =
    decode_struct-struct_encode skips lower false typ unicode (λ n. []) (λ s. s) (to_a ∷ to_b ∷ [])
      (codes "a", decode_a) ((codes "b", decode_b) ∷ []) true 0 ([], codes "x") ([], [])
      ([], codes "x") ((codes "B", codes "\"x\"") ∷ []) none (codes ",")
      (parse_bytes (codes "{\"B\":\"x\"},")) one_kept
      (([], codes "x"), (refl, tt), (step_b, named_b), refl)
      (parse_bytes-IsValid (codes "{\"B\":\"x\"},")) refl refl (omega arith) refl
