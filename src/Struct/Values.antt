-- ===== src/Struct/Values.antt =====
-- The values of fields: strings, structs, and what is skipped.
use jsoniter.Base.{
  ℕ, ◌+◌, ◌<◌, ◌≡◌, ◌⊎◌, refl, sym, ap, ◌∙◌, Bool, false, some, List, [], ◌∷◌, ◌++◌, Bytes,
}
use jsoniter.Iter.Defs.{Iterator, max_depth}
use jsoniter.Iter.Token.{token}
use jsoniter.Text.Read.{Unicode}
use jsoniter.Text.Spells.{Spells}
use jsoniter.Text.Loop.{read_string-Spells}
use jsoniter.Float.Defs.{Floats}
use jsoniter.Object.Fields.{ObjectBody}
use jsoniter.Strict.Append.{token-append, Follows-Ends, ObjectBody-append}
use jsoniter.Strict.Defs.{skip}
use jsoniter.Strict.Json.{skip-Json}
use jsoniter.Strict.Value.{Json}
use jsoniter.Codec.Defs.{Decoder, wrap_error}
use jsoniter.Codec.Native.{string_codec}
use jsoniter.Codec.Slice.{wrap_error_clear}
use jsoniter.Codec.Reads.{Takes}
use jsoniter.Struct.Defs.{StructType, StructField, field_decode}
use jsoniter.Struct.Create.{create_struct_decoder, decode_struct}
use jsoniter.Struct.Names.{Spells-before}
use jsoniter.Struct.Hashed.{Skips}
use jsoniter.Struct.Chosen.{EitherStep, create_struct_decoder-EitherStep}

pub skip-Skips :
    (format_int : ℕ → Bytes) (f32 f64 : Floats) {B : Type 0} (parse_big : ℕ → Bytes → B ⊎ ℕ)
    (m n : ℕ) (x : Bytes)
    → Json f32 f64 m x
    → n + 1 + m < max_depth
    → Skips (skip format_int f32 f64 parse_big) n x
skip-Skips format_int f32 f64 parse_big m n x j h t it after sees clear depth =
    skip-Json format_int f32 f64 parse_big m (n + 1) x t it j (Follows-Ends t after) h sees.valid
      clear depth sees.remains

pub string_codec-Takes :
    (u : Unicode) (format_int : ℕ → Bytes) (n : ℕ) (old x raw v : Bytes)
    → token x ≡ some (b'"', raw)
    → Spells u raw v []
    → Takes (string_codec u format_int).decode n old x v
unfolding string_codec
string_codec-Takes u format_int n old x raw v e d t it after sees clear depth =
    let y =
      read_string-Spells u format_int it (raw ++ t) v t sees.valid clear
        (ap token sees.remains ∙ token-append x t e) (Spells-before t d) in
    record { value = y.text; seen = y.seen; clear = y.clear; same_depth = y.same_depth }

module _ {S A : Type 0} (field : StructField S A) (decode : Decoder A) where
  field_decode_lem :
      (s : S) (it : Iterator)
      → field_decode field decode s it ≡ (
        field.set (decode (field.get s) it).0 s,
        wrap_error field.field_name (decode (field.get s) it).1,
      )
  unfolding field_decode
  field_decode_lem s it = refl

  pub field_decode-Takes :
      (n : ℕ) (s : S) (x : Bytes) (v : A)
      → Takes decode n (field.get s) x v
      → Takes (field_decode field decode) n s x (field.set v s)
  field_decode-Takes n s x v takes t it after sees clear depth =
      let y = takes t it after sees clear depth in
      rw
        (
          field_decode_lem s it,
          y.value,
          wrap_error_clear field.field_name (decode (field.get s) it).1 y.clear,
        )
        (record { value = refl; seen = y.seen; clear = y.clear; same_depth = y.same_depth })

-- A struct in a struct.
pub create_struct_decoder-Takes :
    (skip_value : Iterator → Iterator) (to_lower : Bytes → Bytes) (case_sensitive : Bool)
    (typ : StructType) (u : Unicode) (format_int : ℕ → Bytes) (runes : Bytes → Bytes) {S : Type 0}
    (f : Bytes × Decoder S) (fs : List (Bytes × Decoder S)) (simple_names : Bool) (n : ℕ) (s s' : S)
    (x body : Bytes)
    → n < max_depth
    → token x ≡ some (b'{', body)
    → ObjectBody
        (EitherStep skip_value to_lower case_sensitive typ u format_int runes simple_names
          (f ∷ fs)
          n)
        s
        body
        s'
        []
    → Takes
        (decode_struct typ skip_value u format_int to_lower runes case_sensitive simple_names
          (create_struct_decoder to_lower case_sensitive false (f ∷ fs)))
        n
        s
        x
        s'
create_struct_decoder-Takes skip_value to_lower case_sensitive typ u format_int runes f fs
      simple_names n s s' x body h e d t it after sees clear depth =
    let y =
      create_struct_decoder-EitherStep skip_value to_lower case_sensitive typ u format_int runes f
        fs simple_names n s s' (body ++ t) t it sees.valid clear depth h
        (ap token sees.remains ∙ token-append x t e) (ObjectBody-append t d) in
    record {
      value = y.value;
      seen = y.seen;
      clear = y.clear;
      same_depth = y.same_depth ∙ sym depth;
    }
