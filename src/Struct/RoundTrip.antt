-- ===== src/Struct/RoundTrip.antt =====
-- What a struct's encoder appends, read by a struct's decoder.
use jsoniter.Base.{
  ℕ, ◌<◌, ◌≡◌, refl, sym, ap, ◌∙◌, subst, Bool, true, false, Option, some, none, List, [], ◌∷◌,
  ◌++◌, append_assoc, Bytes, All,
}
use jsoniter.Base.Int.{pos}
use jsoniter.Iter.Defs.{Iterator, max_depth}
use jsoniter.Iter.View.{remaining, IsValid}
use jsoniter.Iter.Token.{token}
use jsoniter.Stream.Defs.{Stream, Writer, new_stream}
use jsoniter.Text.Read.{Unicode}
use jsoniter.Text.Print.{quoted, put_string-quoted}
use jsoniter.Text.Write.{write_string}
use jsoniter.RoundTrip.Field.{IsPlain, quoted_plain}
use jsoniter.Raw.Body.{Body, close, plain}
use jsoniter.Object.Fields.{Fields, ObjectBody}
use jsoniter.Codec.Defs.{Decoder, Encoder, wrap_stream_error}
use jsoniter.Codec.Reads.{Decodes}
use jsoniter.Codec.Flat.{flat, Prints}
use jsoniter.Codec.Native.{string_codec}
use jsoniter.Struct.Defs.{StructType, StructField}
use jsoniter.Struct.Create.{create_struct_decoder, decode_struct}
use jsoniter.Struct.Encode.{FieldTo, field_encode, struct_encode}
use jsoniter.Struct.Prints.{Members, members, object_text, struct_encode-Prints}
use jsoniter.Struct.Chosen.{EitherStep, create_struct_decoder-EitherStep}

-- The members one after the other take the struct `s` to `s'`.
abbrev pub Steps :
    {S : Type 0} → (S → Bytes → Bytes → S → Type 0) → S → List (Bytes × Bytes) → S → Type 0
Steps R s [] s' = s ≡ s'
Steps R s ((name, x) ∷ ms) s' =
    (s1 : _) × All IsPlain name × R s (name ++ b'"' ∷ []) x s1 × Steps R s1 ms s'

plain-Body : (name t : Bytes) → All IsPlain name → Body (name ++ b'"' ∷ t) (name ++ b'"' ∷ []) t
plain-Body [] t a = close refl
plain-Body (c ∷ name) t (p, a) = plain c (name ++ b'"' ∷ t) refl p (plain-Body name t a)

-- A member behind its first quote.
member-Body :
    (name x rest : Bytes)
    → All IsPlain name
    → Body ((quoted name ++ b':' ∷ x) ++ rest) (name ++ b'"' ∷ []) (b':' ∷ (x ++ rest))
member-Body name x rest a =
    subst (λ y. Body y (name ++ b'"' ∷ []) (b':' ∷ (x ++ rest)))
      (sym (append_assoc (quoted name) (b':' ∷ x) rest ∙ quoted_plain name (b':' ∷ (x ++ rest)) a))
      (plain-Body name (b':' ∷ (x ++ rest)) a)

module _ {S : Type 0} (R : S → Bytes → Bytes → S → Type 0) where
  members-Fields :
      (s s' : S) (ms : List (Bytes × Bytes)) (t : Bytes)
      → Steps R s ms s'
      → Fields R s (members true ms ++ b'}' ∷ t) s' t
  members-Fields s s' [] t e = subst (λ y. Fields R s (b'}' ∷ t) y t) e (Fields.close refl)
  members-Fields s s' ((name, x) ∷ ms) t (s1, a, r, d) =
      let rest = members true ms ++ b'}' ∷ t in
      Fields.more _ _ (name ++ b'"' ∷ []) (b':' ∷ (x ++ rest)) x rest refl refl
        (subst (λ y. Body y (name ++ b'"' ∷ []) (b':' ∷ (x ++ rest)))
          (sym (append_assoc (quoted name ++ b':' ∷ x) (members true ms) (b'}' ∷ t)))
          (member-Body name x rest a))
        refl r (members-Fields s1 s' ms t d)

  members-ObjectBody :
      (s s' : S) (ms : List (Bytes × Bytes)) (t : Bytes)
      → Steps R s ms s'
      → ObjectBody R s (members false ms ++ b'}' ∷ t) s' t
  members-ObjectBody s s' [] t e =
      subst (λ y. ObjectBody R s (b'}' ∷ t) y t) e (ObjectBody.empty refl)
  members-ObjectBody s s' ((name, x) ∷ ms) t (s1, a, r, d) =
      let rest = members true ms ++ b'}' ∷ t in
      ObjectBody.first _ (name ++ b'"' ∷ []) (b':' ∷ (x ++ rest)) x rest refl
        (subst (λ y. Body y (name ++ b'"' ∷ []) (b':' ∷ (x ++ rest)))
          (sym (append_assoc (quoted name ++ b':' ∷ x) (members true ms) (b'}' ∷ t)))
          (member-Body name x rest a))
        refl r (members-Fields s1 s' ms t d)

-- Let structEncoder encode a struct v to a new stream without indention, where the fields
-- that are not left out append the texts ms under names of bytes that WriteString does not
-- escape. For an iterator in bounds and without an error, at a depth n below maxDepth, over
-- any chunks, whose remaining bytes are what was appended and then t: Decode of the decoder
-- that createStructDecoder makes, of any number of fields but none, with unknown fields
-- allowed, takes the struct s to s' and leaves t, no error and the depth n, where the
-- members ms take s to s' one after the other: the field of the member's name reads its
-- text, or, for a name that no field has, under its hash or under its name, Skip passes
-- over it.
pub decode_struct-struct_encode :
    (skip_value : Iterator → Iterator) (to_lower : Bytes → Bytes) (case_sensitive : Bool)
    (typ : StructType) (u : Unicode) (format_int : ℕ → Bytes) (runes : Bytes → Bytes) {S : Type 0}
    (fs : List (FieldTo S)) (d : Bytes × Decoder S) (ds : List (Bytes × Decoder S))
    (simple_names : Bool) (n : ℕ) (v s s' : S) (ms : List (Bytes × Bytes)) (out : Option Writer)
    (t : Bytes) (it : Iterator)
    → Members v fs ms
    → Steps
        (EitherStep skip_value to_lower case_sensitive typ u format_int runes simple_names
          (d ∷ ds)
          n)
        s
        ms
        s'
    → IsValid it
    → it.error ≡ none
    → it.depth ≡ pos n
    → n < max_depth
    → remaining it ≡ (struct_encode typ fs v (new_stream 0 out)).buf ++ t
    → Decodes s' t (pos n) (
        decode_struct typ skip_value u format_int to_lower runes case_sensitive simple_names
          (create_struct_decoder to_lower case_sensitive false (d ∷ ds))
          s
          it)
unfolding new_stream
decode_struct-struct_encode skip_value to_lower case_sensitive typ u format_int runes fs d ds
      simple_names n v s s' ms out t it m steps valid clear depth h e =
    let R =
      EitherStep skip_value to_lower case_sensitive typ u format_int runes simple_names (d ∷ ds)
        n in
    let text : remaining it ≡ object_text ms ++ t =
      e ∙ ap (λ (st : Stream). st.buf ++ t) (struct_encode-Prints v typ fs ms m out []) in
    let body : (members false ms ++ b'}' ∷ []) ++ t ≡ members false ms ++ b'}' ∷ t =
      append_assoc (members false ms) (b'}' ∷ []) t in
    create_struct_decoder-EitherStep skip_value to_lower case_sensitive typ u format_int runes d ds
      simple_names n s s' (members false ms ++ b'}' ∷ t) t it valid clear depth h
      (ap token text ∙ ap (λ y. some (b'{', y)) body) (members-ObjectBody R s s' ms t steps)

pub string_codec-Prints :
    (u : Unicode) (format_int : ℕ → Bytes) (v : Bytes)
    → Prints (string_codec u format_int).encode v (b'"' ∷ quoted v)
unfolding string_codec write_string
string_codec-Prints u format_int v out buf = ap (flat out) (put_string-quoted v buf)

pub field_encode-Prints :
    {S A : Type 0} (field : StructField S A) (encode : Encoder A) (s : S) (x : Bytes)
    → Prints encode (field.get s) x
    → Prints (field_encode field encode) s x
unfolding field_encode wrap_stream_error
field_encode-Prints field encode s x p out buf = ap (wrap_stream_error field.field_name) (p out buf)
