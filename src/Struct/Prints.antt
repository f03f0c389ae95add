-- ===== src/Struct/Prints.antt =====
-- The text that a struct's encoder appends, where there is no indention.
use jsoniter.Base.{
  ◌≡◌, refl, sym, ap, ◌∙◌, Bool, true, false, ◌&&◌, ◌||◌, Option, List, [], ◌∷◌, ◌++◌, append_assoc,
  append-nil, Bytes, ◌⊎◌, inl, inr, if◌then◌else◌,
}
use jsoniter.Stream.Defs.{
  Writer, Stream, write_byte, write_more, write_object_start, write_object_end,
}
use jsoniter.Text.Write.{write_object_field, write_string}
use jsoniter.Text.Print.{quoted, put_string-quoted}
use jsoniter.Codec.Defs.{wrap_stream_error}
use jsoniter.Codec.Flat.{
  flat, Prints, wrap_stream_error-flat, comma, comma-flat, write_object_start-flat,
  write_object_end-flat,
}
use jsoniter.Struct.Defs.{StructType}
use jsoniter.Struct.Encode.{FieldTo, leaves_out, encode_fields, struct_encode}

-- A name with its colon.
abbrev named : Bytes → Bytes
named name = b'"' ∷ (quoted name ++ b':' ∷ [])

write_object_field-Prints : (name : Bytes) → Prints write_object_field name (named name)
unfolding write_object_field write_string write_byte
write_object_field-Prints name out buf = ap (flat out) (
    ap (λ y. y ++ b':' ∷ []) (put_string-quoted name buf)
    ∙ append_assoc buf (b'"' ∷ quoted name) (b':' ∷ []))

-- The members of an object, as encoding/json writes them: `later` if there are others before.
abbrev pub member : Bytes × Bytes → Bytes
member (name, x) = b'"' ∷ (quoted name ++ b':' ∷ x)

abbrev pub members : Bool → List (Bytes × Bytes) → Bytes
members later [] = []
members false (m ∷ ms) = member m ++ members true ms
members true (m ∷ ms) = b',' ∷ member m ++ members true ms

abbrev pub object_text : List (Bytes × Bytes) → Bytes
object_text ms = b'{' ∷ members false ms ++ b'}' ∷ []

member-text :
    (later : Bool) (name x buf : Bytes) (rest : List (Bytes × Bytes))
    → (((buf ++ comma later) ++ named name) ++ x) ++ members true rest
      ≡ buf ++ members later ((name, x) ∷ rest)
member-text true name x buf rest = simp append_assoc
member-text false name x buf rest = simp (append_assoc, append-nil)

-- A field that is not written: it is to be left out where it is empty, and is empty, or it stands in
-- an embedded struct whose pointer is nil.
abbrev pub IsLeftOut : {S : Type 0} → FieldTo S → S → Type 0
IsLeftOut f s = ((f.omitempty ≡ true) × (f.is_empty s ≡ true)) ⊎ (f.is_embedded_nil s ≡ true)

abbrev pub IsWritten : {S : Type 0} → FieldTo S → S → Type 0
IsWritten f s = ((f.omitempty ≡ false) ⊎ (f.is_empty s ≡ false)) × (f.is_embedded_nil s ≡ false)

leaves_out-IsLeftOut : {S : Type 0} (f : FieldTo S) (s : S) → IsLeftOut f s → leaves_out f s ≡ true
unfolding leaves_out
leaves_out-IsLeftOut f s (inl (p, q)) = rw (p, q) refl
leaves_out-IsLeftOut f s (inr p) =
    rw p (elim (f.omitempty && f.is_empty s) as (λ x. (x || true) ≡ true) [
      | true ↦ refl
      | false ↦ refl
    ])

leaves_out-IsWritten : {S : Type 0} (f : FieldTo S) (s : S) → IsWritten f s → leaves_out f s ≡ false
unfolding leaves_out
leaves_out-IsWritten f s (inl p, q) = rw (p, q) refl
leaves_out-IsWritten f s (inr p, q) =
    rw (p, q)
      (elim f.omitempty as (λ x. ((x && false) || false) ≡ false) [ true ↦ refl | false ↦ refl ])

-- The members for the struct `s`: the fields that are not left out, in their order.
abbrev pub Members : {S : Type 0} → S → List (FieldTo S) → List (Bytes × Bytes) → Type 0
Members s [] ms = ms ≡ []
Members s (f ∷ fs) ms =
    (IsLeftOut f s × Members s fs ms)
    ⊎ ((x : Bytes) × (rest : List (Bytes × Bytes)) × IsWritten f s
        × (ms ≡ (f.to_name, x) ∷ rest)
        × Prints f.encode s x
        × Members s fs rest)

module _ {S : Type 0} (s : S) where
  encode_fields-skip :
      (later : Bool) (f : FieldTo S) (fs : List (FieldTo S)) (st : Stream)
      → leaves_out f s ≡ true
      → encode_fields later (f ∷ fs) s st ≡ encode_fields later fs s st
  unfolding encode_fields
  encode_fields-skip later f fs st e = rw e refl

  encode_fields-keep :
      (later : Bool) (f : FieldTo S) (fs : List (FieldTo S)) (st : Stream)
      → leaves_out f s ≡ false
      → encode_fields later (f ∷ fs) s st
        ≡ encode_fields true fs s
            (f.encode s (write_object_field f.to_name (if later then write_more st else st)))
  unfolding encode_fields
  encode_fields-keep later f fs st e = rw e refl

  encode_fields-Members :
      (later : Bool) (fs : List (FieldTo S)) (ms : List (Bytes × Bytes)) (out : Option Writer)
      (buf : Bytes)
      → Members s fs ms
      → encode_fields later fs s (flat out buf) ≡ flat out (buf ++ members later ms)
  unfolding encode_fields
  encode_fields-Members later [] ms out buf e =
      ap (flat out) (sym (append-nil buf) ∙ ap (λ y. buf ++ members later y) (sym e))
  encode_fields-Members later (f ∷ fs) ms out buf (inl (e, d)) =
      encode_fields-skip later f fs (flat out buf) (leaves_out-IsLeftOut f s e)
      ∙ encode_fields-Members later fs ms out buf d
  encode_fields-Members later (f ∷ fs) ms out buf (inr (x, rest, e, m, p, d)) =
      let front = (buf ++ comma later) ++ named f.to_name in
      encode_fields-keep later f fs (flat out buf) (leaves_out-IsWritten f s e)
      ∙ ap (λ st. encode_fields true fs s (f.encode s (write_object_field f.to_name st)))
          (comma-flat later out buf)
      ∙ ap (λ st. encode_fields true fs s (f.encode s st))
          (write_object_field-Prints f.to_name out (buf ++ comma later))
      ∙ ap (encode_fields true fs s) (p out front)
      ∙ encode_fields-Members true fs rest out (front ++ x) d
      ∙ ap (flat out)
          (member-text later f.to_name x buf rest ∙ ap (λ y. buf ++ members later y) (sym m))

  struct_encode_lem :
      (typ : StructType) (fs : List (FieldTo S)) (st : Stream)
      → struct_encode typ fs s st
        ≡ wrap_stream_error typ.printed
            (write_object_end (encode_fields false fs s (write_object_start st)))
  unfolding struct_encode
  struct_encode_lem typ fs st = refl

  -- On a stream without indention and without an error structEncoder appends an object whose
  -- members are, in their order and with commas between them, all fields but those that have
  -- omitempty and are empty and those that are in an embedded nil pointer, each under its
  -- quoted name with the text that its encoder appends, and it changes nothing else of the
  -- stream.
  pub struct_encode-Prints :
      (typ : StructType) (fs : List (FieldTo S)) (ms : List (Bytes × Bytes))
      → Members s fs ms
      → Prints (struct_encode typ fs) s (object_text ms)
  struct_encode-Prints typ fs ms d out buf =
      let opened = buf ++ b'{' ∷ [] in
      let all = opened ++ members false ms in
      struct_encode_lem typ fs (flat out buf)
      ∙ ap (λ st. wrap_stream_error typ.printed (write_object_end st))
          (ap (encode_fields false fs s) (write_object_start-flat out buf)
            ∙ encode_fields-Members false fs ms out opened d)
      ∙ ap (wrap_stream_error typ.printed) (write_object_end-flat out all)
      ∙ wrap_stream_error-flat typ.printed out (all ++ b'}' ∷ [])
      ∙ ap (flat out) (simp append_assoc)
