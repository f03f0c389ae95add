-- ===== src/Codec/MapTrip.antt =====
-- The encoder of maps with string keys, and the round trip.
use jsoniter.Base.{
  ℕ, ◌≡◌, refl, sym, ap, ◌∙◌, Bool, true, false, Option, some, none, List, [], ◌∷◌, ◌++◌,
  append_assoc, append-nil, Bytes, if◌then◌else◌,
}
use jsoniter.Base.Int.{pos}
use jsoniter.Iter.Defs.{Iterator}
use jsoniter.Iter.View.{remaining, IsValid}
use jsoniter.Text.Read.{Unicode}
use jsoniter.Text.Write.{write_string}
use jsoniter.Text.Print.{quoted, put_string-quoted, IsUnicode}
use jsoniter.Stream.Defs.{
  Stream, Writer, new_stream, write_nil, write_four_bytes, write_byte, write_more,
  write_object_start, write_object_end,
}
use jsoniter.Codec.Defs.{Decoder, Encoder}
use jsoniter.Codec.Native.{string_codec}
use jsoniter.Codec.Reads.{Decodes}
use jsoniter.Codec.Flat.{flat, comma, comma-flat, write_object_start-flat, write_object_end-flat}
use jsoniter.Codec.RoundTrip.{RoundTrips}
use jsoniter.Codec.Map.{map_decode, map_entries, map_encode}
use jsoniter.Codec.Maps.{map_text, first_byte, behind, merge, map_decode-text}

module _ {V : Type 0} (u : Unicode) (format_int : ℕ → Bytes) (law_u : IsUnicode u) (n : ℕ)
    (same : Bytes → Bytes → Bool) (zero_elem : V) (encode : Encoder V) (decode : Decoder V)
    (text : V → Bytes) (law : RoundTrips n encode decode text) where
  abbrev encode_key : Encoder Bytes
  encode_key = (string_codec u format_int).encode

  abbrev entries_text : Bool → List (Bytes × V) → Bytes
  entries_text later [] = []
  entries_text later ((k, v) ∷ es) =
      comma later ++ (b'"' ∷ (quoted k ++ b':' ∷ (text v ++ entries_text true es)))

  map_entries-colon :
      (later : Bool) (k : Bytes) (v : V) (es : List (Bytes × V)) (st : Stream) (out : Option Writer)
      (buf : Bytes)
      → encode_key k (if later then write_more st else st) ≡ flat out buf
      → map_entries encode_key encode later ((k, v) ∷ es) st
        ≡ map_entries encode_key encode true es (encode v (flat out (buf ++ b':' ∷ [])))
  unfolding map_entries write_byte
  map_entries-colon later k v es st out buf e = rw e refl

  key-flat :
      (k : Bytes) (out : Option Writer) (buf : Bytes)
      → encode_key k (flat out buf) ≡ flat out (buf ++ b'"' ∷ quoted k)
  unfolding string_codec write_string
  key-flat k out buf = ap (flat out) (put_string-quoted k buf)

  map_entries-flat :
      (later : Bool) (es : List (Bytes × V)) (out : Option Writer) (buf : Bytes)
      → map_entries encode_key encode later es (flat out buf)
        ≡ flat out (buf ++ entries_text later es)
  unfolding map_entries
  map_entries-flat later [] out buf = ap (flat out) (sym (append-nil buf))
  map_entries-flat later ((k, v) ∷ es) out buf =
      let front = (buf ++ comma later) ++ b'"' ∷ quoted k in
      let all = (front ++ b':' ∷ []) ++ text v in
      map_entries-colon later k v es (flat out buf) out front
        (ap (encode_key k) (comma-flat later out buf) ∙ key-flat k out (buf ++ comma later))
      ∙ ap (map_entries encode_key encode true es) (law.prints v out (front ++ b':' ∷ []))
      ∙ map_entries-flat true es out all
      ∙ ap (flat out) (simp append_assoc)

  map_encode_lem :
      (es : List (Bytes × V)) (st : Stream)
      → map_encode encode_key encode (some es) st
        ≡ write_object_end (map_entries encode_key encode false es (write_object_start st))
  unfolding map_encode
  map_encode_lem es st = refl

  map_encode-nil :
      (out : Option Writer)
      → (map_encode encode_key encode none (flat out [])).buf ≡ map_text text none []
  unfolding map_encode write_nil write_four_bytes
  map_encode-nil out = refl

  entries_text-behind :
      (es : List (Bytes × V)) (t : Bytes)
      → entries_text true es ++ b'}' ∷ t ≡ first_byte text es ∷ behind text es t
  entries_text-behind [] t = refl
  entries_text-behind ((k, v) ∷ es) t =
      let rest = entries_text true es in
      ap (λ (y : Bytes). b',' ∷ b'"' ∷ y)
        (append_assoc (quoted k) (b':' ∷ (text v ++ rest)) (b'}' ∷ t)
          ∙ ap (λ y. quoted k ++ b':' ∷ y)
              (append_assoc (text v) rest (b'}' ∷ t)
                ∙ ap (λ y. text v ++ y) (entries_text-behind es t)))

  entries_text-map_text :
      (es : List (Bytes × V)) (t : Bytes)
      → b'{' ∷ (entries_text false es ++ b'}' ∷ t) ≡ map_text text (some es) t
  entries_text-map_text [] t = refl
  entries_text-map_text ((k, v) ∷ es) t =
      let rest = entries_text true es in
      ap (λ (y : Bytes). b'{' ∷ b'"' ∷ y)
        (append_assoc (quoted k) (b':' ∷ (text v ++ rest)) (b'}' ∷ t)
          ∙ ap (λ y. quoted k ++ b':' ∷ y)
              (append_assoc (text v) rest (b'}' ∷ t)
                ∙ ap (λ y. text v ++ y) (entries_text-behind es t)))

  map_encode-text :
      (m : Option (List (Bytes × V))) (out : Option Writer) (t : Bytes)
      → (map_encode encode_key encode m (flat out [])).buf ++ t ≡ map_text text m t
  map_encode-text none out t = ap (λ (y : Bytes). y ++ t) (map_encode-nil out)
  map_encode-text (some es) out t =
      let opened = b'{' ∷ [] in
      let all = opened ++ entries_text false es in
      ap (λ (st : Stream). st.buf ++ t)
        (map_encode_lem es (flat out [])
          ∙ ap (λ st. write_object_end (map_entries encode_key encode false es st))
              (write_object_start-flat out [])
          ∙ ap write_object_end (map_entries-flat false es out opened)
          ∙ write_object_end-flat out all)
      ∙ append_assoc all (b'}' ∷ []) t
      ∙ entries_text-map_text es t

  -- For a map with string keys whose values have a codec that, at the depth n, reads each
  -- value from the text it appends to a stream without indention and without an error, where
  -- the text starts with neither white space nor a closing bracket: mapDecoder on an iterator
  -- in bounds and without an error, at the depth n, over any chunks, whose remaining bytes
  -- are what mapEncoder appends to a new stream without indention and then t, leaves t, no
  -- error and the depth, and the map that it finds with every entry stored in it in their
  -- order, or a new one if it finds nil; a nil map gives nil. Of Go's packages it takes that
  -- utf16.IsSurrogate is false below 0xd800 and that a rune below 128 is written as its one
  -- byte.
  pub map_decode-map_encode :
      (m old : Option (List (Bytes × V))) (out : Option Writer) (t : Bytes) (it : Iterator)
      → IsValid it
      → it.error ≡ none
      → it.depth ≡ pos n
      → remaining it
        ≡ (map_encode (string_codec u format_int).encode encode m (new_stream 0 out)).buf ++ t
      → Decodes
          (merge same m old)
          t
          (pos n)
          (map_decode same [] zero_elem (string_codec u format_int).decode decode old it)
  unfolding new_stream
  map_decode-map_encode m old out t it valid clear depth e =
      map_decode-text u format_int law_u n same zero_elem encode decode text law m old t it
        (record { valid = valid; remains = e ∙ map_encode-text m out t }) clear depth
