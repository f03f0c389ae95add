-- ===== src/Struct/Whole.antt =====
-- The decoder of structs that finds a field by its name, on a whole object.
use jsoniter.Base.{
  ℕ, ◌+◌, ◌<◌, ◌≡◌, refl, ap, Bool, true, false, some, none, List, [], ◌∷◌, Bytes, length, ◌==◌,
  if◌then◌else◌, arith,
}
use jsoniter.Base.Int.{pos}
use jsoniter.Iter.Defs.{Iterator, report_error, increment_depth, decrement_depth, max_depth}
use jsoniter.Iter.View.{remaining, IsValid}
use jsoniter.Iter.Token.{token}
use jsoniter.Skip.Literal.{read_object_start}
use jsoniter.Text.Read.{Unicode}
use jsoniter.Array.Elements.{with_depth-Sees, decrement_depth_lem}
use jsoniter.Object.Fields.{ObjectBody, empty, first}
use jsoniter.Codec.Defs.{Decoder}
use jsoniter.Codec.Reads.{Decodes}
use jsoniter.Struct.Defs.{StructType, wrap_struct_error}
use jsoniter.Struct.General.{general_loop, general_decode}
use jsoniter.Struct.Open.{read_object_start-Opened, read_object_start-Decodes}
use jsoniter.Struct.Fields.{FieldText, FieldText-length, wrap_struct_error_clear}
use jsoniter.Struct.Named.{Step, Closed, general_loop-Fields}

-- The end of Decode, behind the loop.
abbrev ending : {S : Type 0} → StructType → S × ℕ × Iterator → S × Iterator
ending typ (s, c, it) =
    let it1 = wrap_struct_error typ it in
    (
      s,
      (decrement_depth (
          if c == b'}'
          then it1
          else report_error "struct Decode" "expect }, but found " (c ∷ []) it1)).1,
    )

module _ (skip_value : Iterator → Iterator) (u : Unicode) (format_int : ℕ → Bytes)
    (to_lower : Bytes → Bytes) (case_sensitive simple_names : Bool) {S : Type 0}
    (fields : List (Bytes × Decoder S)) (typ : StructType) where
  abbrev whole : Decoder S
  whole =
      general_decode skip_value u format_int to_lower case_sensitive simple_names false fields typ

  abbrev loop : ℕ → S → Iterator → S × ℕ × Iterator
  loop = general_loop skip_value u format_int to_lower case_sensitive simple_names false fields

  general_decode-empty :
      (s : S) (it it1 : Iterator) → read_object_start it ≡ (false, it1) → whole s it ≡ (s, it1)
  unfolding general_decode
  general_decode-empty s it it1 e = rw e refl

  general_decode-first :
      (s : S) (it it1 it2 : Iterator)
      → read_object_start it ≡ (true, it1)
      → increment_depth it1 ≡ (true, it2)
      → whole s it ≡ ending typ (loop (length (remaining it2) + 1) s it2)
  unfolding general_decode
  general_decode-first s it it1 it2 e f = rw (e, f) refl

  ending-Decodes :
      (n : ℕ) (s : S) (t : Bytes) (r : S × ℕ × Iterator)
      → Closed skip_value u format_int to_lower case_sensitive simple_names fields s t
          (pos (n + 1))
          r
      → Decodes s t (pos n) (ending typ r)
  ending-Decodes n s t r d =
      rw
        (
          d.byte,
          wrap_struct_error_clear typ r.2 d.turned.clear,
          decrement_depth_lem r.2 n d.turned.same_depth,
        )
        (record {
          value = d.turned.value;
          seen = with_depth-Sees (pos n) d.turned.seen;
          clear = d.turned.clear;
          same_depth = refl;
        })

  -- generalStructDecoder with unknown fields allowed, on an iterator in bounds, without an
  -- error, at a depth n below maxDepth, over any chunks, whose remaining bytes are the text
  -- of an object and then t, leaves t, no error and the depth n, and the struct as the
  -- members make it one after the other. A member's name is what ReadString decodes, with no
  -- surrogate escapes, or with objectFieldMustBeSimpleString its bytes; the field of that
  -- name reads the value, or, where there is none and the case does not count, the field of
  -- its lower case, and where there is neither Skip passes over the value; the fields and
  -- Skip are taken to read these values and to leave what follows, no error and the depth.
  pub general_decode-ObjectBody :
      (n : ℕ) (s s' : S) (body t : Bytes) (it : Iterator)
      → IsValid it
      → it.error ≡ none
      → it.depth ≡ pos n
      → n < max_depth
      → token (remaining it) ≡ some (b'{', body)
      → ObjectBody
          (Step skip_value u format_int to_lower case_sensitive simple_names fields n)
          s
          body
          s'
          t
      → Decodes s' t (pos n) (
          general_decode skip_value u format_int to_lower case_sensitive simple_names false fields
            typ s it)
  general_decode-ObjectBody n s s' body t it v clear depth h e (empty q) =
      let (it1, p, d) = read_object_start-Decodes n body it v clear depth h e s t q in
      rw (general_decode-empty s it it1 p) d
  general_decode-ObjectBody n s s' body t it v clear depth h e
        (first {s1 = s1} name b colon x rest q text q3 step d) =
      let o = read_object_start-Opened n body it v clear depth h e name q in
      let f : FieldText b x (b'"' ∷ name) rest = record {
        name = name;
        colon = colon;
        quote = refl;
        body = text;
        value = q3;
      } in
      rw (general_decode-first s it o.inside o.deeper o.started o.deep) (
        ending-Decodes n s' t (loop (length (remaining o.deeper) + 1) s o.deeper) (
          general_loop-Fields skip_value u format_int to_lower case_sensitive simple_names fields n
            (length (remaining o.deeper) + 1) s s1 s' b x (b'"' ∷ name) rest t o.deeper step f d
            (omega (arith, ap length o.seen.remains, FieldText-length f)) o.seen o.clear o.depth))
