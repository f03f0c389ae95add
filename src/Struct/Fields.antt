-- ===== src/Struct/Fields.antt =====
-- The loop over the fields of an object, for a decoder of one field.
use jsoniter.Base.{
  ℕ, zero, suc, ◌+◌, ◌<◌, ◌≡◌, refl, ap, ◌∙◌, true, false, some, none, ◌∷◌, ◌++◌, Bytes, length,
  length-append, arith,
}
use jsoniter.Base.Int.{pos}
use jsoniter.Iter.Defs.{Iterator, next_token, increment_depth, decrement_depth, max_depth}
use jsoniter.Iter.View.{remaining, IsValid, Sees}
use jsoniter.Iter.Token.{token}
use jsoniter.Skip.Literal.{is_object_end, read_object_start}
use jsoniter.Array.Elements.{
  Follows, with_depth-Sees, decrement_depth_lem, token-Took, token-length,
}
use jsoniter.Raw.Body.{Body}
use jsoniter.Object.Fields.{Fields, close, more, Body-length, ObjectBody, empty, first}
use jsoniter.Codec.Defs.{Decoder}
use jsoniter.Codec.Reads.{Decodes}
use jsoniter.Struct.Open.{read_object_start-Opened, read_object_start-Decodes}
use jsoniter.Struct.Defs.{StructType, wrap_struct_error, fields_loop, fields_decode}

is_object_end-comma :
    (it : Iterator) → (next_token it).0 ≡ b',' → is_object_end it ≡ (false, (next_token it).1)
unfolding is_object_end
is_object_end-comma it e = rw e refl

is_object_end-brace :
    (it : Iterator) → (next_token it).0 ≡ b'}' → is_object_end it ≡ (true, (next_token it).1)
unfolding is_object_end
is_object_end-brace it e = rw e refl

pub wrap_struct_error_clear :
    (typ : StructType) (it : Iterator) → it.error ≡ none → wrap_struct_error typ it ≡ it
unfolding wrap_struct_error
wrap_struct_error_clear typ it e = ground arith

module _ {S : Type 0} (field : Decoder S) where
  fields_loop-last :
      (fuel : ℕ) (s : S) (it it1 : Iterator)
      → is_object_end (field s it).1 ≡ (true, it1)
      → fields_loop field (suc fuel) s it ≡ ((field s it).0, it1)
  unfolding fields_loop
  fields_loop-last fuel s it it1 e = rw e refl

  fields_loop-comma :
      (fuel : ℕ) (s : S) (it it1 : Iterator)
      → is_object_end (field s it).1 ≡ (false, it1)
      → fields_loop field (suc fuel) s it ≡ fields_loop field fuel (field s it).0 it1
  unfolding fields_loop
  fields_loop-comma fuel s it it1 e = rw e refl

  module _ (typ : StructType) where
    fields_decode-empty :
        (s : S) (it it1 : Iterator)
        → read_object_start it ≡ (false, it1)
        → fields_decode field typ s it ≡ (s, it1)
    unfolding fields_decode
    fields_decode-empty s it it1 e = rw e refl

    fields_decode-first :
        (s : S) (it it1 it2 : Iterator)
        → read_object_start it ≡ (true, it1)
        → increment_depth it1 ≡ (true, it2)
        → fields_decode field typ s it ≡ (
          (fields_loop field (length (remaining it2) + 1) s it2).0,
          (decrement_depth
              (wrap_struct_error typ (fields_loop field (length (remaining it2) + 1) s it2).1)).1,
        )
    unfolding fields_decode
    fields_decode-first s it it1 it2 e f = rw (e, f) refl

-- The text of a field: its name has the body `b`, and its value is before `rest`.
pub record FieldText (b x raw rest : Bytes) : Type 0 where
  pub name : Bytes
  pub colon : Bytes
  pub quote : token raw ≡ some (b'"', name)
  pub body : Body name b colon
  pub value : token colon ≡ some (b':', x ++ rest)

pub FieldText-length : {b x raw rest : Bytes} → FieldText b x raw rest → length rest < length raw
FieldText-length {x = x} {raw = raw} {rest = rest} d = omega (
  arith,
  token-length raw b'"' d.name d.quote,
  Body-length d.body,
  token-length d.colon b':' (x ++ rest) d.value,
  length-append x rest,
)

-- The decoder of one field reads each field of which `R` says that it takes the struct to another.
abbrev pub ReadsField : {S : Type 0} → (S → Bytes → Bytes → S → Type 0) → ℕ → Decoder S → Type 0
ReadsField R n field =
    (s s' : _) (b x raw t : Bytes) (it : Iterator)
    → R s b x s'
    → FieldText b x raw t
    → Follows t
    → Sees raw it
    → it.error ≡ none
    → it.depth ≡ pos (n + 1)
    → Decodes s' t it.depth (field s it)

module _ {S : Type 0} (field : Decoder S) (R : S → Bytes → Bytes → S → Type 0) (n : ℕ)
    (law : ReadsField R n field) where
  fields_loop-Fields :
      (fuel : ℕ) (s s1 s' : S) (b x raw rest t : Bytes) (it : Iterator)
      → R s b x s1
      → FieldText b x raw rest
      → Fields R s1 rest s' t
      → length rest < fuel
      → Sees raw it
      → it.error ≡ none
      → it.depth ≡ pos (n + 1)
      → Decodes s' t (pos (n + 1)) (fields_loop field fuel s it)
  fields_loop-Fields zero s s1 s' b x raw rest t it r f d h sees clear depth = absurd (omega arith)
  fields_loop-Fields (suc fuel) s s1 s' b x raw rest t it r f (close q) h sees clear depth =
      let y = law s s1 b x raw rest it r f (b'}', t, q, refl) sees clear depth in
      let it1 = (field s it).1 in
      let took = token-Took b'}' t rest it1 y.seen q in
      rw (fields_loop-last field fuel s it (next_token it1).1 (is_object_end-brace it1 took.byte))
        (record {
          value = y.value;
          seen = took.seen;
          clear = took.same_error ∙ y.clear;
          same_depth = took.same_depth ∙ y.same_depth ∙ depth;
        })
  fields_loop-Fields (suc fuel) s s1 s' b x raw rest t it r f
        (more {s1 = s2} r' name b' colon x' next q q1 body q3 step d) h sees clear depth =
      let y = law s s1 b x raw rest it r f (b',', r', q, refl) sees clear depth in
      let it1 = (field s it).1 in
      let took = token-Took b',' r' rest it1 y.seen q in
      let f' : FieldText b' x' r' next = record {
        name = name;
        colon = colon;
        quote = q1;
        body = body;
        value = q3;
      } in
      rw
        (
          fields_loop-comma field fuel s it (next_token it1).1 (is_object_end-comma it1 took.byte),
          y.value,
        )
        (fields_loop-Fields fuel s1 s2 s' b' x' r' next t (next_token it1).1 step f' d
          (omega (arith, h, token-length rest b',' r' q, FieldText-length f')) took.seen
          (took.same_error ∙ y.clear) (took.same_depth ∙ y.same_depth ∙ depth))

  left :
      (typ : StructType) (s : S) (t : Bytes) (r : S × Iterator)
      → Decodes s t (pos (n + 1)) r
      → Decodes s t (pos n) (r.0, (decrement_depth (wrap_struct_error typ r.1)).1)
  left typ s t r d =
      rw (wrap_struct_error_clear typ r.1 d.clear, decrement_depth_lem r.1 n d.same_depth)
        (record {
          value = d.value;
          seen = with_depth-Sees (pos n) d.seen;
          clear = d.clear;
          same_depth = refl;
        })

  pub fields_decode-ObjectBody :
      (typ : StructType) (s s' : S) (body t : Bytes) (it : Iterator)
      → IsValid it
      → it.error ≡ none
      → it.depth ≡ pos n
      → n < max_depth
      → token (remaining it) ≡ some (b'{', body)
      → ObjectBody R s body s' t
      → Decodes s' t (pos n) (fields_decode field typ s it)
  fields_decode-ObjectBody typ s s' body t it v clear depth h e (empty q) =
      let (it1, p, d) = read_object_start-Decodes n body it v clear depth h e s t q in
      rw (fields_decode-empty field typ s it it1 p) d
  fields_decode-ObjectBody typ s s' body t it v clear depth h e
        (first {s1 = s1} name b colon x rest q text q3 step d) =
      let o = read_object_start-Opened n body it v clear depth h e name q in
      let f : FieldText b x (b'"' ∷ name) rest = record {
        name = name;
        colon = colon;
        quote = refl;
        body = text;
        value = q3;
      } in
      rw (fields_decode-first field typ s it o.inside o.deeper o.started o.deep) (
        left typ s' t (fields_loop field (length (remaining o.deeper) + 1) s o.deeper) (
          fields_loop-Fields (length (remaining o.deeper) + 1) s s1 s' b x (b'"' ∷ name) rest t
            o.deeper step f d (omega (arith, ap length o.seen.remains, FieldText-length f)) o.seen
            o.clear o.depth))
