-- ===== src/Object/Fields.antt =====
-- ReadObjectRawCB on the text of an object, for a callback that reads the values.
use jsoniter.Base.{
  ℕ, zero, suc, ◌+◌, ◌<◌, ◌≡◌, refl, sym, ap, ◌∙◌, subst, inl, inr, Bool, true, false, none, some,
  ◌++◌, Bytes, length, length-append, if◌then◌else◌, arith, Bool-cases,
}
use jsoniter.Base.Int.{ℤ, pos}
use jsoniter.Iter.Defs.{Iterator, next_token, increment_depth, max_depth, is_next_token_buffered}
use jsoniter.Iter.View.{remaining, IsValid, Sees}
use jsoniter.Iter.Token.{token, Took, Takes, next_token-Takes}
use jsoniter.Array.Defs.{close_array}
use jsoniter.Array.Elements.{
  Collects, Follows, with_depth-Sees, increment_depth_lem, close_array-Collects, token-Took,
  token-length, token-byte, token-rest,
}
use jsoniter.Raw.Defs.{RawString, view_in, realize, read_raw_string, read_raw_string_inner}
use jsoniter.Raw.Body.{Body}
use jsoniter.Raw.Marks.{Marked}
use jsoniter.Raw.Loop.{ReadsRaw, read_raw_string-ReadsRaw, read_raw_string_inner-ReadsRaw}
use jsoniter.Object.Defs.{after_name, object_loop, read_fields, read_object_raw_cb}
use jsoniter.Object.Buffered.{is_next_token_buffered-Skims, next_token-is_next_token_buffered}

-- The name has the body `b`, and an unset flag means that it has no escapes.
pub record Named (b : Bytes) (rs : RawString) : Type 0 where
  pub body : rs.buf ≡ some b
  pub marked : Marked rs.has_escapes b

-- A copy stays whatever is loaded behind it.
realize-Named :
    (b : Bytes) (rs : RawString) (it now : Iterator)
    → Named b rs
    → Named b (view_in it (realize rs) now)
unfolding realize view_in
realize-Named b rs it now n = elim (Bool-cases rs.is_raw) [
  | inl e ↦ rw (e, n.body) (record { body = refl; marked = n.marked })
  | inr e ↦ rw (e, n.body) (record { body = refl; marked = n.marked })
]

-- A view stays while the buffer does.
view_in-Named :
    (b t : Bytes) (d : ℤ) (rs : RawString) (it now : Iterator)
    → ReadsRaw b t d (rs, it)
    → now.buf ≡ it.buf
    → Named b (view_in it rs now)
unfolding view_in
view_in-Named b t d rs it now x same = elim (Bool-cases rs.is_raw) [
  | inl e ↦ rw (x.body, e, same) (record { body = ap some (x.viewed e); marked = x.marked })
  | inr e ↦ rw (x.body, e) (record { body = refl; marked = x.marked })
]

-- A name has been read and a token `c` behind it, and `rest` remains.
record Passes (b : Bytes) (c : ℕ) (rest : Bytes) (d : ℤ) (r : (Iterator → RawString) × ℕ × Iterator)
    : Type 0 where
  named : Named b (r.0 r.2)
  byte : r.1 ≡ c
  seen : Sees rest r.2
  clear : r.2.error ≡ none
  same_depth : r.2.depth ≡ d

after_name-Passes :
    (b t rest : Bytes) (c : ℕ) (d : ℤ) (r : RawString × Iterator)
    → ReadsRaw b t d r
    → token t ≡ some (c, rest)
    → Passes b c rest d (after_name r)
unfolding after_name
after_name-Passes b t rest c d (rs, it) x e =
    let k = is_next_token_buffered-Skims it x.seen.valid in
    let it1 = (is_next_token_buffered it).1 in
    let took : Took c rest it1 (next_token it1) =
      subst (λ o. Takes o it1 (next_token it1)) (k.same_token ∙ ap token x.seen.remains ∙ e)
        (next_token-Takes it1 k.valid) in
    record {
      named =
          choose (is_next_token_buffered it).0
            (λ f. (next_token-is_next_token_buffered it x.seen.valid f).0);
      byte = took.byte;
      seen = took.seen;
      clear = took.same_error ∙ k.same_error ∙ x.clear;
      same_depth = took.same_depth ∙ k.same_depth ∙ x.same_depth;
    }
  where
    now : Iterator
    now = (next_token (is_next_token_buffered it).1).1

    choose :
        (f : Bool)
        → (f ≡ true → now.buf ≡ it.buf)
        → Named b (view_in it (if f then rs else realize rs) now)
    choose true h = view_in-Named b t d rs it now x (h refl)
    choose false h = realize-Named b rs it now (record { body = x.body; marked = x.marked })

-- Commas and fields up to the closing brace: a name with the body `b`, a colon, and the text `x`,
-- where `R s b x s'` says that the field takes the state `s` to `s'`.
pub data Fields {S : Type 0} (R : S → Bytes → Bytes → S → Type 0)
    : S → Bytes → S → Bytes → Type 0 where
  close : {s : S} {raw t : Bytes} → token raw ≡ some (b'}', t) → Fields R s raw s t
  more :
      {s s1 s2 : S} {raw t : Bytes} (r name b colon x rest : Bytes)
      → token raw ≡ some (b',', r)
      → token r ≡ some (b'"', name)
      → Body name b colon
      → token colon ≡ some (b':', x ++ rest)
      → R s b x s1
      → Fields R s1 rest s2 t
      → Fields R s raw s2 t

pub Fields-token :
    {S : Type 0} {R : S → Bytes → Bytes → S → Type 0} {s s' : S} {raw t : Bytes}
    → Fields R s raw s' t
    → Follows raw
Fields-token (close {t = t} q) = (b'}', t, q, refl)
Fields-token (more r name b colon x rest q q1 q2 q3 h d) = (b',', r, q, refl)

pub Body-length : {raw b t : Bytes} → Body raw b t → length t < length raw
Body-length (Body.close q) = omega (arith, ap length q)
Body-length (Body.plain c r q p d) = omega (arith, ap length q, Body-length d)
Body-length (Body.letter e v r q p d) = omega (arith, ap length q, Body-length d)
Body-length (Body.rune h1 h2 h3 h4 v r q h d) = omega (arith, ap length q, Body-length d)

module _ (format_int : ℕ → Bytes) {S : Type 0}
    (callback : Iterator → (Iterator → RawString) → S → Bool × Iterator × S) where
  object_loop-close :
      (fuel c : ℕ) (it : Iterator) (s : S)
      → c ≡ b'}'
      → object_loop format_int callback (suc fuel) c it s ≡ close_array it s
  unfolding object_loop
  object_loop-close fuel c it s e = rw e refl

  object_loop-comma :
      (fuel c : ℕ) (it it1 : Iterator) (rs : Iterator → RawString) (s : S)
      → c ≡ b','
      → after_name (read_raw_string format_int it) ≡ (rs, b':', it1)
      → (callback it1 rs s).0 ≡ true
      → object_loop format_int callback (suc fuel) c it s
        ≡ object_loop format_int callback fuel
            (next_token (callback it1 rs s).1).0
            (next_token (callback it1 rs s).1).1
            (callback it1 rs s).2
  unfolding object_loop
  object_loop-comma fuel c it it1 rs s e f ok = rw (e, f, ok) refl

  read_fields-close :
      (it : Iterator) (s : S)
      → (next_token it).0 ≡ b'}'
      → read_fields format_int callback it s ≡ close_array (next_token it).1 s
  unfolding read_fields
  read_fields-close it s e = rw e refl

  read_fields-name :
      (it it1 : Iterator) (rs : Iterator → RawString) (s : S)
      → (next_token it).0 ≡ b'"'
      → after_name (read_raw_string_inner format_int (next_token it).1) ≡ (rs, b':', it1)
      → (callback it1 rs s).0 ≡ true
      → read_fields format_int callback it s
        ≡ object_loop format_int callback
            (length (remaining (callback it1 rs s).1) + 1)
            (next_token (callback it1 rs s).1).0
            (next_token (callback it1 rs s).1).1
            (callback it1 rs s).2
  unfolding read_fields
  read_fields-name it it1 rs s e f ok = rw (e, f, ok) refl

  read_object_raw_cb-open :
      (it it2 : Iterator) (s : S)
      → (next_token it).0 ≡ b'{'
      → increment_depth (next_token it).1 ≡ (true, it2)
      → read_object_raw_cb format_int callback it s ≡ read_fields format_int callback it2 s
  unfolding read_object_raw_cb
  read_object_raw_cb-open it it2 s e f = rw (e, f) refl

-- What stands behind the opening brace.
pub data ObjectBody {S : Type 0} (R : S → Bytes → Bytes → S → Type 0)
    : S → Bytes → S → Bytes → Type 0 where
  empty : {s : S} {raw t : Bytes} → token raw ≡ some (b'}', t) → ObjectBody R s raw s t
  first :
      {s s1 s2 : S} {raw t : Bytes} (name b colon x rest : Bytes)
      → token raw ≡ some (b'"', name)
      → Body name b colon
      → token colon ≡ some (b':', x ++ rest)
      → R s b x s1
      → Fields R s1 rest s2 t
      → ObjectBody R s raw s2 t

module _ (format_int : ℕ → Bytes) {S : Type 0}
    (callback : Iterator → (Iterator → RawString) → S → Bool × Iterator × S)
    (R : S → Bytes → Bytes → S → Type 0) (n : ℕ)
    (law : (s s' : S) (b x t : Bytes) (rs : Iterator → RawString) (it : Iterator)
      → R s b x s'
      → Named b (rs it)
      → Follows t
      → Sees (x ++ t) it
      → it.error ≡ none
      → it.depth ≡ pos (n + 1)
      → Collects s' t it.depth (callback it rs s)) where
  object_loop-Fields :
      (fuel c : ℕ) (s s' : S) (raw rest t : Bytes) (it : Iterator)
      → Fields R s raw s' t
      → token raw ≡ some (c, rest)
      → length raw < fuel
      → Sees rest it
      → it.error ≡ none
      → it.depth ≡ pos (n + 1)
      → Collects s' t (pos n) (object_loop format_int callback fuel c it s)
  object_loop-Fields zero c s s' raw rest t it d e h sees clear depth = absurd (omega arith)
  object_loop-Fields (suc fuel) c s s' raw rest t it (close q) e h sees clear depth =
      rw (object_loop-close format_int callback fuel c it s (token-byte raw c b'}' rest t e q)) (
        close_array-Collects s t n it
          (subst (λ y. Sees y it) (token-rest raw c b'}' rest t e q) sees) clear depth)
  object_loop-Fields (suc fuel) c s s' raw rest t it
        (more {s1 = s1} r name b colon x next q q1 body q3 step d) e h sees clear depth =
      let same : rest ≡ r = token-rest raw c b',' rest r e q in
      let y =
        read_raw_string-ReadsRaw format_int it name b colon sees.valid clear
          (ap token (sees.remains ∙ same) ∙ q1) body in
      let p =
        after_name-Passes b colon (x ++ next) b':' it.depth (read_raw_string format_int it) y q3 in
      let (rs, _, it1) = after_name (read_raw_string format_int it) in
      let (c', rest', e', one) = Fields-token d in
      let z =
        law s s1 b x next rs it1 step p.named (c', rest', e', one) p.seen p.clear
          (p.same_depth ∙ depth) in
      let took = token-Took c' rest' next (callback it1 rs s).1 z.seen e' in
      rw
        (
          object_loop-comma format_int callback fuel c it it1 rs s
              (token-byte raw c b',' rest r e q) (λ i. (rs, p.byte i, it1)) z.success,
          took.byte,
          z.state,
        )
        (object_loop-Fields fuel c' s1 s' next rest' t (next_token (callback it1 rs s).1).1 d e'
          (omega (
            arith,
            h,
            token-length raw b',' r q,
            token-length r b'"' name q1,
            Body-length body,
            token-length colon b':' (x ++ next) q3,
            length-append x next,
          ))
          took.seen (took.same_error ∙ z.clear) (took.same_depth ∙ z.depth ∙ p.same_depth ∙ depth))

  read_fields-ObjectBody :
      (s s' : S) (raw t : Bytes) (it : Iterator)
      → ObjectBody R s raw s' t
      → Sees raw it
      → it.error ≡ none
      → it.depth ≡ pos (n + 1)
      → Collects s' t (pos n) (read_fields format_int callback it s)
  read_fields-ObjectBody s s' raw t it (empty q) sees clear depth =
      let took = token-Took b'}' t raw it sees q in
      rw (read_fields-close format_int callback it s took.byte) (
        close_array-Collects s t n (next_token it).1 took.seen (took.same_error ∙ clear)
          (took.same_depth ∙ depth))
  read_fields-ObjectBody s s' raw t it (first {s1 = s1} name b colon x rest q body q3 step d) sees
        clear depth =
      let took = token-Took b'"' name raw it sees q in
      let it0 = (next_token it).1 in
      let y =
        read_raw_string_inner-ReadsRaw format_int it0 b colon took.seen.valid
          (took.same_error ∙ clear) (subst (λ z. Body z b colon) (sym took.seen.remains) body) in
      let p =
        after_name-Passes b colon (x ++ rest) b':' it0.depth (read_raw_string_inner format_int it0)
          y q3 in
      let (rs, _, it1) = after_name (read_raw_string_inner format_int it0) in
      let (c', rest', e', one) = Fields-token d in
      let z =
        law s s1 b x rest rs it1 step p.named (c', rest', e', one) p.seen p.clear
          (p.same_depth ∙ took.same_depth ∙ depth) in
      let took' = token-Took c' rest' rest (callback it1 rs s).1 z.seen e' in
      rw
        (
          read_fields-name format_int callback it it1 rs s took.byte (λ i. (rs, p.byte i, it1))
              z.success,
          took'.byte,
          z.state,
        )
        (object_loop-Fields (length (remaining (callback it1 rs s).1) + 1) c' s1 s' rest rest' t
          (next_token (callback it1 rs s).1).1 d e' (omega (arith, ap length z.seen.remains))
          took'.seen (took'.same_error ∙ z.clear)
          (took'.same_depth ∙ z.depth ∙ p.same_depth ∙ took.same_depth ∙ depth))

  -- For a callback that reads any value x of a field with the name b of which R says that it
  -- takes the state s to s', before a comma or a closing bracket, at the depth n + 1, leaving
  -- what follows, the depth and no error, when its RawString has the name's bytes as long as
  -- nothing more is read: ReadObjectRawCB on an iterator in bounds, without an error, at a
  -- depth n below maxDepth, over any chunks, whose remaining bytes are the text of an object
  -- and then t, returns true, leaves t, no error and the depth it had, and has called the
  -- callback on the fields in their order, each name with its bytes still there when the
  -- callback starts, though the chunk behind it may have been loaded over the buffer.
  pub read_object_raw_cb-ObjectBody :
      (s s' : S) (body t : Bytes) (it : Iterator)
      → IsValid it
      → it.error ≡ none
      → it.depth ≡ pos n
      → n < max_depth
      → token (remaining it) ≡ some (b'{', body)
      → ObjectBody R s body s' t
      → Collects s' t (pos n) (read_object_raw_cb format_int callback it s)
  read_object_raw_cb-ObjectBody s s' body t it v clear depth h e d =
      let took = token-Took b'{' body (remaining it) it (record { valid = v; remains = refl }) e in
      let it1 = (next_token it).1 in
      rw
        (read_object_raw_cb-open format_int callback it (record it1 { depth = pos (n + 1) }) s
          took.byte (increment_depth_lem it1 n (took.same_depth ∙ depth) h))
        (read_fields-ObjectBody s s' body t (record it1 { depth = pos (n + 1) }) d
          (with_depth-Sees (pos (n + 1)) took.seen) (took.same_error ∙ clear) refl)
