-- ===== src/Codec/Slice.antt =====
-- The slice decoder on the text of an array.
use jsoniter.Base.{
  ℕ, zero, suc, ◌+◌, ◌<◌, ◌≡◌, ◌≢◌, refl, sym, ap, ◌∙◌, subst, false, Option, some, none, List, [],
  ◌∷◌, ◌++◌, Bytes, length, length-append, ◌==◌, arith,
}
use jsoniter.Iter.Defs.{Iterator, next_token, unread_byte}
use jsoniter.Iter.View.{remaining, IsValid, Sees}
use jsoniter.Iter.Token.{token, unread_byte-Sees}
use jsoniter.Array.Elements.{
  Elements, Elements-token, close, more, token-Took, token-length, token-byte, token-rest,
}
use jsoniter.Array.Whole.{Body, empty, first}
use jsoniter.Base.Int.{ℤ, pos}
use jsoniter.Strict.Append.{token-append, Whole-append}
use jsoniter.Iter.Rounds.{unread_byte-depth}
use jsoniter.Codec.Reads.{Decodes, Takes}
use jsoniter.Codec.Defs.{Decoder, in_context, wrap_error, slice_loop, slice_do_decode, slice_decode}

-- Whatever value it finds, the decoder reads `v` from the text `x`.
abbrev pub Reads : {A : Type 0} → Decoder A → ℕ → Bytes → A → Type 0
Reads decode n x v = (old : _) → Takes decode n old x v

-- The text `x` is that of one more element.
abbrev pub Appended : {A : Type 0} → Decoder A → ℕ → List A → Bytes → List A → Type 0
Appended decode n vs x vs' = (v : _) × (vs' ≡ vs ++ v ∷ []) × Reads decode n x v

pub wrap_error_clear : (name : Bytes) (it : Iterator) → it.error ≡ none → wrap_error name it ≡ it
unfolding wrap_error
wrap_error_clear name it e = λ i. record it { error = (ap (in_context name) e ∙ sym e) i }

at_depth :
    {A : Type 0} {v : A} {t : Bytes} {d e : ℤ} {r : A × Iterator}
    → d ≡ e
    → Decodes v t d r
    → Decodes v t e r
at_depth p x = record {
  value = x.value;
  seen = x.seen;
  clear = x.clear;
  same_depth = x.same_depth ∙ p;
}

module _ {A : Type 0} (name : Bytes) (grown : ℕ → A) (decode : Decoder A) where
  slice_loop-close :
      (fuel c : ℕ) (vs : List A) (it : Iterator)
      → c ≡ b']'
      → slice_loop name grown decode (suc fuel) c vs it ≡ (vs, it)
  unfolding slice_loop
  slice_loop-close fuel c vs it e = rw e refl

  slice_loop-comma :
      (fuel c : ℕ) (vs : List A) (it : Iterator)
      → c ≡ b','
      → slice_loop name grown decode (suc fuel) c vs it
        ≡ slice_loop name grown decode fuel
            (next_token (decode (grown (length vs)) it).1).0
            (vs ++ (decode (grown (length vs)) it).0 ∷ [])
            (next_token (decode (grown (length vs)) it).1).1
  unfolding slice_loop
  slice_loop-comma fuel c vs it e = rw e refl

  slice_loop-Elements :
      (n fuel c : ℕ) (vs vs' : List A) (raw rest t : Bytes) (it : Iterator)
      → Elements (Appended decode n) vs raw vs' t
      → token raw ≡ some (c, rest)
      → length raw < fuel
      → Sees rest it
      → it.error ≡ none
      → it.depth ≡ pos n
      → Decodes vs' t it.depth (slice_loop name grown decode fuel c vs it)
  slice_loop-Elements n zero c vs vs' raw rest t it d e h sees clear depth = absurd (omega arith)
  slice_loop-Elements n (suc fuel) c vs vs' raw rest t it (close q) e h sees clear depth =
      rw (slice_loop-close fuel c vs it (token-byte raw c b']' rest t e q)) (record {
        value = refl;
        seen = subst (λ y. Sees y it) (token-rest raw c b']' rest t e q) sees;
        clear = clear;
        same_depth = refl;
      })
  slice_loop-Elements n (suc fuel) c vs vs' raw rest t it (more {s1 = s1} x next q (v, f, r) d) e h
        sees clear depth =
      let same = token-rest raw c b',' rest (x ++ next) e q in
      let (c', rest', e', one) = Elements-token d in
      let y =
        r (grown (length vs)) next it (c', rest', e', one) (subst (λ z. Sees z it) same sees) clear
          depth in
      let it1 = (decode (grown (length vs)) it).1 in
      let took = token-Took c' rest' next it1 y.seen e' in
      rw
        (
          slice_loop-comma fuel c vs it (token-byte raw c b',' rest (x ++ next) e q),
          took.byte,
          y.value,
          ← f,
        )
        (at_depth (took.same_depth ∙ y.same_depth) (
          slice_loop-Elements n fuel c' s1 vs' next rest' t (next_token it1).1 d e'
            (omega (arith, token-length raw c rest e, ap length same, length-append x next))
            took.seen (took.same_error ∙ y.clear) (took.same_depth ∙ y.same_depth ∙ depth)))

  slice_do_decode-close :
      (old : Option (List A)) (it : Iterator)
      → (next_token it).0 ≡ b'['
      → (next_token (next_token it).1).0 ≡ b']'
      → slice_do_decode name grown decode old it ≡ (some [], (next_token (next_token it).1).1)
  unfolding slice_do_decode
  slice_do_decode-close old it e f = rw (e, f) refl

  -- The state behind the opening bracket, with the first element's first byte put back.
  abbrev first_at : Iterator → Iterator
  first_at it = unread_byte (next_token (next_token it).1).1

  slice_do_decode-first :
      (old : Option (List A)) (it : Iterator) (c : ℕ)
      → (next_token it).0 ≡ b'['
      → (next_token (next_token it).1).0 ≡ c
      → c ≢ b']'
      → slice_do_decode name grown decode old it ≡ (
          let r = decode (grown 0) (first_at it) in
          let l =
            slice_loop name grown decode
              (length (remaining r.1) + 1)
              (next_token r.1).0
              (r.0 ∷ [])
              (next_token r.1).1 in
          (some l.0, l.1))
  unfolding slice_do_decode
  slice_do_decode-first old it c e f n =
      let other : (c == b']') ≡ false = ground (arith, n) in rw (e, f, other) refl

  some-Decodes :
      {vs : List A} {t : Bytes} {d : ℤ} {r : List A × Iterator}
      → Decodes vs t d r
      → Decodes (some vs) t d (some r.0, r.1)
  some-Decodes d = record {
    value = ap some d.value;
    seen = d.seen;
    clear = d.clear;
    same_depth = d.same_depth;
  }

  slice_do_decode-Body :
      (n : ℕ) (old : Option (List A)) (vs : List A) (body t : Bytes) (it it1 : Iterator)
      → Body (Appended decode n) [] body vs t
      → (next_token it).0 ≡ b'['
      → (next_token it).1 ≡ it1
      → Sees body it1
      → it1.error ≡ none
      → it1.depth ≡ pos n
      → Decodes (some vs) t it1.depth (slice_do_decode name grown decode old it)
  slice_do_decode-Body n old vs body t it it1 (empty q) e f sees clear depth =
      let took = token-Took b']' t body it1 sees q in
      rw (slice_do_decode-close old it e (ap (λ y. (next_token y).0) f ∙ took.byte), f)
        (record {
          value = refl;
          seen = took.seen;
          clear = took.same_error ∙ clear;
          same_depth = took.same_depth;
        })
  slice_do_decode-Body n old vs body t it it1
        (first {s1 = s1} c r x rest q other split (v, g, reads) d) e f sees clear depth =
      let took = token-Took c r body it1 sees q in
      let (seen, ok, _) = unread_byte-Sees took clear in
      let it2 = unread_byte (next_token it1).1 in
      let same : it2.depth ≡ it1.depth = unread_byte-depth (next_token it1).1 ∙ took.same_depth in
      let (c', rest', e', one) = Elements-token d in
      let y =
        reads (grown 0) rest it2 (c', rest', e', one) (subst (λ z. Sees z it2) split seen) ok
          (same ∙ depth) in
      let it3 = (decode (grown 0) it2).1 in
      let took' = token-Took c' rest' rest it3 y.seen e' in
      rw
        (
          slice_do_decode-first old it c e (ap (λ z. (next_token z).0) f ∙ took.byte) other,
          f,
          took'.byte,
          y.value,
          ← g,
        )
        (at_depth (took'.same_depth ∙ y.same_depth ∙ same) (
          some-Decodes (
            slice_loop-Elements n (length (remaining it3) + 1) c' s1 vs rest rest' t
              (next_token it3).1 d e' (omega (arith, ap length y.seen.remains)) took'.seen
              (took'.same_error ∙ y.clear) (took'.same_depth ∙ y.same_depth ∙ same ∙ depth))))

  pub wrapped-Decodes :
      {B : Type 0} {v : B} {t : Bytes} {d : ℤ} {r : B × Iterator}
      → Decodes v t d r
      → Decodes v t d (r.0, wrap_error name r.1)
  wrapped-Decodes {r = r} d =
      rw (wrap_error_clear name r.1 d.clear)
        (record { value = d.value; seen = d.seen; clear = d.clear; same_depth = d.same_depth })

  pub slice_decode_lem :
      (old : Option (List A)) (it : Iterator)
      → slice_decode name grown decode old it ≡ (
        (slice_do_decode name grown decode old it).0,
        wrap_error name (slice_do_decode name grown decode old it).1,
      )
  unfolding slice_decode
  slice_decode_lem old it = refl

  -- sliceDecoder on an iterator in bounds and without an error, at the depth n, over any
  -- chunks, whose remaining bytes are the text of an array and then t: it returns the slice
  -- of the elements in their order, whatever slice it finds, and leaves t, no error and the
  -- depth, provided that the element decoder reads each element at the depth n before a comma
  -- or a closing bracket.
  pub slice_decode-Body :
      (n : ℕ) (old : Option (List A)) (vs : List A) (body t : Bytes) (it : Iterator)
      → IsValid it
      → it.error ≡ none
      → it.depth ≡ pos n
      → token (remaining it) ≡ some (b'[', body)
      → Body (Appended decode n) [] body vs t
      → Decodes (some vs) t it.depth (slice_decode name grown decode old it)
  slice_decode-Body n old vs body t it v clear depth e d =
      let took = token-Took b'[' body (remaining it) it (record { valid = v; remains = refl }) e in
      rw (slice_decode_lem old it) (
        wrapped-Decodes (
          at_depth took.same_depth (
            slice_do_decode-Body n old vs body t it (next_token it).1 d took.byte refl took.seen
              (took.same_error ∙ clear) (took.same_depth ∙ depth))))

  -- An array in the text of a field or of an element.
  pub slice_decode-Takes :
      (n : ℕ) (old : Option (List A)) (x body : Bytes) (vs : List A)
      → token x ≡ some (b'[', body)
      → Body (Appended decode n) [] body vs []
      → Takes (slice_decode name grown decode) n old x (some vs)
  slice_decode-Takes n old x body vs e d t it after sees clear depth =
      slice_decode-Body n old vs (body ++ t) t it sees.valid clear depth
        (ap token sees.remains ∙ token-append x t e) (Whole-append t d)
