-- ===== src/Struct/Named.antt =====
-- The decoders of structs that find a field by its name.
use jsoniter.Base.{
  ℕ, zero, suc, ◌+◌, ◌<◌, ◌≡◌, refl, sym, ◌∙◌, Bool, false, some, none, List, ◌++◌, Bytes, length,
  arith,
}
use jsoniter.Base.Int.{ℤ, pos}
use jsoniter.Iter.Defs.{Iterator, next_token}
use jsoniter.Iter.View.{Sees}
use jsoniter.Text.Read.{Unicode}
use jsoniter.Array.Elements.{token-Took, token-length}
use jsoniter.Object.Fields.{Fields, close, more}
use jsoniter.Codec.Defs.{Decoder}
use jsoniter.Codec.Reads.{Decodes, Takes}
use jsoniter.Struct.General.{read_name, find_field, decode_one_field, general_loop, expect_colon}
use jsoniter.Struct.Lookup.{FieldOf, NoField, find_field-FieldOf, find_field-NoField}
use jsoniter.Struct.Names.{IsName, expect_colon-ColonRead, read_name-NameRead}
use jsoniter.Struct.Fields.{FieldText, FieldText-length, ReadsField}
use jsoniter.Struct.Hashed.{Skips}

module _ (skip_value : Iterator → Iterator) (u : Unicode) (format_int : ℕ → Bytes)
    (to_lower : Bytes → Bytes) (case_sensitive simple_names : Bool) where
  -- What a field does to the struct: one that is found under its name is decoded, and another one
  -- is skipped.
  pub data Step {S : Type 0} (fields : List (Bytes × Decoder S)) (n : ℕ) (s : S) (b x : Bytes)
      (s' : S) : Type 0 where
    found :
        (name : Bytes) (decode : Decoder S)
        → IsName u simple_names name b
        → FieldOf to_lower case_sensitive fields name decode
        → Takes decode (n + 1) s x s'
        → Step fields n s b x s'
    skipped :
        (name : Bytes)
        → IsName u simple_names name b
        → NoField to_lower case_sensitive fields name
        → Skips skip_value n x
        → s' ≡ s
        → Step fields n s b x s'

  module _ {S : Type 0} (fields : List (Bytes × Decoder S)) where
    abbrev one_field : Decoder S
    one_field =
        decode_one_field skip_value u format_int to_lower case_sensitive simple_names false fields

    abbrev name_at : Iterator → Bytes × Iterator
    name_at = read_name u format_int simple_names

    one_field-found :
        (s : S) (it : Iterator) (name : Bytes) (decode : Decoder S)
        → (name_at it).0 ≡ name
        → find_field to_lower case_sensitive fields name ≡ some decode
        → one_field s it ≡ decode s (expect_colon (name_at it).1)
    unfolding decode_one_field
    one_field-found s it name decode e f = rw (decode_one_field, e, f) refl

    one_field-skipped :
        (s : S) (it : Iterator) (name : Bytes)
        → (name_at it).0 ≡ name
        → find_field to_lower case_sensitive fields name ≡ none
        → one_field s it ≡ (s, skip_value (expect_colon (name_at it).1))
    unfolding decode_one_field
    one_field-skipped s it name e f = rw (decode_one_field, e, f) refl

    one_field-ReadsField : (n : ℕ) → ReadsField (Step fields n) n one_field
    one_field-ReadsField n s s' b x raw t it (found name decode p e takes) f after sees clear
          depth =
        let y = read_name-NameRead u format_int simple_names name b x raw t it p f sees clear in
        let z =
          expect_colon-ColonRead f.colon (x ++ t) it.depth (name_at it).1 y.seen y.clear
            y.same_depth f.value in
        let w = takes t (expect_colon (name_at it).1) after z.seen z.clear (z.same_depth ∙ depth) in
        rw
          (one_field-found s it name decode y.text
            (find_field-FieldOf to_lower case_sensitive fields name decode e))
          (record {
            value = w.value;
            seen = w.seen;
            clear = w.clear;
            same_depth = w.same_depth ∙ z.same_depth;
          })
    one_field-ReadsField n s s' b x raw t it (skipped name p e skips same) f after sees clear
          depth =
        let y = read_name-NameRead u format_int simple_names name b x raw t it p f sees clear in
        let z =
          expect_colon-ColonRead f.colon (x ++ t) it.depth (name_at it).1 y.seen y.clear
            y.same_depth f.value in
        let w = skips t (expect_colon (name_at it).1) after z.seen z.clear (z.same_depth ∙ depth) in
        rw
          (one_field-skipped s it name y.text
            (find_field-NoField to_lower case_sensitive fields name e))
          (record {
            value = sym same;
            seen = w.seen;
            clear = w.clear;
            same_depth = w.same_depth ∙ z.same_depth;
          })

    abbrev rounds : ℕ → S → Iterator → S × ℕ × Iterator
    rounds = general_loop skip_value u format_int to_lower case_sensitive simple_names false fields

    general_loop-comma :
        (fuel : ℕ) (s : S) (it : Iterator)
        → (next_token (one_field s it).1).0 ≡ b','
        → rounds (suc fuel) s it ≡ rounds fuel (one_field s it).0 (next_token (one_field s it).1).1
    unfolding general_loop
    general_loop-comma fuel s it e = rw e refl

    general_loop-last :
        (fuel : ℕ) (s : S) (it : Iterator)
        → (next_token (one_field s it).1).0 ≡ b'}'
        → rounds (suc fuel) s it ≡ ((one_field s it).0, b'}', (next_token (one_field s it).1).1)
    unfolding general_loop
    general_loop-last fuel s it e = rw e refl

    -- The loop has ended with the closing brace.
    pub record Closed (s : S) (t : Bytes) (d : ℤ) (r : S × ℕ × Iterator) : Type 0 where
      pub byte : r.1 ≡ b'}'
      pub turned : Decodes s t d (r.0, r.2)

    pub general_loop-Fields :
        (n fuel : ℕ) (s s1 s' : S) (b x raw rest t : Bytes) (it : Iterator)
        → Step fields n s b x s1
        → FieldText b x raw rest
        → Fields (Step fields n) s1 rest s' t
        → length rest < fuel
        → Sees raw it
        → it.error ≡ none
        → it.depth ≡ pos (n + 1)
        → Closed s' t (pos (n + 1)) (rounds fuel s it)
    general_loop-Fields n zero s s1 s' b x raw rest t it r f d h sees clear depth =
        absurd (omega arith)
    general_loop-Fields n (suc fuel) s s1 s' b x raw rest t it r f (close q) h sees clear depth =
        let y =
          one_field-ReadsField n s s1 b x raw rest it r f (b'}', t, q, refl) sees clear depth in
        let it1 = (one_field s it).1 in
        let took = token-Took b'}' t rest it1 y.seen q in
        rw (general_loop-last fuel s it took.byte) (record {
          byte = refl;
          turned = record {
            value = y.value;
            seen = took.seen;
            clear = took.same_error ∙ y.clear;
            same_depth = took.same_depth ∙ y.same_depth ∙ depth;
          };
        })
    general_loop-Fields n (suc fuel) s s1 s' b x raw rest t it r f
          (more {s1 = s2} r' name b' colon x' next q q1 body q3 step d) h sees clear depth =
        let y =
          one_field-ReadsField n s s1 b x raw rest it r f (b',', r', q, refl) sees clear depth in
        let it1 = (one_field s it).1 in
        let took = token-Took b',' r' rest it1 y.seen q in
        let f' : FieldText b' x' r' next = record {
          name = name;
          colon = colon;
          quote = q1;
          body = body;
          value = q3;
        } in
        rw (general_loop-comma fuel s it took.byte, y.value)
          (general_loop-Fields n fuel s1 s2 s' b' x' r' next t (next_token it1).1 step f' d
            (omega (arith, h, token-length rest b',' r' q, FieldText-length f')) took.seen
            (took.same_error ∙ y.clear) (took.same_depth ∙ y.same_depth ∙ depth))
