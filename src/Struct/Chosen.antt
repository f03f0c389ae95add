-- ===== src/Struct/Chosen.antt =====
-- The choice of a struct's decoder: whichever it is, it reads the fields.
use jsoniter.Base.{
  ℕ, suc, ◌<◌, ◌≤◌, ◌≡◌, ◌⊎◌, inl, inr, refl, ap, ◌∙◌, Bool, true, false, some, none, List, [], ◌∷◌,
  Bytes, length, leb, leb→le, arith, Bool-cases,
}
use jsoniter.Base.Int.{pos}
use jsoniter.Iter.Defs.{Iterator, max_depth}
use jsoniter.Iter.View.{remaining, IsValid}
use jsoniter.Iter.Token.{token}
use jsoniter.Text.Read.{Unicode}
use jsoniter.Object.Fields.{Fields, ObjectBody}
use jsoniter.Codec.Defs.{Decoder}
use jsoniter.Codec.Reads.{Decodes}
use jsoniter.Struct.Defs.{
  StructType, HashedField, hashed_field, hashed_decode, one_field_decode, two_fields_decode,
  three_fields_decode, four_fields_decode, five_fields_decode, six_fields_decode,
  seven_fields_decode, eight_fields_decode, nine_fields_decode, ten_fields_decode,
}
use jsoniter.Struct.Create
use jsoniter.Struct.Create.{
  StructDecoder, general, contains, free_slots, slots_decoder, hash_fields, create_struct_decoder,
  decode_struct,
}
use jsoniter.Struct.Fields.{fields_decode-ObjectBody}
use jsoniter.Struct.Slots.{Fresh, hashed, hash_of, hash_fields-round, hash_fields-Fresh}
use jsoniter.Struct.Hashed.{Step, hashed_field-ReadsField}
use jsoniter.Struct.Named
use jsoniter.Struct.Whole.{general_decode-ObjectBody}

Fields-map :
    {S : Type 0} {R R' : S → Bytes → Bytes → S → Type 0} {s s' : S} {raw t : Bytes}
    → ((s1 s2 : S) (b x : Bytes) → R s1 b x s2 → R' s1 b x s2)
    → Fields R s raw s' t
    → Fields R' s raw s' t
Fields-map f (Fields.close q) = Fields.close q
Fields-map f (Fields.more r name b colon x rest q q1 q2 q3 h d) =
    Fields.more r name b colon x rest q q1 q2 q3 (f _ _ b x h) (Fields-map f d)

ObjectBody-map :
    {S : Type 0} {R R' : S → Bytes → Bytes → S → Type 0} {s s' : S} {raw t : Bytes}
    → ((s1 s2 : S) (b x : Bytes) → R s1 b x s2 → R' s1 b x s2)
    → ObjectBody R s raw s' t
    → ObjectBody R' s raw s' t
ObjectBody-map f (ObjectBody.empty q) = ObjectBody.empty q
ObjectBody-map f (ObjectBody.first name b colon x rest q q2 q3 h d) =
    ObjectBody.first name b colon x rest q q2 q3 (f _ _ b x h) (Fields-map f d)

module _ (skip_value : Iterator → Iterator) (to_lower : Bytes → Bytes) (case_sensitive : Bool)
    (typ : StructType) (u : Unicode) (format_int : ℕ → Bytes) (runes : Bytes → Bytes)
    {S : Type 0} where
  -- The decoder that has the cases.
  abbrev Chosen : List (HashedField S) → Bool → Type 0
  Chosen cs simple_names =
      (d : StructDecoder S) × (slots_decoder cs ≡ some d)
      × (decode_struct typ skip_value u format_int to_lower runes case_sensitive simple_names d
          ≡ hashed_decode typ skip_value u format_int runes case_sensitive cs)

  slots_decoder-Chosen :
      (c : HashedField S) (cs : List (HashedField S)) (simple_names : Bool)
      → length (c ∷ cs) ≤ 10
      → Chosen (c ∷ cs) simple_names
  unfolding slots_decoder one_field_decode two_fields_decode three_fields_decode four_fields_decode
      five_fields_decode six_fields_decode seven_fields_decode eight_fields_decode
      nine_fields_decode ten_fields_decode
  slots_decoder-Chosen a [] q h = (Create.one_field a, refl, refl)
  slots_decoder-Chosen a (b ∷ []) q h = (Create.two_fields a b, refl, refl)
  slots_decoder-Chosen a (b ∷ c ∷ []) q h = (Create.three_fields a b c, refl, refl)
  slots_decoder-Chosen a (b ∷ c ∷ d ∷ []) q h = (Create.four_fields a b c d, refl, refl)
  slots_decoder-Chosen a (b ∷ c ∷ d ∷ e ∷ []) q h = (Create.five_fields a b c d e, refl, refl)
  slots_decoder-Chosen a (b ∷ c ∷ d ∷ e ∷ f ∷ []) q h = (Create.six_fields a b c d e f, refl, refl)
  slots_decoder-Chosen a (b ∷ c ∷ d ∷ e ∷ f ∷ g ∷ []) q h =
      (Create.seven_fields a b c d e f g, refl, refl)
  slots_decoder-Chosen a (b ∷ c ∷ d ∷ e ∷ f ∷ g ∷ k ∷ []) q h =
      (Create.eight_fields a b c d e f g k, refl, refl)
  slots_decoder-Chosen a (b ∷ c ∷ d ∷ e ∷ f ∷ g ∷ k ∷ i ∷ []) q h =
      (Create.nine_fields a b c d e f g k i, refl, refl)
  slots_decoder-Chosen a (b ∷ c ∷ d ∷ e ∷ f ∷ g ∷ k ∷ i ∷ j ∷ []) q h =
      (Create.ten_fields a b c d e f g k i j, refl, refl)
  slots_decoder-Chosen a (b ∷ c ∷ d ∷ e ∷ f ∷ g ∷ k ∷ i ∷ j ∷ l ∷ cs) q h = absurd (omega arith)

  length-hashed :
      (fields : List (Bytes × Decoder S))
      → length (hashed to_lower case_sensitive fields) ≡ length fields
  length-hashed [] = refl
  length-hashed ((k, d) ∷ fields) = ap suc (length-hashed fields)

  create_struct_decoder_lem :
      (f : Bytes × Decoder S) (fs : List (Bytes × Decoder S)) (d : StructDecoder S)
      → length (f ∷ fs) ≤ 10
      → Fresh to_lower case_sensitive (0 ∷ []) (f ∷ fs)
      → slots_decoder (hashed to_lower case_sensitive (f ∷ fs)) ≡ some d
      → create_struct_decoder to_lower case_sensitive false (f ∷ fs) ≡ d
  unfolding create_struct_decoder
  create_struct_decoder_lem f fs d h fresh e =
      let few : leb (length (f ∷ fs)) 10 ≡ true = ground (arith, h) in
      rw (create_struct_decoder, few, hash_fields-Fresh to_lower case_sensitive (f ∷ fs) fresh, e)
        refl

  -- For at most ten fields, and at least one, whose names have hashes other than 0 and than
  -- each other, in any order, and unknown fields allowed: Decode of the decoder that
  -- createStructDecoder makes, on an iterator in bounds, without an error, at a depth n below
  -- maxDepth, over any chunks, whose remaining bytes are the text of an object and then t,
  -- leaves t, no error and the depth n, and the struct as its members make it one after the
  -- other. A member's name has no quote, backslash or letter that strings.ToLower changes but
  -- A to Z. One that equals a field's name, after strings.ToLower unless the case counts, is
  -- read by that field, and one whose hash no field has is skipped; the fields and Skip are
  -- taken to read these values and to leave what follows, no error and the depth.
  pub create_struct_decoder-ObjectBody :
      (f : Bytes × Decoder S) (fs : List (Bytes × Decoder S)) (simple_names : Bool) (n : ℕ)
      (s s' : S) (body t : Bytes) (it : Iterator)
      → length (f ∷ fs) ≤ 10
      → Fresh to_lower case_sensitive (0 ∷ []) (f ∷ fs)
      → IsValid it
      → it.error ≡ none
      → it.depth ≡ pos n
      → n < max_depth
      → token (remaining it) ≡ some (b'{', body)
      → ObjectBody (Step skip_value to_lower case_sensitive (f ∷ fs) n) s body s' t
      → Decodes s' t (pos n) (
          decode_struct typ skip_value u format_int to_lower runes case_sensitive simple_names
            (create_struct_decoder to_lower case_sensitive false (f ∷ fs))
            s
            it)
  create_struct_decoder-ObjectBody f fs simple_names n s s' body t it few fresh v clear depth h e
        d =
      let (c, p, q) =
        slots_decoder-Chosen (record { hash = hash_of to_lower case_sensitive f.0; decode = f.1 })
          (hashed to_lower case_sensitive fs) simple_names (omega (arith, few, length-hashed fs)) in
      rw (create_struct_decoder_lem f fs c few fresh p, q)
        (fields_decode-ObjectBody
          (hashed_field typ skip_value u format_int runes case_sensitive
            (hashed to_lower case_sensitive (f ∷ fs)))
          (Step skip_value to_lower case_sensitive (f ∷ fs) n) n
          (hashed_field-ReadsField skip_value to_lower case_sensitive typ u format_int runes
            (f ∷ fs) fresh n)
          typ s s' body t it v clear depth h e d)

  Fresh-or :
      (known : List ℕ) (slots : List (HashedField S)) (fields : List (Bytes × Decoder S))
      → Fresh to_lower case_sensitive known fields
        ⊎ (hash_fields to_lower case_sensitive known slots fields ≡ none)
  unfolding hash_fields
  Fresh-or known slots [] = inl tt
  Fresh-or known slots ((k, d) ∷ fields) =
      let h = hash_of to_lower case_sensitive k in
      let next = Create.fill_slot (record { hash = h; decode = d }) slots in
      elim (Bool-cases (contains h known)) [
        | inl e ↦ inr (rw e refl)
        | inr e ↦ elim (Fresh-or (h ∷ known) next fields) [
          | inl fresh ↦ inl (e, fresh)
          | inr q ↦ inr (hash_fields-round to_lower case_sensitive known slots k d fields e ∙ q)
        ]
      ]

  create_struct_decoder-clash :
      (f : Bytes × Decoder S) (fs : List (Bytes × Decoder S))
      → hash_fields to_lower case_sensitive (0 ∷ []) (free_slots (length (f ∷ fs))) (f ∷ fs) ≡ none
      → create_struct_decoder to_lower case_sensitive false (f ∷ fs) ≡ general (f ∷ fs) false
  unfolding create_struct_decoder
  create_struct_decoder-clash f fs e = elim (Bool-cases (leb (length (f ∷ fs)) 10)) [
    | inl few ↦ rw (create_struct_decoder, few, e) refl
    | inr many ↦ rw (create_struct_decoder, many) refl
  ]

  create_struct_decoder-many :
      (f : Bytes × Decoder S) (fs : List (Bytes × Decoder S))
      → leb (length (f ∷ fs)) 10 ≡ false
      → create_struct_decoder to_lower case_sensitive false (f ∷ fs) ≡ general (f ∷ fs) false
  unfolding create_struct_decoder
  create_struct_decoder-many f fs many = rw (create_struct_decoder, many) refl

  -- What a field does to the struct, both for the decoder that finds it by its hash and for the one
  -- that finds it by its name.
  abbrev pub EitherStep : Bool → List (Bytes × Decoder S) → ℕ → S → Bytes → Bytes → S → Type 0
  EitherStep simple_names fields n s b x s' =
      Step skip_value to_lower case_sensitive fields n s b x s'
      × Named.Step skip_value u format_int to_lower case_sensitive simple_names fields n s b x s'

  -- For any number of fields but none, whatever their hashes, and unknown fields allowed,
  -- where each member of an object is one that both the decoders by hash and
  -- generalStructDecoder read or skip, the struct being taken from one value to the same
  -- other one: Decode of the decoder that createStructDecoder makes, whichever it chooses, on
  -- an iterator in bounds, without an error, at a depth n below maxDepth, over any chunks,
  -- whose remaining bytes are that object and then t, leaves t, no error and the depth n, and
  -- the struct as the members make it one after the other.
  pub create_struct_decoder-EitherStep :
      (f : Bytes × Decoder S) (fs : List (Bytes × Decoder S)) (simple_names : Bool) (n : ℕ)
      (s s' : S) (body t : Bytes) (it : Iterator)
      → IsValid it
      → it.error ≡ none
      → it.depth ≡ pos n
      → n < max_depth
      → token (remaining it) ≡ some (b'{', body)
      → ObjectBody (EitherStep simple_names (f ∷ fs) n) s body s' t
      → Decodes s' t (pos n) (
          decode_struct typ skip_value u format_int to_lower runes case_sensitive simple_names
            (create_struct_decoder to_lower case_sensitive false (f ∷ fs))
            s
            it)
  create_struct_decoder-EitherStep f fs simple_names n s s' body t it v clear depth h e d =
      let by_name =
        general_decode-ObjectBody skip_value u format_int to_lower case_sensitive simple_names
          (f ∷ fs) typ n s s' body t it v clear depth h e (ObjectBody-map (λ s1 s2 b x r. r.1) d) in
      elim (Bool-cases (leb (length (f ∷ fs)) 10)) [
        | inr many ↦ rw (create_struct_decoder-many f fs many) by_name
        | inl few ↦ elim (Fresh-or (0 ∷ []) (free_slots (length (f ∷ fs))) (f ∷ fs)) [
          | inr q ↦ rw (create_struct_decoder-clash f fs q) by_name
          | inl fresh ↦
              create_struct_decoder-ObjectBody f fs simple_names n s s' body t it (leb→le _ _ few)
                fresh v clear depth h e (ObjectBody-map (λ s1 s2 b x r. r.0) d)
        ]
      ]
