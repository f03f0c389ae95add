-- ===== src/Struct/Hashed.antt =====
-- The decoders of structs that find a field by the hash of its name.
use jsoniter.Base.{
  ℕ, ◌+◌, ◌≡◌, refl, sym, ap, ◌∙◌, Bool, false, some, none, List, [], ◌∷◌, ◌++◌, append_assoc,
  Bytes, All, if◌then◌else◌,
}
use jsoniter.Base.Int.{pos}
use jsoniter.Iter.Defs.{Iterator}
use jsoniter.Iter.View.{Sees}
use jsoniter.Iter.Token.{token}
use jsoniter.Text.Read.{Unicode}
use jsoniter.Field.Defs.{hash_all, calc_hash, read_field_hash, offset_basis}
use jsoniter.Field.Scan.{IsNameByte}
use jsoniter.Field.Hash.{folded, ReadsHash, read_field_hash-calc_hash}
use jsoniter.Array.Elements.{Follows}
use jsoniter.Object.Names.{Body-append}
use jsoniter.Strict.Floats.{Leaves}
use jsoniter.Codec.Defs.{Decoder}
use jsoniter.Codec.Reads.{Takes}
use jsoniter.Struct.Defs.{StructType, HashedField, switch_hash, hashed_field}
use jsoniter.Struct.Fields.{FieldText, ReadsField}
use jsoniter.Struct.Slots.{
  Has, Fresh, hashed, hash_of, Unknown, switch_hash-Has, switch_hash-Unknown,
}

-- Skip passes over the text `x`.
abbrev pub Skips : (Iterator → Iterator) → ℕ → Bytes → Type 0
Skips skip_value n x =
    (t : Bytes) (it : Iterator)
    → Follows t
    → Sees (x ++ t) it
    → it.error ≡ none
    → it.depth ≡ pos (n + 1)
    → Leaves t it.depth (skip_value it)

module _ (skip_value : Iterator → Iterator) (to_lower : Bytes → Bytes) (case_sensitive : Bool) where
  -- What counts of a name.
  abbrev pub key : Bytes → Bytes
  key name = if case_sensitive then name else to_lower name

  -- A name, which is `b` without its quote.
  pub record Plain (name b : Bytes) : Type 0 where
    pub quoted : b ≡ name ++ b'"' ∷ []
    pub bytes : All IsNameByte name
    pub lower : to_lower name ≡ folded false name

  -- What a field does to the struct: one with the name of a field of the struct is decoded, and one
  -- whose name has another hash than all of them is skipped.
  pub data Step {S : Type 0} (fields : List (Bytes × Decoder S)) (n : ℕ) (s : S) (b x : Bytes)
      (s' : S) : Type 0 where
    known :
        (name k : Bytes) (decode : Decoder S)
        → Plain name b
        → key name ≡ key k
        → Has k decode fields
        → Takes decode (n + 1) s x s'
        → Step fields n s b x s'
    unknown :
        (name : Bytes)
        → Plain name b
        → Unknown to_lower case_sensitive (hash_of to_lower case_sensitive name) fields
        → Skips skip_value n x
        → s' ≡ s
        → Step fields n s b x s'

  same_key-hash :
      (name k : Bytes)
      → key name ≡ key k
      → calc_hash to_lower case_sensitive name ≡ calc_hash to_lower case_sensitive k
  unfolding calc_hash
  same_key-hash name k e = ap (hash_all offset_basis) e

  module _ (typ : StructType) (u : Unicode) (format_int : ℕ → Bytes) (runes : Bytes → Bytes) where
    abbrev read_hash : Iterator → ℕ × Iterator
    read_hash = read_field_hash u format_int runes case_sensitive

    name-ReadsHash :
        (name b x raw t : Bytes) (it : Iterator)
        → Plain name b
        → FieldText b x raw t
        → Sees raw it
        → ReadsHash (hash_of to_lower case_sensitive name) (x ++ t) it (read_hash it)
    name-ReadsHash name b x raw t it p f sees =
        let whole : f.name ≡ name ++ b'"' ∷ f.colon =
          Body-append f.body
          ∙ ap (λ (y : Bytes). y ++ f.colon) p.quoted
          ∙ append_assoc name (b'"' ∷ []) f.colon in
        read_field_hash-calc_hash u format_int runes to_lower case_sensitive name f.colon (x ++ t)
          it p.lower sees.valid
          (ap token sees.remains ∙ f.quote ∙ ap (λ (y : Bytes). some (b'"', y)) whole) p.bytes
          f.value

    module _ {S : Type 0} where
      hashed_field_lem :
          (cs : List (HashedField S)) (s : S) (it it1 : Iterator) (h : ℕ)
          → (read_field_hash u format_int runes case_sensitive it).0 ≡ h
          → (read_field_hash u format_int runes case_sensitive it).1 ≡ it1
          → hashed_field typ skip_value u format_int runes case_sensitive cs s it
            ≡ switch_hash typ skip_value u format_int runes case_sensitive cs h s it1
      unfolding hashed_field
      hashed_field_lem cs s it it1 h e f = rw (e, f) refl

      module _ (fields : List (Bytes × Decoder S))
          (fresh : Fresh to_lower case_sensitive (0 ∷ []) fields) (n : ℕ) where
        abbrev cases : List (HashedField S)
        cases = hashed to_lower case_sensitive fields

        pub hashed_field-ReadsField :
            ReadsField
              (Step fields n)
              n
              (hashed_field typ skip_value u format_int runes case_sensitive cases)
        hashed_field-ReadsField s s' b x raw t it (known name k decode p same m takes) f after sees
              clear depth =
            let h = name-ReadsHash name b x raw t it p f sees in
            let it1 = (read_hash it).1 in
            let y = takes t it1 after h.seen (h.same_error ∙ clear) (h.same_depth ∙ depth) in
            rw
              (
                hashed_field_lem cases s it it1 (hash_of to_lower case_sensitive k)
                    (h.hash ∙ same_key-hash name k same) refl,
                switch_hash-Has to_lower case_sensitive typ skip_value u format_int runes (0 ∷ [])
                    fields k decode s it1 fresh m,
              )
              (record {
                value = y.value;
                seen = y.seen;
                clear = y.clear;
                same_depth = y.same_depth ∙ h.same_depth;
              })
        hashed_field-ReadsField s s' b x raw t it (unknown name p m skips e) f after sees clear
              depth =
            let h = name-ReadsHash name b x raw t it p f sees in
            let it1 = (read_hash it).1 in
            let y = skips t it1 after h.seen (h.same_error ∙ clear) (h.same_depth ∙ depth) in
            rw
              (
                hashed_field_lem cases s it it1 (hash_of to_lower case_sensitive name) h.hash refl,
                switch_hash-Unknown to_lower case_sensitive typ skip_value u format_int runes fields
                    (hash_of to_lower case_sensitive name) s it1 m,
              )
              (record {
                value = sym e;
                seen = y.seen;
                clear = y.clear;
                same_depth = y.same_depth ∙ h.same_depth;
              })
