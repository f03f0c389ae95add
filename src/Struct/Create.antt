-- ===== src/Struct/Create.antt =====
-- createStructDecoder: the choice of the decoder.
use jsoniter.Base.{
  ℕ, zero, suc, Bool, true, false, ◌||◌, Option, some, none, List, [], ◌∷◌, Bytes, length, leb,
  ◌==◌, if◌then◌else◌,
}
use jsoniter.Iter.Defs.{Iterator}
use jsoniter.Text.Read.{Unicode}
use jsoniter.Field.Defs.{calc_hash}
use jsoniter.Codec.Defs.{Decoder}
use jsoniter.Struct.Bindings.{Binding, struct_fields}
use jsoniter.Struct.Defs.{
  StructType, HashedField, one_field_decode, two_fields_decode, three_fields_decode,
  four_fields_decode, five_fields_decode, six_fields_decode, seven_fields_decode,
  eight_fields_decode, nine_fields_decode, ten_fields_decode,
}
use jsoniter.Struct.General.{general_decode, skip_object_decode}

abbrev pub contains : ℕ → List ℕ → Bool
contains n [] = false
contains n (k ∷ ks) = n == k || contains n ks

-- The decoders of structs; the numbers of fields have each their own type.
pub data StructDecoder (S : Type 0) : Type 0 where
  general : List (Bytes × Decoder S) → Bool → StructDecoder S
  skip_object : StructDecoder S
  one_field : HashedField S → StructDecoder S
  two_fields : HashedField S → HashedField S → StructDecoder S
  three_fields : HashedField S → HashedField S → HashedField S → StructDecoder S
  four_fields : HashedField S → HashedField S → HashedField S → HashedField S → StructDecoder S
  five_fields :
      HashedField S
      → HashedField S
      → HashedField S
      → HashedField S
      → HashedField S
      → StructDecoder S
  six_fields :
      HashedField S
      → HashedField S
      → HashedField S
      → HashedField S
      → HashedField S
      → HashedField S
      → StructDecoder S
  seven_fields :
      HashedField S
      → HashedField S
      → HashedField S
      → HashedField S
      → HashedField S
      → HashedField S
      → HashedField S
      → StructDecoder S
  eight_fields :
      HashedField S
      → HashedField S
      → HashedField S
      → HashedField S
      → HashedField S
      → HashedField S
      → HashedField S
      → HashedField S
      → StructDecoder S
  nine_fields :
      HashedField S
      → HashedField S
      → HashedField S
      → HashedField S
      → HashedField S
      → HashedField S
      → HashedField S
      → HashedField S
      → HashedField S
      → StructDecoder S
  ten_fields :
      HashedField S
      → HashedField S
      → HashedField S
      → HashedField S
      → HashedField S
      → HashedField S
      → HashedField S
      → HashedField S
      → HashedField S
      → HashedField S
      → StructDecoder S

module _ {S : Type 0} where
  -- A variable that no field has been put in: the hash 0 and no decoder.
  abbrev pub free_slot : HashedField S
  free_slot = record { hash = 0; decode = λ s it. (s, it) }

  abbrev pub free_slots : ℕ → List (HashedField S)
  free_slots zero = []
  free_slots (suc n) = free_slot ∷ free_slots n

  -- The first variable whose hash is 0 takes the field, or else the last one.
  unfoldable pub fill_slot : HashedField S → List (HashedField S) → List (HashedField S)
  fill_slot f [] = []
  fill_slot f (x ∷ []) = f ∷ []
  fill_slot f (x ∷ y ∷ slots) =
      let later = fill_slot f (y ∷ slots) in if x.hash == 0 then f ∷ y ∷ slots else x ∷ later

  unfoldable pub slots_decoder : List (HashedField S) → Option (StructDecoder S)
  slots_decoder [] = none
  slots_decoder (a ∷ []) = some (one_field a)
  slots_decoder (a ∷ b ∷ []) = some (two_fields a b)
  slots_decoder (a ∷ b ∷ c ∷ []) = some (three_fields a b c)
  slots_decoder (a ∷ b ∷ c ∷ d ∷ []) = some (four_fields a b c d)
  slots_decoder (a ∷ b ∷ c ∷ d ∷ e ∷ []) = some (five_fields a b c d e)
  slots_decoder (a ∷ b ∷ c ∷ d ∷ e ∷ f ∷ []) = some (six_fields a b c d e f)
  slots_decoder (a ∷ b ∷ c ∷ d ∷ e ∷ f ∷ g ∷ []) = some (seven_fields a b c d e f g)
  slots_decoder (a ∷ b ∷ c ∷ d ∷ e ∷ f ∷ g ∷ h ∷ []) = some (eight_fields a b c d e f g h)
  slots_decoder (a ∷ b ∷ c ∷ d ∷ e ∷ f ∷ g ∷ h ∷ i ∷ []) = some (nine_fields a b c d e f g h i)
  slots_decoder (a ∷ b ∷ c ∷ d ∷ e ∷ f ∷ g ∷ h ∷ i ∷ j ∷ []) = some (ten_fields a b c d e f g h i j)
  slots_decoder (a ∷ b ∷ c ∷ d ∷ e ∷ f ∷ g ∷ h ∷ i ∷ j ∷ k ∷ slots) = none

  module _ (to_lower : Bytes → Bytes) (case_sensitive : Bool) where
    -- The loop over the fields; `none` where a hash is known.
    unfoldable pub hash_fields :
        List ℕ → List (HashedField S) → List (Bytes × Decoder S) → Option (List (HashedField S))
    hash_fields known slots [] = some slots
    hash_fields known slots ((name, decode) ∷ fields) =
        let h = calc_hash to_lower case_sensitive name in
        let rest =
          hash_fields (h ∷ known) (fill_slot (record { hash = h; decode = decode }) slots) fields in
        if contains h known then none else rest

    unfoldable pub create_struct_decoder : Bool → List (Bytes × Decoder S) → StructDecoder S
    create_struct_decoder true fields = general fields true
    create_struct_decoder false [] = skip_object
    create_struct_decoder false (f ∷ fs) =
        let n = length (f ∷ fs) in
        let hashed : Option (StructDecoder S) =
          elim (hash_fields (0 ∷ []) (free_slots n) (f ∷ fs)) [
            | none ↦ none
            | some slots ↦ slots_decoder slots
          ] in
        elim (if leb n 10 then hashed else none) [ none ↦ general (f ∷ fs) false | some d ↦ d ]

module _ {S : Type 0} (typ : StructType) (skip_value : Iterator → Iterator) (u : Unicode)
    (format_int : ℕ → Bytes) (to_lower runes : Bytes → Bytes)
    (case_sensitive simple_names : Bool) where
  -- The call of Decode on a ValDecoder.
  abbrev pub decode_struct : StructDecoder S → Decoder S
  decode_struct (general fields disallow) =
      general_decode skip_value u format_int to_lower case_sensitive simple_names disallow fields
        typ
  decode_struct skip_object = skip_object_decode skip_value
  decode_struct (one_field a) = one_field_decode typ skip_value u format_int runes case_sensitive a
  decode_struct (two_fields a b) =
      two_fields_decode typ skip_value u format_int runes case_sensitive a b
  decode_struct (three_fields a b c) =
      three_fields_decode typ skip_value u format_int runes case_sensitive a b c
  decode_struct (four_fields a b c d) =
      four_fields_decode typ skip_value u format_int runes case_sensitive a b c d
  decode_struct (five_fields a b c d e) =
      five_fields_decode typ skip_value u format_int runes case_sensitive a b c d e
  decode_struct (six_fields a b c d e f) =
      six_fields_decode typ skip_value u format_int runes case_sensitive a b c d e f
  decode_struct (seven_fields a b c d e f g) =
      seven_fields_decode typ skip_value u format_int runes case_sensitive a b c d e f g
  decode_struct (eight_fields a b c d e f g h) =
      eight_fields_decode typ skip_value u format_int runes case_sensitive a b c d e f g h
  decode_struct (nine_fields a b c d e f g h i) =
      nine_fields_decode typ skip_value u format_int runes case_sensitive a b c d e f g h i
  decode_struct (ten_fields a b c d e f g h i j) =
      ten_fields_decode typ skip_value u format_int runes case_sensitive a b c d e f g h i j

  unfoldable pub decoder_of_struct : Bool → List (Binding (Decoder S)) → Decoder S
  decoder_of_struct disallow_unknown bindings = decode_struct (
      create_struct_decoder to_lower case_sensitive disallow_unknown
        (struct_fields to_lower case_sensitive bindings))
