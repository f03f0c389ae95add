-- ===== src/Struct/Defs.antt =====
-- The decoders of structs. A struct is a value of the type `S`, and a decoder of a field takes the
-- struct it finds and gives the one it leaves.
use jsoniter.Base.{ℕ, zero, suc, ◌+◌, Bool, List, [], ◌∷◌, Bytes, length, ◌==◌, if◌then◌else◌}
use jsoniter.Iter.Defs.{Iterator, increment_depth, decrement_depth}
use jsoniter.Iter.View.{remaining}
use jsoniter.Skip.Literal.{is_object_end, read_object_start}
use jsoniter.Text.Read.{Unicode}
use jsoniter.Field.Defs.{read_field_hash}
use jsoniter.Codec.Defs.{Decoder, in_context, wrap_error}

-- reflect2's field: its name, and its place in the struct.
pub record StructField (S A : Type 0) : Type 0 where
  pub field_name : Bytes
  pub get : S → A
  pub set : A → S → S

unfoldable pub field_decode : {S A : Type 0} → StructField S A → Decoder A → Decoder S
field_decode field decode s it =
    let (v, it1) = decode (field.get s) it in (field.set v s, wrap_error field.field_name it1)

-- A type's own name, which is empty for one without a name, and the text that fmt prints of it.
pub record StructType : Type 0 where
  pub type_name : Bytes
  pub printed : Bytes

unfoldable pub wrap_struct_error : StructType → Iterator → Iterator
wrap_struct_error typ it = record it {
  error = if length typ.type_name == 0 then it.error else in_context typ.printed it.error;
}

pub record HashedField (S : Type 0) : Type 0 where
  pub hash : ℕ
  pub decode : Decoder S

module _ {S : Type 0} (field : Decoder S) where
  -- Each round ends with a token, so the number of bytes bounds the rounds.
  unfoldable pub fields_loop : ℕ → Decoder S
  fields_loop zero s it = (s, it)
  fields_loop (suc fuel) s it =
      let (s1, it1) = field s it in
      let (ended, it2) = is_object_end it1 in
      let rest = fields_loop fuel s1 it2 in if ended then (s1, it2) else rest

  -- Decode, for a round of its loop.
  unfoldable pub fields_decode : StructType → Decoder S
  fields_decode typ s it =
      let (started, it1) = read_object_start it in
      let (ok, it2) = increment_depth it1 in
      let (s1, it3) = fields_loop (length (remaining it2) + 1) s it2 in
      if started
      then (if ok then (s1, (decrement_depth (wrap_struct_error typ it3)).1) else (s, it2))
      else (s, it1)

-- Skip is a parameter, and so are the runes over which Go's range goes in a name with escapes.
module _ {S : Type 0} (typ : StructType) (skip_value : Iterator → Iterator) (u : Unicode)
    (format_int : ℕ → Bytes) (runes : Bytes → Bytes) (case_sensitive : Bool) where
  -- The switch on a hash: the first case that has it.
  unfoldable pub switch_hash : List (HashedField S) → ℕ → Decoder S
  switch_hash [] h s it = (s, skip_value it)
  switch_hash (c ∷ cs) h s it = if h == c.hash then c.decode s it else switch_hash cs h s it

  unfoldable pub hashed_field : List (HashedField S) → Decoder S
  hashed_field cs s it =
      let (h, it1) = read_field_hash u format_int runes case_sensitive it in switch_hash cs h s it1

  abbrev pub hashed_decode : List (HashedField S) → Decoder S
  hashed_decode cs = fields_decode (hashed_field cs) typ

  unfoldable pub one_field_decode : HashedField S → Decoder S
  one_field_decode a = hashed_decode (a ∷ [])

  unfoldable pub two_fields_decode : HashedField S → HashedField S → Decoder S
  two_fields_decode a b = hashed_decode (a ∷ b ∷ [])

  unfoldable pub three_fields_decode : HashedField S → HashedField S → HashedField S → Decoder S
  three_fields_decode a b c = hashed_decode (a ∷ b ∷ c ∷ [])

  unfoldable pub four_fields_decode :
      HashedField S → HashedField S → HashedField S → HashedField S → Decoder S
  four_fields_decode a b c d = hashed_decode (a ∷ b ∷ c ∷ d ∷ [])

  unfoldable pub five_fields_decode :
      HashedField S → HashedField S → HashedField S → HashedField S → HashedField S → Decoder S
  five_fields_decode a b c d e = hashed_decode (a ∷ b ∷ c ∷ d ∷ e ∷ [])

  unfoldable pub six_fields_decode :
      HashedField S
      → HashedField S
      → HashedField S
      → HashedField S
      → HashedField S
      → HashedField S
      → Decoder S
  six_fields_decode a b c d e f = hashed_decode (a ∷ b ∷ c ∷ d ∷ e ∷ f ∷ [])

  unfoldable pub seven_fields_decode :
      HashedField S
      → HashedField S
      → HashedField S
      → HashedField S
      → HashedField S
      → HashedField S
      → HashedField S
      → Decoder S
  seven_fields_decode a b c d e f g = hashed_decode (a ∷ b ∷ c ∷ d ∷ e ∷ f ∷ g ∷ [])

  unfoldable pub eight_fields_decode :
      HashedField S
      → HashedField S
      → HashedField S
      → HashedField S
      → HashedField S
      → HashedField S
      → HashedField S
      → HashedField S
      → Decoder S
  eight_fields_decode a b c d e f g h = hashed_decode (a ∷ b ∷ c ∷ d ∷ e ∷ f ∷ g ∷ h ∷ [])

  unfoldable pub nine_fields_decode :
      HashedField S
      → HashedField S
      → HashedField S
      → HashedField S
      → HashedField S
      → HashedField S
      → HashedField S
      → HashedField S
      → HashedField S
      → Decoder S
  nine_fields_decode a b c d e f g h i = hashed_decode (a ∷ b ∷ c ∷ d ∷ e ∷ f ∷ g ∷ h ∷ i ∷ [])

  unfoldable pub ten_fields_decode :
      HashedField S
      → HashedField S
      → HashedField S
      → HashedField S
      → HashedField S
      → HashedField S
      → HashedField S
      → HashedField S
      → HashedField S
      → HashedField S
      → Decoder S
  ten_fields_decode a b c d e f g h i j = hashed_decode (a ∷ b ∷ c ∷ d ∷ e ∷ f ∷ g ∷ h ∷ i ∷ j ∷ [])
