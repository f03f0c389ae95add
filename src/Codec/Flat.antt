-- ===== src/Codec/Flat.antt =====
-- What is appended to a stream without indention and without an error.
use jsoniter.Base.{
  ◌≡◌, refl, sym, ap, Bool, true, false, Option, none, [], ◌∷◌, ◌++◌, append-nil, Bytes,
  if◌then◌else◌,
}
use jsoniter.Base.Int.{pos}
use jsoniter.Stream.Defs.{
  Writer, Stream, write_byte, write_more, write_indention, write_object_start, write_object_end,
  write_array_start, write_array_end,
}
use jsoniter.Codec.Defs.{Encoder, wrap_stream_error}

-- A stream without indention and without an error.
abbrev pub flat : Option Writer → Bytes → Stream
flat out buf = record { indention_step = 0; out = out; buf = buf; error = none; indention = pos 0 }

-- The encoder appends `x` for the value `v`.
abbrev pub Prints : {A : Type 0} → Encoder A → A → Bytes → Type 0
Prints encode v x =
    (out : Option Writer) (buf : Bytes) → encode v (flat out buf) ≡ flat out (buf ++ x)

write_more-flat :
    (out : Option Writer) (buf : Bytes) → write_more (flat out buf) ≡ flat out (buf ++ b',' ∷ [])
unfolding write_more write_byte write_indention
write_more-flat out buf = refl

pub wrap_stream_error-flat :
    (name : Bytes) (out : Option Writer) (buf : Bytes)
    → wrap_stream_error name (flat out buf) ≡ flat out buf
unfolding wrap_stream_error
wrap_stream_error-flat name out buf = refl

-- What separates an element from others before it.
abbrev pub comma : Bool → Bytes
comma later = if later then b',' ∷ [] else []

pub comma-flat :
    (later : Bool) (out : Option Writer) (buf : Bytes)
    → (if later then write_more (flat out buf) else flat out buf) ≡ flat out (buf ++ comma later)
comma-flat true out buf = write_more-flat out buf
comma-flat false out buf = ap (flat out) (sym (append-nil buf))

pub write_object_start-flat :
    (out : Option Writer) (buf : Bytes)
    → write_object_start (flat out buf) ≡ flat out (buf ++ b'{' ∷ [])
unfolding write_object_start write_byte write_indention
write_object_start-flat out buf = refl

pub write_object_end-flat :
    (out : Option Writer) (buf : Bytes)
    → write_object_end (flat out buf) ≡ flat out (buf ++ b'}' ∷ [])
unfolding write_object_end write_byte write_indention
write_object_end-flat out buf = refl

pub write_array_start-flat :
    (out : Option Writer) (buf : Bytes)
    → write_array_start (flat out buf) ≡ flat out (buf ++ b'[' ∷ [])
unfolding write_array_start write_byte write_indention
write_array_start-flat out buf = refl

pub write_array_end-flat :
    (out : Option Writer) (buf : Bytes)
    → write_array_end (flat out buf) ≡ flat out (buf ++ b']' ∷ [])
unfolding write_array_end write_byte write_indention
write_array_end-flat out buf = refl
