-- ===== src/RoundTrip/Field.antt =====
-- readFieldHash on what WriteObjectField appends.
use jsoniter.Base.{
  ℕ, ◌≡◌, refl, ap, ◌∙◌, Bool, false, Option, [], ◌∷◌, ◌++◌, append_assoc, Bytes, All, true, arith,
}
use jsoniter.Iter.Defs.{Iterator}
use jsoniter.Iter.View.{remaining, IsValid}
use jsoniter.Iter.Token.{token}
use jsoniter.Stream.Defs.{Writer, new_stream, write_byte}
use jsoniter.Text.Read.{Unicode}
use jsoniter.Text.Write.{is_plain, write_string, write_object_field}
use jsoniter.Text.Print.{quoted, unit_plain, put_string-quoted}
use jsoniter.Field.Defs.{calc_hash, read_field_hash}
use jsoniter.Field.Scan.{IsNameByte}
use jsoniter.Field.Hash.{ReadsHash, folded, read_field_hash-calc_hash}

abbrev pub IsPlain : ℕ → Type 0
IsPlain b = is_plain b ≡ true

pub quoted_plain : (s t : Bytes) → All IsPlain s → quoted s ++ t ≡ s ++ b'"' ∷ t
unfolding quoted
quoted_plain [] t a = refl
quoted_plain (b ∷ s) t a =
    ap (λ y. (y ++ quoted s) ++ t) (unit_plain b a.0) ∙ ap (◌∷◌ b) (quoted_plain s t a.1)

plain-IsNameByte : (s : Bytes) → All IsPlain s → All IsNameByte s
plain-IsNameByte [] a = tt
plain-IsNameByte (b ∷ s) a =
    ((λ e. ground (arith, a.0, e), λ e. ground (arith, a.0, e)), plain-IsNameByte s a.1)

field-printed :
    (step : ℕ) (out : Option Writer) (s t : Bytes)
    → All IsPlain s
    → (write_object_field s (new_stream step out)).buf ++ t ≡ b'"' ∷ s ++ b'"' ∷ b':' ∷ t
unfolding write_object_field write_string new_stream write_byte
field-printed step out s t a =
    ap (λ y. (y ++ b':' ∷ []) ++ t) (put_string-quoted s [])
    ∙ append_assoc (b'"' ∷ quoted s) (b':' ∷ []) t
    ∙ ap (◌∷◌ b'"') (quoted_plain s (b':' ∷ t) a)

-- For a field name s of bytes that WriteString does not escape, and an iterator in bounds
-- whose remaining bytes are what WriteObjectField appends to a new stream and then t:
-- readFieldHash returns calcHash of s, leaves t and keeps the error and the depth, provided
-- that strings.ToLower changes nothing in s but the letters from A to Z.
pub read_field_hash-write_object_field :
    (u : Unicode) (format_int : ℕ → Bytes) (runes : Bytes → Bytes) (to_lower : Bytes → Bytes)
    (case_sensitive : Bool) (step : ℕ) (out : Option Writer) (s t : Bytes) (it : Iterator)
    → to_lower s ≡ folded false s
    → All IsPlain s
    → IsValid it
    → remaining it ≡ (write_object_field s (new_stream step out)).buf ++ t
    → ReadsHash
        (calc_hash to_lower case_sensitive s)
        t
        it
        (read_field_hash u format_int runes case_sensitive it)
read_field_hash-write_object_field u format_int runes to_lower cs step out s t it lower a v e =
    read_field_hash-calc_hash u format_int runes to_lower cs s (b':' ∷ t) t it lower v
      (ap token (e ∙ field-printed step out s t a)) (plain-IsNameByte s a) refl
