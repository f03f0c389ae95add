-- ===== src/Strict/Value.antt =====
-- The texts of JSON values, and the rounds of Skip by their tokens.
use jsoniter.Base.{ℕ, zero, suc, ◌≡◌, ◌≢◌, some, [], ◌∷◌, Bytes}
use jsoniter.Iter.Token.{token}
use jsoniter.Array.Whole
use jsoniter.Raw.Body
use jsoniter.Object.Fields.{ObjectBody}
use jsoniter.Float.Defs.{Floats}
use jsoniter.Strict.Floats.{Number}

-- A JSON value, with white space in front, whose elements and members are texts of which `R` holds.
-- A number is one that the parser takes: strconv refuses one that is out of the range of a float.
pub data Value (f32 f64 : Floats) (R : Bytes → Type 0) (x : Bytes) : Type 0 where
  text : (raw b : Bytes) → token x ≡ some (b'"', raw) → Body.Body raw b [] → Value f32 f64 R x
  null : token x ≡ some (b'n', b'u' ∷ b'l' ∷ b'l' ∷ []) → Value f32 f64 R x
  true_value : token x ≡ some (b't', b'r' ∷ b'u' ∷ b'e' ∷ []) → Value f32 f64 R x
  false_value : token x ≡ some (b'f', b'a' ∷ b'l' ∷ b's' ∷ b'e' ∷ []) → Value f32 f64 R x
  zero_number : (s : Bytes) → token x ≡ some (b'0', s) → Number f32 b'0' s → Value f32 f64 R x
  number :
      (c : ℕ) (s : Bytes) → token x ≡ some (c, s) → c ≢ b'0' → Number f64 c s → Value f32 f64 R x
  array :
      (body : Bytes)
      → token x ≡ some (b'[', body)
      → Whole.Body (λ s y s'. R y) tt body tt []
      → Value f32 f64 R x
  object :
      (body : Bytes)
      → token x ≡ some (b'{', body)
      → ObjectBody (λ s name y s'. R y) tt body tt []
      → Value f32 f64 R x

-- The JSON values in which arrays and objects are nested in at most `m` others.
abbrev pub Json : Floats → Floats → ℕ → Bytes → Type 0
Json f32 f64 zero x = Value f32 f64 (λ y. ⊥) x
Json f32 f64 (suc m) x = Value f32 f64 (Json f32 f64 m) x
