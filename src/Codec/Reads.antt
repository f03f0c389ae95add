-- ===== src/Codec/Reads.antt =====
-- What a decoder does to a text.
use jsoniter.Base.{ℕ, ◌≡◌, none, ◌++◌, Bytes}
use jsoniter.Base.Int.{ℤ, pos}
use jsoniter.Iter.Defs.{Iterator}
use jsoniter.Iter.View.{Sees}
use jsoniter.Array.Elements.{Follows}
use jsoniter.Codec.Defs.{Decoder}

-- The value is now `v`, and `t` is left with no error, at the depth `d`.
pub record Decodes {A : Type 0} (v : A) (t : Bytes) (d : ℤ) (r : A × Iterator) : Type 0 where
  pub value : r.0 ≡ v
  pub seen : Sees t r.1
  pub clear : r.1.error ≡ none
  pub same_depth : r.1.depth ≡ d

-- At the depth `n` the decoder takes the value `old` to `v` on the text `x` before a comma or a
-- closing bracket.
abbrev pub Takes : {A : Type 0} → Decoder A → ℕ → A → Bytes → A → Type 0
Takes decode n old x v =
    (t : Bytes) (it : Iterator)
    → Follows t
    → Sees (x ++ t) it
    → it.error ≡ none
    → it.depth ≡ pos n
    → Decodes v t it.depth (decode old it)
