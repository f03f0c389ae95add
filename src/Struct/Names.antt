-- ===== src/Struct/Names.antt =====
-- The names of fields, and the colons behind them.
use jsoniter.Base.{
  ℕ, ◌-◌, ◌≡◌, sym, ap, ◌∙◌, subst, Bool, true, false, some, none, [], ◌∷◌, ◌++◌, take-append,
  length-append, Bytes, length, take, arith,
}
use jsoniter.Base.Int.{ℤ}
use jsoniter.Iter.Defs.{Iterator}
use jsoniter.Iter.View.{Sees}
use jsoniter.Iter.Token.{token}
use jsoniter.Text.Read.{Unicode, read_string}
use jsoniter.Text.Spells.{Spells}
use jsoniter.Text.Loop.{ReadsText, read_string-Spells}
use jsoniter.Array.Elements.{token-Took}
use jsoniter.Raw.Defs.{raw_bytes, read_raw_string}
use jsoniter.Raw.Loop.{ReadsRaw, read_raw_string-ReadsRaw}
use jsoniter.Object.Names.{Body-append}
use jsoniter.Struct.General.{read_name, expect_colon}
use jsoniter.Struct.Fields.{FieldText}

pub Spells-before :
    {u : Unicode} {raw s t : Bytes} (rest : Bytes)
    → Spells u raw s t
    → Spells u (raw ++ rest) s (t ++ rest)
Spells-before rest (Spells.close q) = Spells.close (ap (λ y. y ++ rest) q)
Spells-before rest (Spells.plain c r q p d) =
    Spells.plain c (r ++ rest) (ap (λ y. y ++ rest) q) p (Spells-before rest d)
Spells-before rest (Spells.letter e b r q p d) =
    Spells.letter e b (r ++ rest) (ap (λ y. y ++ rest) q) p (Spells-before rest d)
Spells-before rest (Spells.rune h1 h2 h3 h4 a b c d r q p1 p2 p3 p4 n k) =
    Spells.rune h1 h2 h3 h4 a b c d (r ++ rest) (ap (λ y. y ++ rest) q) p1 p2 p3 p4 n
      (Spells-before rest k)

unquoted : (name : Bytes) → take (length (name ++ b'"' ∷ []) - 1) (name ++ b'"' ∷ []) ≡ name
unquoted name =
    let e : length (name ++ b'"' ∷ []) - 1 ≡ length name =
      omega (arith, length-append name (b'"' ∷ [])) in
    rw e (take-append name (b'"' ∷ []))

-- Behind the name `name`, the text `t` is left.
pub record NameRead (name t : Bytes) (d : ℤ) (r : Bytes × Iterator) : Type 0 where
  pub text : r.0 ≡ name
  pub seen : Sees t r.1
  pub clear : r.1.error ≡ none
  pub same_depth : r.1.depth ≡ d

pub record ColonRead (rest : Bytes) (d : ℤ) (it : Iterator) : Type 0 where
  pub seen : Sees rest it
  pub clear : it.error ≡ none
  pub same_depth : it.depth ≡ d

pub expect_colon-ColonRead :
    (t rest : Bytes) (d : ℤ) (it : Iterator)
    → Sees t it
    → it.error ≡ none
    → it.depth ≡ d
    → token t ≡ some (b':', rest)
    → ColonRead rest d (expect_colon it)
expect_colon-ColonRead t rest d it sees clear depth e =
    let took = token-Took b':' rest t it sees e in
    rw took.byte (record {
      seen = took.seen;
      clear = took.same_error ∙ clear;
      same_depth = took.same_depth ∙ depth;
    })

module _ (u : Unicode) where
  -- The name that stands for `b` with its quote: its bytes, or what they spell.
  abbrev pub IsName : Bool → Bytes → Bytes → Type 0
  IsName true name b = b ≡ name ++ b'"' ∷ []
  IsName false name b = Spells u b name []

module _ (u : Unicode) (format_int : ℕ → Bytes) where
  read_name-bytes :
      (b colon name : Bytes) (d : ℤ) (it : Iterator)
      → ReadsRaw b colon d (read_raw_string format_int it)
      → b ≡ name ++ b'"' ∷ []
      → NameRead name colon d (read_name u format_int true it)
  unfolding read_name raw_bytes
  read_name-bytes b colon name d it x e = rw x.body (record {
    text = ap (λ (y : Bytes). take (length y - 1) y) e ∙ unquoted name;
    seen = x.seen;
    clear = x.clear;
    same_depth = x.same_depth;
  })

  read_name-text :
      (colon name : Bytes) (d : ℤ) (it : Iterator)
      → ReadsText name colon d (read_string u format_int it)
      → NameRead name colon d (read_name u format_int false it)
  unfolding read_name
  read_name-text colon name d it x = record {
    text = x.text;
    seen = x.seen;
    clear = x.clear;
    same_depth = x.same_depth;
  }

  pub read_name-NameRead :
      (simple_names : Bool) (name b x raw t : Bytes) (it : Iterator)
      → IsName u simple_names name b
      → (f : FieldText b x raw t) → Sees raw it
      → it.error ≡ none
      → NameRead name f.colon it.depth (read_name u format_int simple_names it)
  read_name-NameRead true name b x raw t it p f sees clear =
      read_name-bytes b f.colon name it.depth it
        (read_raw_string-ReadsRaw format_int it f.name b f.colon sees.valid clear
          (ap token sees.remains ∙ f.quote) f.body)
        p
  read_name-NameRead false name b x raw t it p f sees clear =
      read_name-text f.colon name it.depth it (
        read_string-Spells u format_int it f.name name f.colon sees.valid clear
          (ap token sees.remains ∙ f.quote)
          (subst (λ y. Spells u y name f.colon) (sym (Body-append f.body))
            (Spells-before f.colon p)))
