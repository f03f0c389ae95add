-- ===== src/Raw/Fill.antt =====
-- readAndFillU4 on four hexadecimal digits.
use jsoniter.Base.{
  ℕ, zero, suc, ◌≤◌, ◌≡◌, refl, sym, ap, ◌∙◌, none, some, [], ◌∷◌, ◌++◌, append-nil, append_assoc,
  Bytes, All, length, arith,
}
use jsoniter.Iter.Defs.{Iterator, loads, read_byte}
use jsoniter.Iter.View.{remaining, IsValid, Sees}
use jsoniter.Iter.Token.{Took}
use jsoniter.Text.Read.{hex_digit}
use jsoniter.Text.Escapes.{hex_digit-HexDigit}
use jsoniter.Text.Hex.{read_byte-Took, IsHex}
use jsoniter.Raw.Defs.{fill_u4, read_and_fill_u4}

-- `digits` have been read, and `rest` remains.
pub record Fills (digits rest : Bytes) (it : Iterator) (r : Bytes × Iterator) : Type 0 where
  pub bytes : r.0 ≡ digits
  pub seen : Sees rest r.1
  pub clear : r.1.error ≡ none
  pub loads_le : loads r.1 ≤ loads it
  pub same_depth : r.1.depth ≡ it.depth

fill_step :
    (n c d : ℕ) (filled rest : Bytes) (it : Iterator)
    → Took c rest it (read_byte it)
    → it.error ≡ none
    → hex_digit c ≡ some d
    → fill_u4 (suc n) filled it ≡ fill_u4 n (filled ++ c ∷ []) (read_byte it).1
unfolding fill_u4
fill_step n c d filled rest it t e h =
    rw (t.same_error ∙ e, ap hex_digit t.byte ∙ h, fill_u4)
      (ap (λ (y : ℕ). fill_u4 n (filled ++ y ∷ []) (read_byte it).1) t.byte)

fill_done : (filled : Bytes) (it : Iterator) → fill_u4 zero filled it ≡ (filled, it)
unfolding fill_u4
fill_done filled it = refl

abbrev AllHex : Bytes → Type 0
AllHex = All (λ h. (d : ℕ) × (hex_digit h ≡ some d))

fill_u4-Fills :
    (digits filled rest : Bytes) (it : Iterator)
    → AllHex digits
    → IsValid it
    → it.error ≡ none
    → remaining it ≡ digits ++ rest
    → Fills (filled ++ digits) rest it (fill_u4 (length digits) filled it)
fill_u4-Fills [] filled rest it a v clear e = rw (fill_done filled it) (record {
  bytes = sym (append-nil filled);
  seen = record { valid = v; remains = e };
  clear = clear;
  loads_le = omega arith;
  same_depth = refl;
})
fill_u4-Fills (c ∷ digits) filled rest it ((d, h), a) v clear e =
    let took = read_byte-Took it v e in
    let x =
      fill_u4-Fills digits (filled ++ c ∷ []) rest (read_byte it).1 a took.seen.valid
        (took.same_error ∙ clear) took.seen.remains in
    rw (fill_step (length digits) c d filled (digits ++ rest) it took clear h) (record {
      bytes = x.bytes ∙ append_assoc filled (c ∷ []) digits;
      seen = x.seen;
      clear = x.clear;
      loads_le = omega (arith, x.loads_le, took.loads_le);
      same_depth = x.same_depth ∙ took.same_depth;
    })

pub read_and_fill_u4-Fills :
    {h1 h2 h3 h4 v : ℕ}
    → IsHex h1 h2 h3 h4 v
    → (rest : Bytes) (it : Iterator) → IsValid it
    → it.error ≡ none
    → remaining it ≡ h1 ∷ h2 ∷ h3 ∷ h4 ∷ rest
    → Fills (h1 ∷ h2 ∷ h3 ∷ h4 ∷ []) rest it (read_and_fill_u4 it)
unfolding read_and_fill_u4
read_and_fill_u4-Fills {h1} {h2} {h3} {h4} x rest it v clear e =
    fill_u4-Fills (h1 ∷ h2 ∷ h3 ∷ h4 ∷ []) [] rest it
      (
        (x.a, hex_digit-HexDigit x.first),
        (
          (x.b, hex_digit-HexDigit x.second),
          ((x.c, hex_digit-HexDigit x.third), ((x.d, hex_digit-HexDigit x.fourth), tt)),
        ),
      )
      v clear e
