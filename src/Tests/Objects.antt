-- ===== src/Tests/Objects.antt =====
-- The readers of raw strings and of objects at concrete inputs.
use jsoniter.Base.{
  ◌≡◌, refl, none, some, [], codes, true, arith, ℕ, List, Bool, Bytes, ◌++◌, ap, sym, ◌∙◌, ◌∷◌,
}
use jsoniter.Base.Int.{pos}
use jsoniter.Iter.Defs.{Iterator, parse, parse_bytes, next_token, read_byte, is_next_token_buffered}
use jsoniter.Iter.View.{Sees, IsValid}
use jsoniter.Text.Escapes.{line_feed}
use jsoniter.Text.Hex.{read_byte-Took}
use jsoniter.Text.Spells
use jsoniter.Array.Elements.{Collects, Follows}
use jsoniter.Raw.Defs.{RawString, read_raw_string, to_string}
use jsoniter.Raw.Body.{Body, close, plain, letter}
use jsoniter.Raw.Loop.{ReadsRaw, read_raw_string-ReadsRaw}
use jsoniter.Raw.Decode.{to_string-read_raw_string}
use jsoniter.Object.Defs.{read_object_raw_cb, read_object_cb}
use jsoniter.Object.Names.{read_object_cb-ObjectBody}
use jsoniter.Object.Buffered.{next_token-is_next_token_buffered}
use jsoniter.Object.Fields.{Named, Fields, first, read_object_raw_cb-ObjectBody}
use jsoniter.Tests.Inputs.{chunk, unicode, parse_bytes-IsValid}

a_text : Body (codes "a\\n\"]") (codes "a\\n\"") (codes "]")
a_text =
    plain b'a' (codes "\\n\"]") refl refl (letter b'n' 10 (codes "\"]") refl line_feed (close refl))

read_raw_string-ReadsRaw_example :
    ReadsRaw
      (codes "a\\n\"")
      (codes "]")
      (pos 0)
      (read_raw_string (λ n. []) (parse_bytes (codes " \"a\\n\"]")))
unfolding parse_bytes
read_raw_string-ReadsRaw_example =
    read_raw_string-ReadsRaw (λ n. []) (parse_bytes (codes " \"a\\n\"]")) (codes "a\\n\"]")
      (codes "a\\n\"") (codes "]") (parse_bytes-IsValid (codes " \"a\\n\"]")) refl refl a_text

to_string-read_raw_string_example :
    (to_string unicode (λ n. []) (read_raw_string (λ n. []) (parse_bytes (codes " \"a\\n\"]"))).0
      ≡ some (codes "a\n"))
    × Sees (codes "]") (read_raw_string (λ n. []) (parse_bytes (codes " \"a\\n\"]"))).1
    × ((read_raw_string (λ n. []) (parse_bytes (codes " \"a\\n\"]"))).1.error ≡ none)
unfolding parse_bytes
to_string-read_raw_string_example =
    to_string-read_raw_string unicode (λ n. []) (parse_bytes (codes " \"a\\n\"]")) (codes "a\\n\"]")
      (codes "a\n") (codes "]") (parse_bytes-IsValid (codes " \"a\\n\"]")) refl refl
      (Spells.plain b'a' (codes "\\n\"]") refl refl
        (Spells.letter b'n' 10 (codes "\"]") refl line_feed (Spells.Spells.close refl)))

next_token-is_next_token_buffered_example :
    ((next_token (is_next_token_buffered (parse_bytes (codes " :1"))).1).1.buf ≡ codes " :1")
    × ((next_token (is_next_token_buffered (parse_bytes (codes " :1"))).1).1.reader ≡ none)
unfolding parse_bytes is_next_token_buffered jsoniter.Iter.Defs.first_token
next_token-is_next_token_buffered_example =
    next_token-is_next_token_buffered (parse_bytes (codes " :1"))
      (parse_bytes-IsValid (codes " :1")) refl

-- Names with their digits.
abbrev member : Iterator → (Iterator → RawString) → List Bytes → Bool × Iterator × List Bytes
member it rs s =
    let name : Bytes = elim (rs it).buf [ none ↦ [] | some b ↦ b ] in
    let (c, it') = read_byte it in (true, it', s ++ name ∷ (c ∷ []) ∷ [])

abbrev Member : List Bytes → Bytes → Bytes → List Bytes → Type 0
Member s b x s' = (c : ℕ) × (x ≡ c ∷ []) × (s' ≡ s ++ b ∷ (c ∷ []) ∷ [])

member-Collects :
    (s s' : List Bytes) (b x t : Bytes) (rs : Iterator → RawString) (it : Iterator)
    → Member s b x s'
    → Named b (rs it)
    → Follows t
    → Sees (x ++ t) it
    → it.error ≡ none
    → it.depth ≡ pos 1
    → Collects s' t it.depth (member it rs s)
member-Collects s s' b x t rs it (c, e, f) named behind sees clear depth =
    let took = read_byte-Took it sees.valid (sees.remains ∙ ap (λ y. y ++ t) e) in
    let name : (elim (rs it).buf [ none ↦ [] | some b ↦ b ]) ≡ b =
      ap (λ o. elim o [ none ↦ [] | some b ↦ b ]) named.body in
    record {
      success = refl;
      state =
          ap (λ (n : Bytes). s ++ n ∷ ((read_byte it).0 ∷ []) ∷ []) name
          ∙ ap (λ (d : ℕ). s ++ b ∷ (d ∷ []) ∷ []) took.byte
          ∙ sym f;
      seen = took.seen;
      clear = took.same_error ∙ clear;
      depth = took.same_depth;
    }

-- The first name is at the end of a chunk, and the next chunk is loaded over it.
abbrev object_chunks : Iterator
object_chunks = parse (chunk (codes "{\"a\"") ∷ chunk (codes ":7 ,\"b\":8},") ∷ []) 11

object_chunks-IsValid : IsValid object_chunks
unfolding parse
object_chunks-IsValid = record {
  head_le = omega arith;
  tail_le = omega arith;
  fits = (omega arith, (omega arith, tt));
}

read_object_raw_cb-ObjectBody_example :
    Collects
      (codes "a\"" ∷ codes "7" ∷ codes "b\"" ∷ codes "8" ∷ [])
      (codes ",")
      (pos 0)
      (read_object_raw_cb (λ n. []) member object_chunks [])
unfolding parse
read_object_raw_cb-ObjectBody_example =
    read_object_raw_cb-ObjectBody (λ n. []) member Member 0 member-Collects []
      (codes "a\"" ∷ codes "7" ∷ codes "b\"" ∷ codes "8" ∷ []) (codes "\"a\":7 ,\"b\":8},")
      (codes ",") object_chunks object_chunks-IsValid refl refl (omega arith) refl
      (first (codes "a\":7 ,\"b\":8},") (codes "a\"") (codes ":7 ,\"b\":8},") (codes "7")
        (codes " ,\"b\":8},") refl (plain b'a' (codes "\":7 ,\"b\":8},") refl refl (close refl))
        refl (b'7', refl, refl)
        (Fields.more (codes "\"b\":8},") (codes "b\":8},") (codes "b\"") (codes ":8},") (codes "8")
          (codes "},") refl refl (plain b'b' (codes "\":8},") refl refl (close refl)) refl
          (b'8', refl, refl) (Fields.close refl)))

abbrev named_digit : Iterator → Bytes → List Bytes → Bool × Iterator × List Bytes
named_digit it name s = let (c, it') = read_byte it in (true, it', s ++ name ∷ (c ∷ []) ∷ [])

named_digit-Collects :
    (s s' : List Bytes) (name x t : Bytes) (it : Iterator)
    → Member s name x s'
    → Follows t
    → Sees (x ++ t) it
    → it.error ≡ none
    → it.depth ≡ pos 1
    → Collects s' t it.depth (named_digit it name s)
named_digit-Collects s s' name x t it (c, e, f) behind sees clear depth =
    let took = read_byte-Took it sees.valid (sees.remains ∙ ap (λ y. y ++ t) e) in
    record {
      success = refl;
      state = ap (λ (d : ℕ). s ++ name ∷ (d ∷ []) ∷ []) took.byte ∙ sym f;
      seen = took.seen;
      clear = took.same_error ∙ clear;
      depth = took.same_depth;
    }

-- The name has an escape.
read_object_cb-ObjectBody_example :
    Collects
      (some (codes "a\n" ∷ codes "7" ∷ []))
      (codes ",")
      (pos 0)
      (read_object_cb unicode (λ n. []) named_digit (parse_bytes (codes "{\"a\\n\":7},")) [])
unfolding parse_bytes
read_object_cb-ObjectBody_example =
    read_object_cb-ObjectBody unicode (λ n. []) named_digit Member 0 named_digit-Collects []
      (codes "a\n" ∷ codes "7" ∷ []) (codes "\"a\\n\":7},") (codes ",")
      (parse_bytes (codes "{\"a\\n\":7},")) (parse_bytes-IsValid (codes "{\"a\\n\":7},")) refl refl
      (omega arith) refl
      (first (codes "a\\n\":7},") (codes "a\\n\"") (codes ":7},") (codes "7") (codes "},") refl
        (plain b'a' (codes "\\n\":7},") refl refl
          (letter b'n' 10 (codes "\":7},") refl line_feed (close refl)))
        refl
        (
          codes "a\n",
          Spells.plain b'a' (codes "\\n\"") refl refl
              (Spells.letter b'n' 10 (codes "\"") refl line_feed (Spells.Spells.close refl)),
          (b'7', refl, refl),
        )
        (Fields.close refl))
