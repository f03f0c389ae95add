-- ===== src/Tests/Inputs.antt =====
-- The inputs of the examples: iterators over bytes and over chunks, and a Unicode package.
use jsoniter.Base.{◌&&◌, none, [], ◌∷◌, Bytes, codes, ltb, leb, refl, arith}
use jsoniter.Iter.Defs.{Chunk, Iterator, parse, parse_bytes}
use jsoniter.Iter.View.{IsValid}
use jsoniter.Text.Read.{Unicode}
use jsoniter.Text.Print.{IsUnicode}

abbrev pub chunk : Bytes → Chunk
chunk s = record { bytes = s; err = none }

-- White space in the first chunk, and a number that goes on in the third.
abbrev pub in_chunks : Iterator
in_chunks = parse (chunk (codes " \n") ∷ chunk (codes "12") ∷ chunk (codes "3,") ∷ []) 4

abbrev pub unicode : Unicode
unicode = record {
  is_surrogate = λ r. leb 0xd800 r && ltb r 0xe000;
  decode_pair = λ r r2. 0xfffd;
  encode_rune = λ r. r ∷ [];
}

pub unicode-IsUnicode : IsUnicode unicode
unicode-IsUnicode = record { surrogates = λ r h. ground (arith, h); ascii = λ r h. refl }

pub parse_bytes-IsValid : (s : Bytes) → IsValid (parse_bytes s)
unfolding parse_bytes
parse_bytes-IsValid s = record { head_le = omega arith; tail_le = omega arith; fits = tt }

pub in_chunks-IsValid : IsValid in_chunks
unfolding parse
in_chunks-IsValid = record {
  head_le = omega arith;
  tail_le = omega arith;
  fits = (omega arith, (omega arith, (omega arith, tt)));
}

-- A number in two chunks.
abbrev pub digit_chunks : Iterator
digit_chunks = parse (chunk (codes "12") ∷ chunk (codes "3,") ∷ []) 2

pub digit_chunks-IsValid : IsValid digit_chunks
unfolding parse
digit_chunks-IsValid = record {
  head_le = omega arith;
  tail_le = omega arith;
  fits = (omega arith, (omega arith, tt));
}
