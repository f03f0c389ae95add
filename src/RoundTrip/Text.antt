-- ===== src/RoundTrip/Text.antt =====
-- ReadString on what WriteString appends.
use jsoniter.Base.{ℕ, ◌≡◌, ap, ◌∙◌, none, Option, [], ◌++◌, Bytes}
use jsoniter.Iter.Defs.{Iterator}
use jsoniter.Iter.View.{remaining, IsValid}
use jsoniter.Iter.Token.{token}
use jsoniter.Stream.Defs.{Writer, new_stream}
use jsoniter.Text.Write.{write_string}
use jsoniter.Text.Read.{Unicode, read_string}
use jsoniter.Text.Print.{quoted, put_string-quoted, IsUnicode, quoted-Spells}
use jsoniter.Text.Loop.{ReadsText, read_string-Spells}

-- For a text s and an iterator in bounds and without an error, over any chunks, whose
-- remaining bytes are what WriteString appends to a new stream and then t: ReadString
-- returns s, leaves t, sets no error and keeps the depth, provided that utf16.IsSurrogate
-- is false below 0xd800 and that a rune below 128 is written as its one byte.
pub read_string-write_string :
    (u : Unicode) (format_int : ℕ → Bytes) (step : ℕ) (out : Option Writer) (s t : Bytes)
    (it : Iterator)
    → IsUnicode u
    → IsValid it
    → it.error ≡ none
    → remaining it ≡ (write_string s (new_stream step out)).buf ++ t
    → ReadsText s t it.depth (read_string u format_int it)
unfolding write_string new_stream
read_string-write_string u format_int step out s t it law v clear e =
    read_string-Spells u format_int it (quoted s ++ t) s t v clear
      (ap token (e ∙ ap (λ x. x ++ t) (put_string-quoted s []))) (quoted-Spells u law s t)
