-- ===== src/Text/Write.antt =====
-- WriteString and WriteStringWithHTMLEscaped of stream_str.go.
use jsoniter.Base.{
  ℕ, zero, suc, ◌+◌, ◌/◌, ◌%◌, Bool, true, false, not, ◌&&◌, ◌||◌, [], ◌∷◌, ◌++◌, Bytes, codes,
  length, get_or, take, drop, ltb, leb, ◌==◌, if◌then◌else◌,
}
use jsoniter.Base.Int.{pos, lebℤ}
use jsoniter.Stream.Defs.{Stream, write_byte, write_two_bytes}

-- The table safeSet, over the ASCII range.
unfoldable pub safe_set : ℕ → Bool
safe_set b = leb 32 b && ltb b 128 && not (b == b'"') && not (b == b'\\')

-- The table htmlSafeSet.
unfoldable pub html_safe_set : ℕ → Bool
html_safe_set b =
    leb 32 b
    && ltb b 128
    && not (b == b'"')
    && not (b == b'\\')
    && not (b == b'&')
    && not (b == b'<')
    && not (b == b'>')

-- hexChars[d]
unfoldable pub hex_chars : ℕ → ℕ
hex_chars d = get_or (codes "0123456789abcdef") d 0

-- What an ASCII byte that is not safe becomes.
unfoldable pub escaped : ℕ → Bytes
escaped b =
    if b == b'\\' || b == b'"'
    then b'\\' ∷ b ∷ []
    else if b == 10
    then b'\\' ∷ b'n' ∷ []
    else if b == 13
    then b'\\' ∷ b'r' ∷ []
    else if b == 9
    then b'\\' ∷ b't' ∷ []
    else b'\\' ∷ b'u' ∷ b'0' ∷ b'0' ∷ hex_chars (b / 16) ∷ hex_chars (b % 16) ∷ []

-- `if start < i { stream.WriteRaw(s[start:i]) }`, where `run` is s[start:i].
abbrev pub flush_run : Bytes → Bytes → Bytes
flush_run run buf = if ltb 0 (length run) then buf ++ run else buf

-- The loop of writeStringSlowPath: the bytes from i on, s[start:i], and the buffer.
unfoldable pub slow_path : Bytes → Bytes → Bytes → Bytes
unfolding safe_set escaped
slow_path [] run buf = flush_run run buf ++ b'"' ∷ []
slow_path (b ∷ s) run buf = elim (ltb b 128 && not (safe_set b)) [
  | true ↦ slow_path s [] (flush_run run buf ++ escaped b)
  | false ↦ slow_path s (run ++ b ∷ []) buf
]

-- The loop of the fast path, which appends bytes up to the first that is not plain.
unfoldable pub fast_path : (ℕ → Bool) → Bytes → Bytes → Bytes × Bytes
fast_path plain [] buf = (buf, [])
fast_path plain (c ∷ s) buf = elim (plain c) [
  | true ↦ fast_path plain s (buf ++ c ∷ [])
  | false ↦ (buf, c ∷ s)
]

abbrev pub is_plain : ℕ → Bool
is_plain c = ltb 31 c && not (c == b'"') && not (c == b'\\')

unfoldable pub put_string : Bytes → Bytes → Bytes
unfolding fast_path slow_path
put_string s buf =
    let (buf', rest) = fast_path is_plain s (buf ++ b'"' ∷ []) in
    elim rest [ [] ↦ buf' ++ b'"' ∷ [] | c ∷ s' ↦ slow_path (c ∷ s') [] buf' ]

unfoldable pub write_string : Bytes → Stream → Stream
unfolding put_string
write_string s st = record st { buf = put_string s st.buf }

-- `"field":`, with a space behind it where there is an indention.
unfoldable pub write_object_field : Bytes → Stream → Stream
unfolding write_string
write_object_field field st =
    let st' = write_string field st in
    if lebℤ (pos 1) st'.indention then write_two_bytes b':' b' ' st' else write_byte b':' st'

-- utf8.DecodeRuneInString, a rune and its size, is a parameter.
module _ (decode_rune : Bytes → ℕ × ℕ) where
  -- One round of writeStringSlowPathWithHTMLEscaped at the bytes `b ∷ s`: how many bytes it goes
  -- on by, and what it writes in place of them, if it does.
  unfoldable pub html_step : ℕ → Bytes → ℕ × Bytes
  html_step b s =
      let (c, size) = decode_rune (b ∷ s) in
      if ltb b 128
      then (if html_safe_set b then (1, []) else (1, escaped b))
      else if c == 0xfffd && size == 1
      then (1, codes "\\ufffd")
      else if c == 0x2028 || c == 0x2029
      then (size, codes "\\u202" ++ hex_chars (c % 16) ∷ [])
      else (size, [])

  -- A round for each call; a size is at least 1, so the length of the text bounds the rounds.
  unfoldable pub html_slow_path : ℕ → Bytes → Bytes → Bytes → Bytes
  html_slow_path zero s run buf = flush_run run buf ++ b'"' ∷ []
  html_slow_path (suc fuel) [] run buf = flush_run run buf ++ b'"' ∷ []
  html_slow_path (suc fuel) (b ∷ s) run buf =
      let (size, out) = html_step b s in
      elim out [
        | [] ↦ html_slow_path fuel (drop size (b ∷ s)) (run ++ take size (b ∷ s)) buf
        | c ∷ o ↦ html_slow_path fuel (drop size (b ∷ s)) [] (flush_run run buf ++ c ∷ o)
      ]

  unfoldable pub put_html_string : Bytes → Bytes → Bytes
  put_html_string s buf =
      let (buf', rest) = fast_path html_safe_set s (buf ++ b'"' ∷ []) in
      elim rest [
        | [] ↦ buf' ++ b'"' ∷ []
        | c ∷ s' ↦ html_slow_path (length (c ∷ s') + 1) (c ∷ s') [] buf'
      ]

  unfoldable pub write_string_with_html_escaped : Bytes → Stream → Stream
  unfolding put_html_string
  write_string_with_html_escaped s st = record st { buf = put_html_string s st.buf }
