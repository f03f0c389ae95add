-- ===== src/Text/Html.antt =====
-- WriteStringWithHTMLEscaped and the bytes that HTML gives a meaning.
use jsoniter.Base.{
  ℕ, zero, suc, ◌+◌, ◌/◌, ◌%◌, ◌≤◌, ◌<◌, ◌≡◌, refl, inl, inr, Bool, true, false, not, ◌&&◌, ◌||◌,
  [], ◌∷◌, ◌++◌, Bytes, codes, length, take, drop, All, All-append, ltb, ◌==◌, if◌then◌else◌, arith,
  Bool-cases, every, every_lem,
}
use jsoniter.Text.Write.{
  html_safe_set, hex_chars, escaped, flush_run, fast_path, html_step, html_slow_path,
  put_html_string,
}

abbrev pub is_markup : ℕ → Bool
is_markup b = b == b'<' || b == b'>' || b == b'&'

abbrev pub IsSafe : ℕ → Type 0
IsSafe b = is_markup b ≡ false

hex_table : every (λ d. not (is_markup (hex_chars d))) 16 ≡ true
unfolding every hex_chars
hex_table = refl

hex_chars-IsSafe : (d : ℕ) → d < 16 → IsSafe (hex_chars d)
hex_chars-IsSafe d h =
    ground (arith, every_lem (λ d. not (is_markup (hex_chars d))) 16 d h hex_table)

html_safe_set-IsSafe : (b : ℕ) → html_safe_set b ≡ true → IsSafe b
unfolding html_safe_set
html_safe_set-IsSafe b h = ground (arith, h)

-- A step that writes nothing keeps safe bytes, and what a step writes is safe.
abbrev Kept : Bytes → ℕ × Bytes → Type 0
Kept s (size, []) = All IsSafe (take size s)
Kept s (size, c ∷ out) = All IsSafe (c ∷ out)

escaped-Kept : (b : ℕ) (s : Bytes) → b < 128 → Kept s (1, escaped b)
unfolding escaped
escaped-Kept b s h = elim (Bool-cases (b == b'\\' || b == b'"')) [
  | inl e ↦ rw e (refl, (ground (arith, e), tt))
  | inr e ↦ rw e (elim (Bool-cases (b == 10)) [
    | inl e ↦ rw e (refl, (refl, tt))
    | inr e ↦ rw e (elim (Bool-cases (b == 13)) [
      | inl e ↦ rw e (refl, (refl, tt))
      | inr e ↦ rw e (elim (Bool-cases (b == 9)) [
        | inl e ↦ rw e (refl, (refl, tt))
        | inr e ↦ rw e (
          refl,
          (
            refl,
            (
              refl,
              (
                refl,
                (
                  hex_chars-IsSafe (b / 16) (omega arith),
                  (hex_chars-IsSafe (b % 16) (omega arith), tt),
                ),
              ),
            ),
          ),
        )
      ])
    ])
  ])
]

flush_run-IsSafe :
    (run buf : Bytes) → All IsSafe run → All IsSafe buf → All IsSafe (flush_run run buf)
flush_run-IsSafe run buf a b = elim (Bool-cases (ltb 0 (length run))) [
  | inl e ↦ rw e (All-append IsSafe buf run b a)
  | inr e ↦ rw e b
]

high-IsSafe : (s : Bytes) → All (λ b. 128 ≤ b) s → All IsSafe s
high-IsSafe [] a = tt
high-IsSafe (b ∷ s) a = (ground (arith, a.0), high-IsSafe s a.1)

fast_path-IsSafe : (s buf : Bytes) → All IsSafe buf → All IsSafe (fast_path html_safe_set s buf).0
unfolding fast_path
fast_path-IsSafe [] buf a = a
fast_path-IsSafe (c ∷ s) buf a = elim (Bool-cases (html_safe_set c)) [
  | inl e ↦
      rw (e, fast_path)
        (fast_path-IsSafe s (buf ++ c ∷ [])
          (All-append IsSafe buf (c ∷ []) a (html_safe_set-IsSafe c e, tt)))
  | inr e ↦ rw (e, fast_path) a
]

module _ (decode_rune : Bytes → ℕ × ℕ)
    (law : (b : ℕ) (s : Bytes)
      → 128 ≤ b
      → All (λ c. 128 ≤ c) (take (decode_rune (b ∷ s)).1 (b ∷ s))) where
  html_step-Kept : (b : ℕ) (s : Bytes) → Kept (b ∷ s) (html_step decode_rune b s)
  unfolding html_step
  html_step-Kept b s = elim (Bool-cases (ltb b 128)) [
    | inl small ↦ rw small (elim (Bool-cases (html_safe_set b)) [
      | inl e ↦ rw e (html_safe_set-IsSafe b e, tt)
      | inr e ↦ rw e (escaped-Kept b (b ∷ s) (ground arith))
    ])
    | inr large ↦
        rw large (high (decode_rune (b ∷ s)) (high-IsSafe _ (law b s (ground (arith, large)))))
  ]
    where
      high :
          (r : ℕ × ℕ)
          → All IsSafe (take r.1 (b ∷ s))
          → Kept (b ∷ s) (
              if r.0 == 0xfffd && r.1 == 1
              then (1, codes "\\ufffd")
              else if r.0 == 0x2028 || r.0 == 0x2029
              then (r.1, codes "\\u202" ++ hex_chars (r.0 % 16) ∷ [])
              else (r.1, []))
      high (c, size) a = elim (Bool-cases (c == 0xfffd && size == 1)) [
        | inl e ↦ rw e (refl, (refl, (refl, (refl, (refl, (refl, tt))))))
        | inr e ↦ rw e (elim (Bool-cases (c == 0x2028 || c == 0x2029)) [
          | inl e ↦
              rw e (
                refl,
                (refl, (refl, (refl, (refl, (hex_chars-IsSafe (c % 16) (omega arith), tt))))),
              )
          | inr e ↦ rw e a
        ])
      ]

  -- A round, by what the step gives, for a rest of the loop that keeps to safe bytes.
  round-IsSafe :
      (fuel : ℕ) (s run buf : Bytes) (r : ℕ × Bytes)
      → Kept s r
      → All IsSafe run
      → All IsSafe buf
      → ((s' run' buf' : Bytes)
          → All IsSafe run'
          → All IsSafe buf'
          → All IsSafe (html_slow_path decode_rune fuel s' run' buf'))
      → All IsSafe (elim r.1 [
        | [] ↦ html_slow_path decode_rune fuel (drop r.0 s) (run ++ take r.0 s) buf
        | c ∷ o ↦ html_slow_path decode_rune fuel (drop r.0 s) [] (flush_run run buf ++ c ∷ o)
      ])
  round-IsSafe fuel s run buf (size, []) k a b next =
      next (drop size s) (run ++ take size s) buf (All-append IsSafe run (take size s) a k) b
  round-IsSafe fuel s run buf (size, c ∷ o) k a b next =
      next (drop size s) [] (flush_run run buf ++ c ∷ o) tt
        (All-append IsSafe (flush_run run buf) (c ∷ o) (flush_run-IsSafe run buf a b) k)

  html_slow_path-IsSafe :
      (fuel : ℕ) (s run buf : Bytes)
      → All IsSafe run
      → All IsSafe buf
      → All IsSafe (html_slow_path decode_rune fuel s run buf)
  unfolding html_slow_path
  html_slow_path-IsSafe zero s run buf a b =
      All-append IsSafe (flush_run run buf) (b'"' ∷ []) (flush_run-IsSafe run buf a b) (refl, tt)
  html_slow_path-IsSafe (suc fuel) [] run buf a b =
      All-append IsSafe (flush_run run buf) (b'"' ∷ []) (flush_run-IsSafe run buf a b) (refl, tt)
  html_slow_path-IsSafe (suc fuel) (c ∷ s) run buf a b =
      round-IsSafe fuel (c ∷ s) run buf (html_step decode_rune c s) (html_step-Kept c s) a b
        (html_slow_path-IsSafe fuel)

  rest-IsSafe :
      (rest buf : Bytes)
      → All IsSafe buf
      → All IsSafe (elim rest [
        | [] ↦ buf ++ b'"' ∷ []
        | c ∷ s ↦ html_slow_path decode_rune (length (c ∷ s) + 1) (c ∷ s) [] buf
      ])
  rest-IsSafe [] buf a = All-append IsSafe buf (b'"' ∷ []) a (refl, tt)
  rest-IsSafe (c ∷ s) buf a = html_slow_path-IsSafe (length (c ∷ s) + 1) (c ∷ s) [] buf tt a

  -- WriteStringWithHTMLEscaped, on a buffer without the bytes <, > and &, leaves none of them
  -- in the buffer, whatever the text is, provided that utf8.DecodeRuneInString at a byte from
  -- 128 on takes only bytes from 128 on.
  pub put_html_string-IsSafe :
      (s buf : Bytes) → All IsSafe buf → All IsSafe (put_html_string decode_rune s buf)
  unfolding put_html_string
  put_html_string-IsSafe s buf a =
      rest-IsSafe (fast_path html_safe_set s (buf ++ b'"' ∷ [])).1
        (fast_path html_safe_set s (buf ++ b'"' ∷ [])).0
        (fast_path-IsSafe s (buf ++ b'"' ∷ []) (All-append IsSafe buf (b'"' ∷ []) a (refl, tt)))
