-- ===== src/Skip/Sloppy.antt =====
-- iter_skip_sloppy.go: the end of a number and of a string, without a check of what is between.
use jsoniter.Base.{
  ℕ, zero, suc, ◌+◌, Bool, true, false, ◌||◌, Option, none, some, [], ◌∷◌, Bytes, ◌==◌,
  if◌then◌else◌,
}
use jsoniter.Iter.Defs.{Iterator, window, loads, with_head, load_more, report_error}

abbrev pub ends_number : ℕ → Bool
ends_number c = c == b' ' || c == 10 || c == 13 || c == 9 || c == b',' || c == b'}' || c == b']'

unfoldable pub number_end : Bytes → Option ℕ
number_end [] = none
number_end (c ∷ s) =
    let rest : Option ℕ = elim (number_end s) [ none ↦ none | some k ↦ some (suc k) ] in
    if ends_number c then some 0 else rest

unfoldable pub skip_number_loop : ℕ → Iterator → Iterator
skip_number_loop zero it = it
skip_number_loop (suc fuel) it = elim (number_end (window it)) [
  | some k ↦ with_head (it.head + k) it
  | none ↦
      let (more, it') = load_more it in elim more [ true ↦ skip_number_loop fuel it' | false ↦ it' ]
]

unfoldable pub skip_number : Iterator → Iterator
skip_number it = skip_number_loop (loads it + 1) it

-- The inner loops, which go back two bytes a round: whether an odd number of backslashes stands in
-- front. The bytes are those since head, the last one first.
unfoldable pub odd_backslashes : Bytes → Bool
odd_backslashes [] = false
odd_backslashes (c ∷ []) = c == b'\\'
odd_backslashes (c ∷ d ∷ s) =
    let further = odd_backslashes s in
    if c == b'\\' then (if d == b'\\' then further else true) else false

-- The loop of findStringEnd, with the flag, the bytes since head (last first), and the bytes to
-- come: the offset behind the quote, or `none` for -1, and the second result.
unfoldable pub find_from : Bool → Bytes → ℕ → Bytes → Option ℕ × Bool
find_from escaped seen i [] = (none, odd_backslashes seen)
find_from escaped seen i (c ∷ s) =
    let next = find_from (escaped || c == b'\\') (c ∷ seen) (i + 1) s in
    if c == b'"'
    then (if escaped
        then (if odd_backslashes seen then next else (some (i + 1), true))
        else (some (i + 1), false))
    else next

unfoldable pub find_string_end : Iterator → Option ℕ × Bool
find_string_end it = find_from false [] 0 (window it)

unfoldable pub skip_string_loop : ℕ → Iterator → Iterator
skip_string_loop zero it = it
skip_string_loop (suc fuel) it =
    let (end, escaped) = find_string_end it in
    elim end [
      | some k ↦ with_head (it.head + k) it
      | none ↦
          let (more, it') = load_more it in
          elim more [
            | false ↦ report_error "skipString" "incomplete string" [] it'
            | true ↦ skip_string_loop fuel (if escaped then with_head 1 it' else it')
          ]
    ]

unfoldable pub skip_string : Iterator → Iterator
skip_string it = skip_string_loop (loads it + 1) it
