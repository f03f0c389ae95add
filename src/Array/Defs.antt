-- ===== src/Array/Defs.antt =====
-- ReadArrayCB of iter_array.go. The callback is a function on the iterator and on a state of the
-- caller's, which stands for what the Go closure captures.
use jsoniter.Base.{ℕ, zero, suc, ◌+◌, Bool, true, false, [], ◌∷◌, length, ◌==◌, if◌then◌else◌}
use jsoniter.Iter.Defs.{
  Iterator, next_token, unread_byte, report_error, increment_depth, decrement_depth,
}
use jsoniter.Iter.View.{remaining}
use jsoniter.Text.Read.{skip_three_bytes}

-- decrementDepth with its result, and with the result `false`.
unfoldable pub close_array : {S : Type 0} → Iterator → S → Bool × Iterator × S
close_array it s = let (ok, it') = decrement_depth it in (ok, it', s)

unfoldable pub leave_array : {S : Type 0} → Iterator → S → Bool × Iterator × S
leave_array it s = let (ok, it') = decrement_depth it in (false, it', s)

module _ {S : Type 0} (callback : Iterator → S → Bool × Iterator × S) where
  -- The loop on the token `c`. Each round reads a comma, so the number of bytes bounds the rounds
  -- of a callback that does not put bytes back.
  unfoldable pub array_loop : ℕ → ℕ → Iterator → S → Bool × Iterator × S
  array_loop zero c it s = (false, it, s)
  array_loop (suc fuel) c it s =
      let (ok, it1, s1) = callback it s in
      let (c', it2) = next_token it1 in
      let rest = array_loop fuel c' it2 s1 in
      if c == b','
      then (if ok then rest else leave_array it1 s1)
      else if c == b']'
      then close_array it s
      else leave_array
          (report_error "ReadArrayCB" "expect ] in the end, but found " (c ∷ []) (unread_byte it)) s

  unfoldable pub read_elements : Iterator → S → Bool × Iterator × S
  read_elements it s =
      let (c, it1) = next_token it in
      let (ok, it2, s1) = callback (unread_byte it1) s in
      let (c', it3) = next_token it2 in
      if c == b']'
      then close_array it1 s
      else if ok
      then array_loop (length (remaining it2) + 1) c' it3 s1
      else leave_array it2 s1

  unfoldable pub read_array_cb : Iterator → S → Bool × Iterator × S
  read_array_cb it s =
      let (c, it1) = next_token it in
      let (ok, it2) = increment_depth it1 in
      if c == b'['
      then (if ok then read_elements it2 s else (false, it2, s))
      else if c == b'n'
      then (true, skip_three_bytes b'u' b'l' b'l' it1, s)
      else (
        false,
        report_error "ReadArrayCB" "expect [ or n, but found " (c ∷ []) (unread_byte it1),
        s,
      )
