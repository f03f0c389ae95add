-- ===== src/Field/Defs.antt =====
-- readFieldHash and calcHash of iter_object.go. A hash is an int64, here its 64 bits as a natural
-- number.
use Prim.Native.Nat.{bit_xor}
use jsoniter.Base.{
  ℕ, zero, suc, ◌+◌, ◌*◌, ◌%◌, ◌^◌, Bool, true, false, not, ◌&&◌, [], ◌∷◌, Bytes, leb, ◌==◌,
  if◌then◌else◌,
}
use jsoniter.Iter.Defs.{
  Iterator, window, loads, with_head, load_more, next_token, unread_byte, report_error,
}
use jsoniter.Text.Read.{Unicode, read_string_inner}

abbrev pub offset_basis : ℕ
offset_basis = 0x811c9dc5

-- The rounds `hash ^= int64(b); hash *= 0x1000193`.
unfoldable pub hash_round : ℕ → ℕ → ℕ
hash_round hash b = bit_xor hash b * 0x1000193 % 2 ^ 64

-- `b += 'a' - 'A'` for a capital letter.
unfoldable pub fold_case : Bool → ℕ → ℕ
fold_case case_sensitive b = if (leb b'A' b && leb b b'Z') && not case_sensitive then b + 32 else b

unfoldable pub hash_all : ℕ → Bytes → ℕ
hash_all hash [] = hash
hash_all hash (b ∷ s) = hash_all (hash_round hash b) s

-- strings.ToLower is a parameter.
unfoldable pub calc_hash : (Bytes → Bytes) → Bool → Bytes → ℕ
unfolding hash_all
calc_hash to_lower case_sensitive s =
    hash_all offset_basis (if case_sensitive then s else to_lower s)

-- Why a pass over the window ends, with the hash so far and the bytes before the end.
pub data FieldEnd : Type 0 where
  at_quote : ℕ → ℕ → FieldEnd
  at_escape : ℕ → ℕ → FieldEnd
  still_open : ℕ → FieldEnd

unfoldable pub scan_field : Bool → ℕ → Bytes → FieldEnd
scan_field case_sensitive hash [] = still_open hash
scan_field case_sensitive hash (b ∷ s) =
    let more : FieldEnd =
      elim (scan_field case_sensitive (hash_round hash (fold_case case_sensitive b)) s) [
        | at_quote k h ↦ at_quote (suc k) h
        | at_escape k h ↦ at_escape (suc k) h
        | still_open h ↦ still_open h
      ] in
    if b == b'\\' then at_escape 0 hash else if b == b'"' then at_quote 0 hash else more

unfoldable pub field_colon : ℕ → Iterator → ℕ × Iterator
field_colon hash it =
    let (c, it') = next_token it in
    if c == b':'
    then (hash, it')
    else (0, report_error "readFieldHash" "expect :, but found " (c ∷ []) (unread_byte it'))

unfoldable pub hash_folded : Bool → ℕ → Bytes → ℕ
hash_folded case_sensitive hash [] = hash
hash_folded case_sensitive hash (b ∷ s) =
    hash_folded case_sensitive (hash_round hash (fold_case case_sensitive b)) s

-- The runes over which Go's range goes in a string are a parameter.
module _ (u : Unicode) (format_int : ℕ → Bytes) (runes : Bytes → Bytes)
    (case_sensitive : Bool) where
  unfoldable pub field_loop : ℕ → ℕ → Iterator → ℕ × Iterator
  field_loop zero hash it = (0, it)
  field_loop (suc fuel) hash it = elim (scan_field case_sensitive hash (window it)) [
    | at_quote k h ↦ field_colon h (with_head (it.head + k + 1) it)
    | at_escape k h ↦
        let (s, it') = read_string_inner u format_int (with_head (it.head + k) it) in
        field_colon (hash_folded case_sensitive h (runes s)) it'
    | still_open h ↦
        let (more, it') = load_more it in
        elim more [
          | true ↦ field_loop fuel h it'
          | false ↦ (0, report_error "readFieldHash" "incomplete field name" [] it')
        ]
  ]

  unfoldable pub read_field_hash : Iterator → ℕ × Iterator
  read_field_hash it =
      let (c, it') = next_token it in
      if c == b'"'
      then field_loop (loads it' + 1) offset_basis it'
      else (0, report_error "readFieldHash" "expect \", but found " (c ∷ []) (unread_byte it'))
