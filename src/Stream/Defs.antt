-- ===== src/Stream/Defs.antt =====
-- The state and the operations of stream.go.
use jsoniter.Base.{
  ℕ, Bool, Option, none, some, List, [], ◌∷◌, ◌++◌, Bytes, length, take, drop, replicate,
  if◌then◌else◌,
}
use jsoniter.Base.Int.{ℤ, pos, pos_part, ◌+ℤ◌, ◌-ℤ◌, ◌==ℤ◌}
use jsoniter.Iter.Defs.{Error}

-- One result of an io.Writer's Write: how many bytes it took, and its error.
pub record Written : Type 0 where
  pub taken : ℕ
  pub err : Option Error

-- An io.Writer is the list of what its Write calls will return and the bytes it has taken so far.
-- Past the end of the list it takes all the bytes.
pub record Writer : Type 0 where
  pub results : List Written
  pub output : Bytes

-- indention_step is cfg.indentionStep; the capacity of buf and Attachment are left out.
pub record Stream : Type 0 where
  pub indention_step : ℕ
  pub out : Option Writer
  pub buf : Bytes
  pub error : Option Error
  pub indention : ℤ

unfoldable pub new_stream : ℕ → Option Writer → Stream
new_stream step out = record {
  indention_step = step;
  out = out;
  buf = [];
  error = none;
  indention = pos 0;
}

unfoldable pub reset : Option Writer → Stream → Stream
reset out st = record st { out = out; buf = [] }

unfoldable pub buffered : Stream → ℕ
buffered st = length st.buf

unfoldable pub set_buffer : Bytes → Stream → Stream
set_buffer buf st = record st { buf = buf }

abbrev pub append : Bytes → Stream → Stream
append bytes st = record st { buf = st.buf ++ bytes }

-- One call of Write on a writer.
unfoldable pub write_to : Bytes → Writer → Written × Writer
write_to p w = elim w.results [
  | [] ↦ (record { taken = length p; err = none }, record w { output = w.output ++ p })
  | r ∷ rs ↦ (r, record { results = rs; output = w.output ++ take r.taken p })
]

unfoldable pub write : Bytes → Stream → (ℕ × Option Error) × Stream
unfolding write_to
write p st =
    let st' = append p st in
    elim st'.out [
      | none ↦ ((length p, none), st')
      | some w ↦
          let (r, w') = write_to st'.buf w in
          ((r.taken, r.err), record st' { out = some w'; buf = drop r.taken st'.buf })
    ]

unfoldable pub flush : Stream → Option Error × Stream
unfolding write_to
flush st = elim st.out [
  | none ↦ (none, st)
  | some w ↦ elim st.error [
    | some e ↦ (some e, st)
    | none ↦
        let (r, w') = write_to st.buf w in
        elim r.err [
          | some e ↦ (some e, record st { out = some w'; error = some e })
          | none ↦ (none, record st { out = some w'; buf = [] })
        ]
  ]
]

unfoldable pub write_byte : ℕ → Stream → Stream
write_byte c = append (c ∷ [])

unfoldable pub write_two_bytes : ℕ → ℕ → Stream → Stream
write_two_bytes c1 c2 = append (c1 ∷ c2 ∷ [])

unfoldable pub write_three_bytes : ℕ → ℕ → ℕ → Stream → Stream
write_three_bytes c1 c2 c3 = append (c1 ∷ c2 ∷ c3 ∷ [])

unfoldable pub write_four_bytes : ℕ → ℕ → ℕ → ℕ → Stream → Stream
write_four_bytes c1 c2 c3 c4 = append (c1 ∷ c2 ∷ c3 ∷ c4 ∷ [])

unfoldable pub write_five_bytes : ℕ → ℕ → ℕ → ℕ → ℕ → Stream → Stream
write_five_bytes c1 c2 c3 c4 c5 = append (c1 ∷ c2 ∷ c3 ∷ c4 ∷ c5 ∷ [])

unfoldable pub write_raw : Bytes → Stream → Stream
write_raw s = append s

unfoldable pub write_nil : Stream → Stream
unfolding write_four_bytes
write_nil = write_four_bytes b'n' b'u' b'l' b'l'

unfoldable pub write_true : Stream → Stream
unfolding write_four_bytes
write_true = write_four_bytes b't' b'r' b'u' b'e'

unfoldable pub write_false : Stream → Stream
unfolding write_five_bytes
write_false = write_five_bytes b'f' b'a' b'l' b's' b'e'

unfoldable pub write_bool : Bool → Stream → Stream
unfolding write_true write_false
write_bool val st = if val then write_true st else write_false st

-- The loop appends max(0, indention - delta) spaces.
unfoldable pub write_indention : ℕ → Stream → Stream
unfolding write_byte
write_indention delta st =
    if st.indention ==ℤ pos 0
    then st
    else append (replicate (pos_part (st.indention -ℤ pos delta)) b' ') (write_byte 10 st)

unfoldable pub write_object_start : Stream → Stream
unfolding write_byte write_indention
write_object_start st =
    write_indention 0
      (write_byte b'{' (record st { indention = st.indention +ℤ pos st.indention_step }))

unfoldable pub write_object_end : Stream → Stream
unfolding write_byte write_indention
write_object_end st =
    let st' = write_indention st.indention_step st in
    write_byte b'}' (record st' { indention = st'.indention -ℤ pos st'.indention_step })

unfoldable pub write_empty_object : Stream → Stream
unfolding write_byte
write_empty_object st = write_byte b'}' (write_byte b'{' st)

unfoldable pub write_more : Stream → Stream
unfolding write_byte write_indention
write_more st = write_indention 0 (write_byte b',' st)

unfoldable pub write_array_start : Stream → Stream
unfolding write_byte write_indention
write_array_start st =
    write_indention 0
      (write_byte b'[' (record st { indention = st.indention +ℤ pos st.indention_step }))

unfoldable pub write_empty_array : Stream → Stream
unfolding write_two_bytes
write_empty_array = write_two_bytes b'[' b']'

unfoldable pub write_array_end : Stream → Stream
unfolding write_byte write_indention
write_array_end st =
    let st' = write_indention st.indention_step st in
    write_byte b']' (record st' { indention = st'.indention -ℤ pos st'.indention_step })
