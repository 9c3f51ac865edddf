-- ===== src/ByteBuf/Search.antt =====
-- gwcpp/base/ByteBuf.cpp: the searches.
pub mod First
pub mod Run
use cpptool_box.Base.{
  ℕ, zero, suc, ◌+◌, ◌-◌, List, Bool, true, false, ◌&&◌, Option, none, some, ltb, ◌==◌,
  if◌then◌else◌, length, ℤ, pos, negsuc, pos_part, ◌+ℤ◌, ◌-ℤ◌, ltb_ℤ, to_size, Result, ok, err,
  ◌>>=◌, at,
}
use cpptool_box.ByteBuf.Data.{ByteBuf}

-- The rounds that a `for` loop makes from one index up to another.
abbrev pub rounds : ℤ → ℤ → ℕ
rounds from to = pos_part (to -ℤ from)

-- The loop of `bytesBefore(char)`.
unfoldable pub find_value : List ℕ → ℕ → ℕ → ℤ → Result (Option ℤ)
find_value s value zero index = ok none
find_value s value (suc n) index = at s (to_size index) >>= λ c. elim (c == value) [
  | true ↦ ok (some index)
  | false ↦ find_value s value n (index +ℤ pos 1)
]

-- The offset from the reader position, or -1.
abbrev pub offset_from : ℤ → Option ℤ → ℤ
offset_from reader none = negsuc 0
offset_from reader (some index) = index -ℤ reader

unfoldable pub bytes_before : ByteBuf → ℕ → Result ℤ
unfolding find_value
bytes_before d value =
    find_value d.origin_data value (rounds d.reader_index d.writer_index) d.reader_index >>= λ r.
    ok (offset_from d.reader_index r)

-- The inner loop: whether the next `n` bytes all are `value`.
unfoldable pub run_of_value : List ℕ → ℕ → ℕ → ℤ → Result Bool
run_of_value s value zero index = ok true
run_of_value s value (suc n) index = at s (to_size index) >>= λ c. elim (c == value) [
  | true ↦ run_of_value s value n (index +ℤ pos 1)
  | false ↦ ok false
]

-- One round of the outer loop: whether a run of `len` bytes `value` is accepted at `index`.
unfoldable pub run_at : List ℕ → ℤ → ℤ → ℕ → ℤ → Result Bool
unfolding run_of_value
run_at s writer len value index = at s (to_size index) >>= λ c.
    if (c == value) && ltb_ℤ (index +ℤ len) writer
    then run_of_value s value (rounds (index +ℤ pos 1) (index +ℤ len)) (index +ℤ pos 1)
    else ok false

-- The outer loop of `bytesBefore(int32_t, int32_t, char)`.
unfoldable pub find_run : List ℕ → ℤ → ℤ → ℕ → ℕ → ℤ → Result (Option ℤ)
unfolding run_at
find_run s writer len value zero index = ok none
find_run s writer len value (suc n) index =
    run_at s writer len value index
    >>= elim [ true ↦ ok (some index) | false ↦ find_run s writer len value n (index +ℤ pos 1) ]

unfoldable pub bytes_before_from : ByteBuf → ℤ → ℤ → ℕ → Result ℤ
unfolding find_run
bytes_before_from d index len value =
    find_run d.origin_data d.writer_index len value (rounds index (d.writer_index -ℤ len)) index
    >>= λ r. ok (offset_from d.reader_index r)

unfoldable pub bytes_before_run : ByteBuf → ℤ → ℕ → Result ℤ
unfolding bytes_before_from
bytes_before_run d len value = bytes_before_from d d.reader_index len value

-- The loop of `indexOf`, on fuel: it stops at the end of the string at the latest.
unfoldable pub index_of_loop : List ℕ → ℤ → ℕ → ℕ → ℤ → Option (Result ℤ)
index_of_loop s to value zero index = none
index_of_loop s to value (suc fuel) index =
    elim (ltb (to_size index) (length s) && ltb_ℤ index to) [
      | false ↦ some (ok (negsuc 0))
      | true ↦ elim (at s (to_size index)) [
        | err e ↦ some (err e)
        | ok c ↦ elim (c == value) [
          | true ↦ some (ok index)
          | false ↦ index_of_loop s to value fuel (index +ℤ pos 1)
        ]
      ]
    ]

unfoldable pub index_of : ByteBuf → ℤ → ℤ → ℕ → Option (Result ℤ)
unfolding index_of_loop
index_of d from to value = index_of_loop d.origin_data to value (length d.origin_data + 1) from
