-- ===== src/ByteBuf/Index.antt =====
-- gwcpp/base/ByteBuf.cpp: constructors, copies, and the members that move the positions.
use Prim.Native.Nat.{compare, Ordering}
use cpptool_box.Base.{
  ℕ, List, [], ◌∷◌, ◌++◌, Bool, leb, ltb, ◌==◌, if◌then◌else◌, length, ℤ, pos, ◌+ℤ◌, ◌-ℤ◌, ltb_ℤ,
  leb_ℤ, to_int32, to_size, Result, map_ok, string_of, string_fill,
}
use cpptool_box.ByteBuf.Data.{ByteBuf, new_data}

-- `ByteBuf(const std::string&)`.
abbrev pub of_string : List ℕ → ByteBuf
of_string s = record new_data { origin_data = s; writer_index = to_int32 (pos (length s)) }

-- `ByteBuf(const char*, int32_t)`: the bytes behind the pointer, and how many of them to take.
unfoldable pub of_pointer : List ℕ → ℤ → Result ByteBuf
of_pointer p size =
    map_ok (λ s. record new_data { origin_data = s; writer_index = to_int32 (pos 0 +ℤ size) })
      (string_of p size)

-- `ByteBuf(int32_t, char)`.
unfoldable pub of_fill : ℤ → ℕ → Result ByteBuf
of_fill size ch =
    map_ok (λ s. record new_data { origin_data = s; writer_index = to_int32 (pos 0 +ℤ size) })
      (string_fill size ch)

-- The copy constructor.
unfoldable pub of_copy : ByteBuf → ByteBuf
of_copy other = record {
  origin_data = new_data.origin_data ++ other.origin_data;
  reader_index = other.reader_index;
  writer_index = other.writer_index;
  marked_reader_index = other.marked_reader_index;
  marked_writer_index = other.marked_writer_index;
}

-- `operator=` from another object.
unfoldable pub assign : ByteBuf → ByteBuf → ByteBuf
assign d other = record {
  origin_data = d.origin_data ++ other.origin_data;
  reader_index = other.reader_index;
  writer_index = other.writer_index;
  marked_reader_index = other.marked_reader_index;
  marked_writer_index = other.marked_writer_index;
}

unfoldable pub clear : ByteBuf → ByteBuf
clear d = record d { reader_index = pos 0; writer_index = pos 0 }

compare_strings : List ℕ → List ℕ → Ordering
compare_strings [] [] = Ordering.eq
compare_strings [] (y ∷ ys) = Ordering.lt
compare_strings (x ∷ xs) [] = Ordering.gt
compare_strings (x ∷ xs) (y ∷ ys) =
    let rest = compare_strings xs ys in
    elim (compare x y) [
      | Ordering.lt ↦ Ordering.lt
      | Ordering.eq ↦ rest
      | Ordering.gt ↦ Ordering.gt
    ]

-- The sign of what `std::string::compare` returns.
unfoldable pub compare_to : ByteBuf → ByteBuf → Ordering
unfolding compare_strings
compare_to d buffer = compare_strings d.origin_data buffer.origin_data

reader_within : ByteBuf → ByteBuf
reader_within d =
    if leb (length d.origin_data) (to_size d.reader_index)
    then record d { reader_index = to_int32 (pos (length d.origin_data) -ℤ pos 1) }
    else d

writer_within : ByteBuf → ByteBuf
writer_within d =
    if ltb (length d.origin_data) (to_size d.writer_index)
    then record d { writer_index = to_int32 (pos (length d.origin_data)) }
    else d

-- The two tests stand after one another; the copy that is returned equals the state.
unfoldable pub set_index : ByteBuf → ℤ → ℤ → ByteBuf
unfolding reader_within writer_within
set_index d reader writer =
    if length d.origin_data == 0
    then d
    else writer_within (reader_within (record d { reader_index = reader; writer_index = writer }))

unfoldable pub is_readable : ByteBuf → Bool
is_readable d = ltb_ℤ (pos 0) (d.writer_index -ℤ d.reader_index)

unfoldable pub is_readable_size : ByteBuf → ℤ → Bool
is_readable_size d size = leb_ℤ size (d.writer_index -ℤ d.reader_index)

unfoldable pub mark_reader_index : ByteBuf → ByteBuf
mark_reader_index d = record d { marked_reader_index = d.reader_index }

unfoldable pub mark_writer_index : ByteBuf → ByteBuf
mark_writer_index d = record d { marked_writer_index = d.writer_index }

-- `readerIndex(int32_t)`.
unfoldable pub set_reader_index : ByteBuf → ℤ → ByteBuf
set_reader_index d reader_index =
    if leb_ℤ reader_index d.writer_index then record d { reader_index = reader_index } else d

unfoldable pub reset_reader_index : ByteBuf → ByteBuf
reset_reader_index d = record d { reader_index = d.marked_reader_index }

-- `writerIndex(int32_t)`.
unfoldable pub set_writer_index : ByteBuf → ℤ → ByteBuf
set_writer_index d writer_index =
    if ltb (to_size writer_index) (length d.origin_data)
    then record d { writer_index = writer_index }
    else d

unfoldable pub reset_writer_index : ByteBuf → ByteBuf
reset_writer_index d = record d { writer_index = d.marked_writer_index }

abbrev pub readable_bytes : ByteBuf → ℤ
readable_bytes d = d.writer_index -ℤ d.reader_index

skip_within : ByteBuf → ByteBuf
skip_within d =
    if ltb (length d.origin_data) (to_size d.reader_index)
    then record d { reader_index = to_int32 (pos (length d.origin_data)) }
    else d

unfoldable pub skip_bytes : ByteBuf → ℤ → ByteBuf
unfolding skip_within
skip_bytes d n = skip_within (record d { reader_index = to_int32 (d.reader_index +ℤ n) })
