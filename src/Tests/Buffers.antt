-- ===== src/Tests/Buffers.antt =====
-- Tests of gwcpp/base/ByteBuf.
use cpptool_box.Base.{
  ◌-◌, ◌≡◌, refl, [], ◌∷◌, some, arith, take, length, map, pos, ok, err, undefined,
}
use cpptool_box.ByteBuf.Data.{
  ByteBuf, new_data, w8, w16, get_loop, read_t, w32, w64, advance, get_t, get_tle, write_data,
  to_binary,
}
use cpptool_box.ByteBuf.Data.Window.{IsValid, contents}
use cpptool_box.ByteBuf.Data.Reads.{value_at, get_t-value_at}
use cpptool_box.ByteBuf.Data.Wide.{get_t_wide}
use cpptool_box.ByteBuf.Data.Messages.{encode, Message, read_all, write_all, read_all-write_all}
use cpptool_box.ByteBuf.Hex.{lower, from_hex, to_hex_string}
use cpptool_box.ByteBuf.Hex.RoundTrip.{from_hex-to_hex_string}
use cpptool_box.ByteBuf.Index.{of_string, mark_reader_index, reset_reader_index}
use cpptool_box.ByteBuf.Fifo
use cpptool_box.ByteBuf.Fifo.{Op, put, get, run_queue, run_refines}
use cpptool_box.ByteBuf.Search.{bytes_before, bytes_before_run}
use cpptool_box.ByteBuf.Search.First.{or_minus_one, position, bytes_before-position}
use cpptool_box.ByteBuf.Search.Run.{first_run, bytes_before_run-first_run}
use cpptool_box.ByteBuf.Moves.{
  start, next, writes, marks_reader, reads_t, resets_reader, Reach-IsValid,
}

-- Four bytes, of which the first is read.
abbrev four : ByteBuf
four = record new_data {
  origin_data = 1 ∷ (7 ∷ (7 ∷ (0 ∷ [])));
  reader_index = pos 1;
  writer_index = pos 4;
}

four-IsValid : IsValid four
four-IsValid = omega arith

abbrev two_values : Message
two_values = (w16, 513) ∷ ((w32, 7) ∷ [])

run_refines_example :
    Fifo.run new_data (put (1 ∷ (2 ∷ (3 ∷ []))) ∷ (get 2 ∷ (get 5 ∷ [])))
    ≡ ok (run_queue [] (put (1 ∷ (2 ∷ (3 ∷ []))) ∷ (get 2 ∷ (get 5 ∷ []))))
unfolding Fifo.written
run_refines_example = run_refines (put (1 ∷ (2 ∷ (3 ∷ []))) ∷ (get 2 ∷ (get 5 ∷ []))) (omega arith)

read_all-write_all_example :
    (d : ByteBuf) × (read_all (write_all new_data two_values) (map (λ p. p.0) two_values)
      ≡ ok (map (λ p. p.1) two_values, d))
    × (contents d ≡ [])
unfolding encode to_binary
read_all-write_all_example =
    read_all-write_all two_values ((omega arith, omega arith), ((omega arith, omega arith), tt))
      (omega arith)

from_hex-to_hex_string_example :
    from_hex (to_hex_string four lower []) ≡ some (ok (of_string four.origin_data))
from_hex-to_hex_string_example =
    from_hex-to_hex_string four lower (omega arith, (omega arith, (omega arith, (omega arith, tt))))
      (omega arith) (omega arith)

get_t-value_at_example : get_t w16 four (pos 1) ≡ value_at w16 four.origin_data 1
get_t-value_at_example =
    get_t-value_at w16 four 1 (omega arith) (omega arith)
      (omega arith, (omega arith, (omega arith, (omega arith, tt)))) (omega arith)

abbrev eight : ByteBuf
eight = of_string (1 ∷ (2 ∷ (3 ∷ (4 ∷ (5 ∷ (6 ∷ (7 ∷ (8 ∷ []))))))))

get_t_wide_example :
    (get_t w64 eight (pos 0) ≡ err undefined) × (get_tle w64 eight (pos 0) ≡ err undefined)
get_t_wide_example = get_t_wide eight 0 (omega arith) (omega arith)

bytes_before-position_example :
    bytes_before four 0 ≡ ok (or_minus_one 0 (position 0 (contents four)))
bytes_before-position_example = bytes_before-position four 0 four-IsValid

bytes_before_run-first_run_example :
    bytes_before_run four (pos 2) 7
    ≡ ok (or_minus_one 0 (first_run 7 2 (take (length (contents four) - 1) (contents four))))
bytes_before_run-first_run_example = bytes_before_run-first_run four 1 7 four-IsValid

abbrev two_bytes : ByteBuf
two_bytes = write_data new_data (1 ∷ (2 ∷ []))

-- One byte is read, and the reader position reset to its mark.
Reach-IsValid_example : IsValid (reset_reader_index (advance (mark_reader_index two_bytes) 1))
unfolding write_data mark_reader_index reset_reader_index read_t get_loop
Reach-IsValid_example = Reach-IsValid (
    next
      (next (next (next start (writes (1 ∷ (2 ∷ [])) (omega arith))) marks_reader)
        (reads_t w8 1 (advance (mark_reader_index two_bytes) 1) (omega arith) refl))
      (resets_reader refl (omega arith)))
