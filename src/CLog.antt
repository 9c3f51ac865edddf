-- ===== src/CLog.antt =====
-- gwcpp/base/CLog.h and CLog.cpp: the log messages, where they are written, and the names in them.
pub mod Names
pub mod Shown
use cpptool_box.Base.{
  ℕ, ◌+◌, ◌-◌, ◌/◌, ◌%◌, List, [], ◌∷◌, ◌++◌, Bool, Option, none, some, if◌then◌else◌, ◌==◌, ltb,
  length, take, ℤ, Result, ok, err, undefined, ◌>>=◌, c_str,
}
use cpptool_box.Files.{slash}
use cpptool_box.LogStream.{StreamBuffer, bzero, Item, integer, c_string, str, puts}

pub data Level : Type 0 where
  debug info warn error : Level

-- `LogLevelName`: " DEBUG", " INFO ", " WARN ", " ERROR".
abbrev pub log_level_name : Level → List ℕ
log_level_name debug = 32 ∷ 68 ∷ 69 ∷ 66 ∷ 85 ∷ 71 ∷ []
log_level_name info = 32 ∷ 73 ∷ 78 ∷ 70 ∷ 79 ∷ 32 ∷ []
log_level_name warn = 32 ∷ 87 ∷ 65 ∷ 82 ∷ 78 ∷ 32 ∷ []
log_level_name error = 32 ∷ 69 ∷ 82 ∷ 82 ∷ 79 ∷ 82 ∷ []

abbrev pub log_level_color : Level → ℕ
log_level_color debug = 34
log_level_color info = 32
log_level_color warn = 33
log_level_color error = 31

-- `writeLogLevel`: " INFO ", " WARN ", " ERROR" and, for the other level, "UNKNOW".
unfoldable pub write_log_level : Level → List ℕ
write_log_level info = 32 ∷ 73 ∷ 78 ∷ 70 ∷ 79 ∷ 32 ∷ []
write_log_level warn = 32 ∷ 87 ∷ 65 ∷ 82 ∷ 78 ∷ 32 ∷ []
write_log_level error = 32 ∷ 69 ∷ 82 ∷ 82 ∷ 79 ∷ 82 ∷ []
write_log_level debug = 85 ∷ 78 ∷ 75 ∷ 78 ∷ 79 ∷ 87 ∷ []

-- `baseFileName`: a pointer into the path is the part of it that begins there. The loop has `p_last`
-- and `p`, and ends at the zero byte.
unfoldable pub base_loop : List ℕ → List ℕ → List ℕ
base_loop last [] = last
base_loop last (c ∷ p) =
    let next = base_loop (if c == slash then p else last) p in if c == 0 then last else next

unfoldable pub base_file_name : Option (List ℕ) → Option (List ℕ)
base_file_name none = none
base_file_name (some full_path) = some (base_loop full_path full_path)

abbrev bracket : Item → List Item → List Item
bracket i rest = c_string (some (91 ∷ [])) ∷ i ∷ c_string (some (93 ∷ [])) ∷ rest

-- What the two constructors of `LogMsg` put in: the time, the level, the function, the file for the
-- second of them, and the line.
unfoldable pub short_items : Level → List ℕ → Option (List ℕ) → ℤ → List Item
short_items level date_time func line = bracket (str date_time) (
    bracket (c_string (some (log_level_name level)))
      (bracket (c_string func) (bracket (integer line) [])))

unfoldable pub long_items : Level → List ℕ → Option (List ℕ) → Option (List ℕ) → ℤ → List Item
long_items level date_time func file line = bracket (str date_time) (
    bracket (c_string (some (log_level_name level))) (
      bracket (c_string func)
        (bracket (c_string (base_file_name file)) (bracket (integer line) []))))

-- A new message: `cur_` at the start of the array, whose bytes may be anything, `zeroBuffer`, and the
-- items.
unfoldable pub log_msg : List ℕ → List Item → Result StreamBuffer
log_msg bytes items = puts (bzero (record { data_bytes = bytes; cur = 0 })) items

-- The text that begins at `data()`: C++ leaves a read behind the array undefined.
unfoldable pub data_text : List ℕ → Result (List ℕ)
data_text [] = err undefined
data_text (c ∷ s) = let rest = data_text s in if c == 0 then ok [] else (rest >>= λ t. ok (c ∷ t))

pub data Output : Type 0 where
  file : List ℕ → List ℕ → Output  -- the name of the file, and what is put behind its end
  terminal : List ℕ → Output

-- ".log".
abbrev log_name : List ℕ → List ℕ
log_name current_data = current_data ++ (46 ∷ 108 ∷ 111 ∷ 103 ∷ [])

-- A text to a file, if it opens.
abbrev to_log : (List ℕ → Bool) → List ℕ → List ℕ → List Output
to_log opens current_data t =
    if opens (log_name current_data) then file (log_name current_data) (t ++ (10 ∷ [])) ∷ [] else []

-- "\033[%dm%s\e[0m\n"; the colours have two digits.
abbrev colored : ℕ → List ℕ → List ℕ
colored color t =
    (27 ∷ 91 ∷ (48 + color / 10) ∷ (48 + color % 10) ∷ 109 ∷ [])
    ++ (t ++ (27 ∷ 91 ∷ 48 ∷ 109 ∷ 10 ∷ []))

-- What the destructor writes for a text.
abbrev pub outputs : Bool → (List ℕ → Bool) → List ℕ → Level → List ℕ → List Output
outputs is_to_file opens current_data level t =
    (if is_to_file then to_log opens current_data t else [])
    ++ (terminal (colored (log_level_color level) t) ∷ [])

-- `opens` is whether a file can be opened, `current_data` the text of `GetCurrentData`.
unfoldable pub log_msg_destroy :
    Bool → (List ℕ → Bool) → List ℕ → Level → StreamBuffer → Result (List Output)
log_msg_destroy is_to_file opens current_data level b =
    data_text b.data_bytes >>= λ t. ok (outputs is_to_file opens current_data level t)

-- A whole statement such as `CLOG_INFO() << ...;`: the constructor, the values, the destructor.
unfoldable pub log_statement :
    Bool → (List ℕ → Bool) → List ℕ → Level → List ℕ → List Item → List Item → Result (List Output)
log_statement is_to_file opens current_data level bytes header items = log_msg bytes header >>= λ b.
    puts b items >>= λ c. log_msg_destroy is_to_file opens current_data level c

abbrev pub mx_log_buffer_size : ℕ
mx_log_buffer_size = 256

-- `sprintf` of the head, for the text of "%d" of the line.
abbrev head : List ℕ → Level → List ℕ → List ℕ → List ℕ
head current_time level func line =
    (91 ∷ current_time)
    ++ ((93 ∷ 91 ∷ write_log_level level) ++ ((93 ∷ 91 ∷ func) ++ ((93 ∷ 91 ∷ line) ++ (93 ∷ []))))

-- `CLOGPrint`, for the text that the format makes of its arguments: the head is written without a
-- bound, the rest up to the end of the buffer.
unfoldable pub clog_print :
    Bool
    → (List ℕ → Bool)
    → List ℕ
    → List ℕ
    → Level
    → List ℕ
    → List ℕ
    → List ℕ
    → Result (List Output)
clog_print is_to_file opens current_data current_time level func line body =
    let h = head current_time level func line in
    let t = c_str (h ++ take (mx_log_buffer_size - length h - 1) body) in
    if ltb (length h) mx_log_buffer_size
    then ok
        (if is_to_file then to_log opens current_data t ++ (terminal (t ++ (10 ∷ [])) ∷ []) else [])
    else err undefined
