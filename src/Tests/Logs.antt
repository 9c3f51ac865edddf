-- ===== src/Tests/Logs.antt =====
-- Tests of the log statements of gwcpp/base/CLog.cpp.
use cpptool_box.Base.{
  ℕ, ◌≡◌, refl, List, [], ◌∷◌, ◌++◌, Bool, true, false, some, pos, replicate, ok, err, undefined,
  arith,
}
use cpptool_box.Files.{get_file_name}
use cpptool_box.Utils.Convert.{convert_digits, zero_at, convert}
use cpptool_box.LogStream.{Item, str, put_number, format_integer, append, write_at, put, puts}
use cpptool_box.CLog.{
  info, file, terminal, base_loop, base_file_name, short_items, log_msg, data_text, log_msg_destroy,
  log_statement, write_log_level, clog_print,
}
use cpptool_box.CLog.Names.{base_file_name-get_file_name}

-- "/a/b".
abbrev path : List ℕ
path = 47 ∷ 97 ∷ 47 ∷ 98 ∷ []

base_file_name-get_file_name_example :
    (t : List ℕ) × ((base_file_name (some path) ≡ some t) × (get_file_name path false ≡ ok t))
base_file_name-get_file_name_example =
    base_file_name-get_file_name path (omega arith, (omega arith, (omega arith, (omega arith, tt))))

base_file_name-b : base_file_name (some path) ≡ some (98 ∷ [])
unfolding base_file_name base_loop
base_file_name-b = refl

-- An array of 100 bytes, the time "12", the function "f" and the line 7.
abbrev bytes : List ℕ
bytes = replicate 100 170

abbrev items : List Item
items = str (111 ∷ 107 ∷ []) ∷ []

abbrev opens : List ℕ → Bool
opens name = true

-- "[12][ INFO ][f][7]ok".
abbrev logged : List ℕ
logged =
    91 ∷ 49 ∷ 50 ∷ 93 ∷ 91 ∷ 32 ∷ 73 ∷ 78 ∷ 70 ∷ 79 ∷ 32 ∷ 93 ∷ 91 ∷ 102 ∷ 93 ∷ 91 ∷ 55 ∷ 93 ∷ 111
    ∷ 107 ∷ []

log_statement-file :
    log_statement true opens
      (50 ∷ [])
      info
      bytes
      (short_items info (49 ∷ 50 ∷ []) (some (102 ∷ [])) (pos 7))
      items
    ≡ ok (
        file (50 ∷ 46 ∷ 108 ∷ 111 ∷ 103 ∷ []) (logged ++ (10 ∷ []))
        ∷ terminal (27 ∷ 91 ∷ 51 ∷ 50 ∷ 109 ∷ (logged ++ (27 ∷ 91 ∷ 48 ∷ 109 ∷ 10 ∷ [])))
        ∷ [])
unfolding log_statement log_msg log_msg_destroy data_text short_items puts put append write_at
    format_integer put_number convert convert_digits zero_at
log_statement-file = refl

-- The name of a function of 240 bytes: the head of the line is longer than the buffer.
clog_print-overflow :
    clog_print true opens (50 ∷ []) (49 ∷ 50 ∷ []) info (replicate 240 102) (55 ∷ []) []
    ≡ err undefined
unfolding clog_print write_log_level
clog_print-overflow = refl

-- Where the log to a file is off, CLOGPrint does not write to the terminal either.
clog_print-off :
    clog_print false opens (50 ∷ []) (49 ∷ 50 ∷ []) info (102 ∷ []) (55 ∷ []) (111 ∷ 107 ∷ [])
    ≡ ok []
unfolding clog_print write_log_level
clog_print-off = refl
