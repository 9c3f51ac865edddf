-- ===== src/CLog/Shown.antt =====
-- What a log statement of gwcpp/base/CLog.cpp writes.
use cpptool_box.Base.{ℕ, ◌^◌, ◌<◌, ◌≡◌, List, Bool, length, All}
use cpptool_box.LogStream.{StreamBuffer, bzero, Item, character, str, real}
use cpptool_box.LogStream.Text.{IsItem}
use cpptool_box.CLog.{Level}

-- A text without a zero byte.
abbrev pub IsText : List ℕ → Type 0
IsText = All (λ c. 0 < c)

-- Values whose text has no zero byte.
abbrev pub IsShown : Item → Type 0
IsShown (character c) = 0 < c
IsShown (str s) = IsText s
IsShown (real s) = IsText s
IsShown i = Unit

-- The values that a statement may put in: their text has no zero byte and a bounded length.
abbrev pub IsLoggable : Item → Type 0
IsLoggable i = IsItem i × IsShown i

module _ (is_to_file : Bool) (opens : List ℕ → Bool) (current_data : List ℕ) (level : Level) (n : ℕ)
    (bytes : List ℕ) (size : length bytes ≡ n) (room : 0 < n) (small : n < 2 ^ 31) (vs : List Item)
    (loggable : All IsLoggable vs) where
  start : StreamBuffer
  start = bzero (record { data_bytes = bytes; cur = 0 })
