-- ===== src/Device/Uart.antt =====
-- gwcpp/device/SerialDevice.cpp: uartSet and baudRate2Enum. The constants of <termios.h> are parameters:
-- a flag is the list of its bits, and a speed macro may be missing.
pub mod Flow
use cpptool_box.Base.{
  ℕ, List, [], ◌∷◌, Bool, true, false, not, ◌&&◌, ◌||◌, ◌==◌, Option, none, some, if◌then◌else◌, ℤ,
  pos, negsuc, eq_ℤ,
}

-- The flag macros that `uartSet` uses.
pub data Flag : Type 0 where
  parenb parodd inpck istrip cstopb csize cs5 cs6 cs7 cs8 crtscts : Flag
  ixon ixoff ixany inlcr igncr icrnl iuclc ignbrk ignpar : Flag
  opost olcuc onlcr ocrnl onocr onlret : Flag
  cread hupcl clocal isig icanon echo iexten : Flag

-- A mode word of `struct termios`, by its bits.
pub record Termios : Type 0 where
  pub c_iflag : ℕ → Bool
  pub c_oflag : ℕ → Bool
  pub c_cflag : ℕ → Bool
  pub c_lflag : ℕ → Bool
  pub ispeed : ℤ
  pub ospeed : ℤ

-- The enumerations of SerialDevice.h; ParityMark, and a number that names no member, have the default branch.
pub data Parity : Type 0 where
  parity_none parity_odd parity_even parity_mark parity_space : Parity

pub data DataBits : Type 0 where
  data_bits5 data_bits6 data_bits7 data_bits8 : DataBits

pub data StopBits : Type 0 where
  stop_one stop_two : StopBits

pub data FlowControl : Type 0 where
  flow_none flow_hardware flow_software : FlowControl

-- The rates that the switch of `baudRate2Enum` lists.
abbrev pub listed_rates : List ℕ
listed_rates =
    50
    ∷ (75
        ∷ (110
            ∷ (134
                ∷ (150
                    ∷ (200
                        ∷ (300
                            ∷ (600
                                ∷ (1200
                                    ∷ (1800
                                        ∷ (2400
                                            ∷ (4800
                                                ∷ (9600
                                                    ∷ (19200
                                                        ∷ (38400
                                                            ∷ (57600
                                                            ∷ (115200
                                                            ∷ (230400
                                                            ∷ (345600
                                                            ∷ (460800
                                                            ∷ (500000
                                                            ∷ (576000
                                                            ∷ (921600
                                                            ∷ (1000000
                                                            ∷ (1152000
                                                            ∷ (1500000
                                                            ∷ (2000000
                                                            ∷ (2500000
                                                            ∷ (3000000
                                                            ∷ (3500000
                                                            ∷ (4000000
                                                            ∷ []))))))))))))))))))))))))))))))

abbrev pub is_in : ℕ → List ℕ → Bool
is_in n [] = false
is_in n (m ∷ ms) = (n == m) || is_in n ms

-- `B50` and so on, where the platform defines them.
module _ (speed_macro : ℕ → Option ℤ) where
  abbrev pub macro_or : Option ℤ → ℤ
  macro_or none = negsuc 0
  macro_or (some b) = b

  -- `baudRate2Enum`.
  unfoldable pub baud_rate_to_enum : ℕ → ℤ
  baud_rate_to_enum baudrate =
      if is_in baudrate listed_rates then macro_or (speed_macro baudrate) else negsuc 0

  -- The calls of cfsetispeed and cfsetospeed, which are parameters too; what they return is not read.
  unfoldable pub set_speed :
      (ℤ → Termios → Termios) → (ℤ → Termios → Termios) → ℕ → Termios → Termios
  set_speed cfsetispeed cfsetospeed baudrate o =
      if eq_ℤ (baud_rate_to_enum baudrate) (pos 0)
      then o
      else cfsetospeed (baud_rate_to_enum baudrate) (cfsetispeed (baud_rate_to_enum baudrate) o)

module _ (bits : Flag → List ℕ) where
  -- `w |= F` and `w &= ~F`.
  abbrev pub with_flag : Flag → (ℕ → Bool) → ℕ → Bool
  with_flag f w b = w b || is_in b (bits f)

  abbrev pub without_flag : Flag → (ℕ → Bool) → ℕ → Bool
  without_flag f w b = w b && not (is_in b (bits f))

  abbrev pub with_flags : List Flag → (ℕ → Bool) → ℕ → Bool
  with_flags [] w = w
  with_flags (f ∷ fs) w = with_flags fs (with_flag f w)

  abbrev pub without_flags : List Flag → (ℕ → Bool) → ℕ → Bool
  without_flags [] w = w
  without_flags (f ∷ fs) w = without_flags fs (without_flag f w)

  abbrev pub set_parity : Parity → (ℕ → Bool) → Option (ℕ → Bool)
  set_parity parity_none w = some (without_flag inpck (without_flag parenb w))
  set_parity parity_odd w =
      some (with_flag istrip (with_flag inpck (with_flag parodd (with_flag parenb w))))
  set_parity parity_even w =
      some (with_flag istrip (with_flag inpck (without_flag parodd (with_flag parenb w))))
  set_parity parity_space w = some (without_flag cstopb (without_flag parenb w))
  set_parity parity_mark w = none

  abbrev pub set_data_bits : DataBits → (ℕ → Bool) → ℕ → Bool
  set_data_bits data_bits5 w = with_flag cs5 (without_flag csize w)
  set_data_bits data_bits6 w = with_flag cs6 (without_flag csize w)
  set_data_bits data_bits7 w = with_flag cs7 (without_flag csize w)
  set_data_bits data_bits8 w = with_flag cs8 (without_flag csize w)

  abbrev pub set_stop_bits : StopBits → (ℕ → Bool) → ℕ → Bool
  set_stop_bits stop_one w = without_flag cstopb w
  set_stop_bits stop_two w = with_flag cstopb w

  abbrev pub set_flow_control : FlowControl → (ℕ → Bool) → ℕ → Bool
  set_flow_control flow_none w = without_flag crtscts w
  set_flow_control flow_hardware w = with_flag crtscts w
  set_flow_control flow_software w = with_flags (ixon ∷ (ixoff ∷ (ixany ∷ []))) w

  -- The assignments behind the switches.
  abbrev pub set_raw : Termios → (ℕ → Bool) → Termios
  set_raw o c = record o {
    c_iflag = with_flags (ignbrk ∷ (ignpar ∷ [])) (
        without_flags (inlcr ∷ (igncr ∷ (icrnl ∷ (iuclc ∷ (ixon ∷ (ixany ∷ (ixoff ∷ [])))))))
          o.c_iflag);
    c_oflag =
        without_flags (opost ∷ (olcuc ∷ (onlcr ∷ (ocrnl ∷ (onocr ∷ (onlret ∷ [])))))) o.c_oflag;
    c_cflag = with_flags (cread ∷ (hupcl ∷ (clocal ∷ []))) (without_flag crtscts c);
    c_lflag = without_flags (isig ∷ (icanon ∷ (echo ∷ (iexten ∷ [])))) o.c_lflag;
  }

  abbrev pub set_rest :
      Termios → DataBits → StopBits → FlowControl → Option (ℕ → Bool) → Option Termios
  set_rest o d s f none = none
  set_rest o d s f (some w) =
      some (set_raw o (set_flow_control f (set_stop_bits s (set_data_bits d w))))

-- What `uartSet` hands to tcsetattr, from what tcgetattr gave it; `none` where it returns false before.
unfoldable pub uart_set :
    (ℕ → Option ℤ)
    → (ℤ → Termios → Termios)
    → (ℤ → Termios → Termios)
    → (Flag → List ℕ)
    → Termios
    → ℕ
    → Parity
    → DataBits
    → StopBits
    → FlowControl
    → Option Termios
uart_set speed_macro cfsetispeed cfsetospeed bits o baudrate parity data_bits stopbits
      flow_control =
    let p = set_speed speed_macro cfsetispeed cfsetospeed baudrate o in
    set_rest bits p data_bits stopbits flow_control (set_parity bits parity p.c_cflag)
