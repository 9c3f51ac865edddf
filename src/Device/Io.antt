-- ===== src/Device/Io.antt =====
-- gwcpp/device/IOControl.h: the pins behind /dev/gpiork, with the calls that each operation makes.
use cpptool_box.Base.{
  ℕ, zero, suc, ◌+◌, ◌*◌, ◌≡◌, refl, List, [], ◌∷◌, Bool, true, false, if◌then◌else◌, ◌==◌, ℤ, pos,
  negsuc, arith,
}

pub data GpioFunc : Type 0 where
  relay1 relay2 relay3 relay4 relay5 relay6 relay7 relay8 : GpioFunc
  input1 input2 input3 input4 input5 input6 input7 input8 : GpioFunc
  rs4851_ctrl rs4852_ctrl : GpioFunc

abbrev pub gpio_number : GpioFunc → ℕ
gpio_number relay1 = 0
gpio_number relay2 = 1
gpio_number relay3 = 2
gpio_number relay4 = 3
gpio_number relay5 = 4
gpio_number relay6 = 5
gpio_number relay7 = 6
gpio_number relay8 = 7
gpio_number input1 = 8
gpio_number input2 = 9
gpio_number input3 = 10
gpio_number input4 = 11
gpio_number input5 = 12
gpio_number input6 = 13
gpio_number input7 = 14
gpio_number input8 = 15
gpio_number rs4851_ctrl = 16
gpio_number rs4852_ctrl = 17

-- The calls that are made: `open` with its result, `ioctl` with the value that it is given, `close`.
pub data Call : Type 0 where
  opens : ℤ → Call
  ioctls : ℕ → ℕ → Call
  closes : ℕ → Call

-- `openFd`: the descriptor, or 0 where `open` fails.
abbrev pub open_fd : ℤ → ℕ
open_fd (pos fd) = fd
open_fd (negsuc n) = 0

-- `setValue`, by what `open` returns; a failing ioctl is logged and changes nothing else.
unfoldable pub set_value : GpioFunc → Bool → ℤ → List Call
set_value gpio_no state opened =
    if open_fd opened == 0
    then opens opened ∷ []
    else opens opened
      ∷ ioctls (open_fd opened) ((if state then 1 else 0) * 256 + gpio_number gpio_no)
      ∷ closes (open_fd opened)
      ∷ []

-- `getValue`, by what `open` returns, whether ioctl succeeds, and the value that it leaves.
unfoldable pub get_value : GpioFunc → ℤ → Bool → ℕ → List Call × ℤ
get_value gpio_no opened done val =
    if open_fd opened == 0
    then (opens opened ∷ [], negsuc 0)
    else if done
    then (
      opens opened ∷ ioctls (open_fd opened) (gpio_number gpio_no) ∷ closes (open_fd opened) ∷ [],
      pos val,
    )
    else (opens opened ∷ ioctls (open_fd opened) (gpio_number gpio_no) ∷ [], negsuc 0)

-- How many descriptors are left open.
abbrev pub left_open : List Call → ℕ → ℕ
left_open [] n = n
left_open (opens (pos fd) ∷ cs) n = left_open cs (suc n)
left_open (closes fd ∷ cs) zero = left_open cs zero
left_open (closes fd ∷ cs) (suc n) = left_open cs n
left_open (c ∷ cs) n = left_open cs n

-- `setValue` leaves no descriptor open but descriptor 0, which it takes for an error.
-- `getValue` does so too where ioctl succeeds, and leaves the descriptor open where it fails.
pub descriptors_left :
    (gpio_no : GpioFunc) (state : Bool) (fd val : ℕ)
    → (left_open (set_value gpio_no state (pos (suc fd))) 0 ≡ 0)
      × (left_open (set_value gpio_no state (pos 0)) 0 ≡ 1)
      × (left_open (get_value gpio_no (pos (suc fd)) true val).0 0 ≡ 0)
      × (left_open (get_value gpio_no (pos (suc fd)) false val).0 0 ≡ 1)
unfolding set_value get_value
descriptors_left gpio_no state fd val = (ground arith, refl, ground arith, ground arith)
