-- ===== src/Tests/Devices.antt =====
-- Tests of the serial device of gwcpp/device.
use cpptool_box.Base.{
  ℕ, ◌≡◌, refl, List, [], ◌∷◌, ◌++◌, none, some, Option, true, false, arith, pos, negsuc, ℤ, ok,
  ◌+◌, ◌*◌, ◌/◌, ◌%◌, ◌^◌,
}
use cpptool_box.Event.Poller.{new_event}
use cpptool_box.Device.Serial.{
  SerialDevice, k_running, new_device, reads_out, bytes, on_read_callback,
}
use cpptool_box.Device.Serial.Read.{heads, on_read_callback-delivers}
use cpptool_box.Device.Serial.Closing.{IsRunning}
use cpptool_box.Device.Adc.{AdcDevice, gnd, init, start_continuous_read}
use cpptool_box.Device.Adc.Fields.{Says}
use cpptool_box.Device.Adc.Setup.{IsAttached, init-Says}
use cpptool_box.Device.Uart.{
  Flag, crtscts, cread, hupcl, clocal, Termios, flow_hardware, parity_none, data_bits8, stop_one,
  uart_set,
}
use cpptool_box.Device.Uart.Flow.{uart_set-no_hardware_flow}
use cpptool_box.Tests.{watching_poller, watching-IsValid}
use cpptool_box.Tests.Connections.{read_mask}

abbrev device : SerialDevice
device = record (new_device (watching_poller read_mask)) {
  state = k_running;
  fd = pos 5;
  serial_event = some 0;
  read_callback = true;
}

device-IsRunning : IsRunning device 0
unfolding new_device new_event
device-IsRunning = record {
  running = refl;
  channel = refl;
  valid = watching-IsValid read_mask;
  entry = refl;
}

on_read_callback-delivers_example :
    (u : SerialDevice) × (on_read_callback (bytes (1 ∷ (2 ∷ []))) ((3 ∷ (4 ∷ [])) ∷ []) device
      ≡ ok u)
    × (u.effects
        ≡ device.effects ++ (reads_out ((1 ∷ (2 ∷ [])) ++ heads ((3 ∷ (4 ∷ [])) ∷ [])) ∷ []))
    × (u.state ≡ device.state)
unfolding new_device
on_read_callback-delivers_example =
    on_read_callback-delivers device (1 ∷ (2 ∷ [])) ((3 ∷ (4 ∷ [])) ∷ []) refl refl refl
      (omega arith) (omega arith, tt) (omega arith)

-- The control flags as Linux numbers their bits; the others have none here.
abbrev linux_bits : Flag → List ℕ
linux_bits f = elim f [
  | crtscts ↦ 31 ∷ []
  | cread ↦ 7 ∷ []
  | hupcl ↦ 10 ∷ []
  | clocal ↦ 11 ∷ []
  | _ ↦ []
]

abbrev raw_mode : Termios
raw_mode = record {
  c_iflag = λ b. false;
  c_oflag = λ b. false;
  c_cflag = λ b. false;
  c_lflag = λ b. false;
  ispeed = pos 0;
  ospeed = pos 0;
}

abbrev set_ispeed : ℤ → Termios → Termios
set_ispeed b o = record o { ispeed = b }

abbrev set_ospeed : ℤ → Termios → Termios
set_ospeed b o = record o { ospeed = b }

abbrev hardware_mode : Option Termios
hardware_mode =
    uart_set (λ n. some (pos 13)) set_ispeed set_ospeed linux_bits raw_mode 9600 parity_none
      data_bits8 stop_one flow_hardware

abbrev mode_or : Option Termios → Termios
mode_or none = raw_mode
mode_or (some m) = m

uart_set-no_hardware_flow_example : (mode_or hardware_mode).c_cflag 31 ≡ false
unfolding uart_set
uart_set-no_hardware_flow_example =
    uart_set-no_hardware_flow (λ n. some (pos 13)) set_ispeed set_ospeed linux_bits
      (λ b h. ground (arith, h)) (λ b h. ground (arith, h)) (λ b h. ground (arith, h)) raw_mode
      (mode_or hardware_mode) 9600 parity_none data_bits8 stop_one flow_hardware 31 refl refl

-- A converter that is nothing but its configuration register.
abbrev bare_read : ℤ → ℕ → ℕ → ℕ → Option (ℕ × ℕ)
bare_read fd conf a reg = some (conf % 2 ^ 16 / 256, conf % 2 ^ 16 % 256)

abbrev bare_write : ℤ → ℕ → ℕ → List ℕ → Option ℕ
bare_write fd conf a (reg ∷ high ∷ low ∷ []) = some ((high * 256 + low) % 2 ^ 16)
bare_write fd conf a other = none

bare-IsAttached : IsAttached bare_read bare_write (pos 3) 72 (λ conf. conf % 2 ^ 16)
bare-IsAttached = record {
  small = λ b. omega arith;
  reads = λ b. refl;
  writes = λ b high low. ((high * 256 + low) % 2 ^ 16, (refl, omega arith));
}

abbrev adc : AdcDevice
adc = record { fd = negsuc 0; addr = 0; channel = 0; range = 0; rate = 0; compare_value = 0 }

init-Says_example :
    (e : AdcDevice) × ((c : ℕ) × ((init bare_read bare_write adc 34179 (pos 3) gnd 6 1 7 true
          ≡ (true, (e, c)))
        × Says
            (6 % 8)
            (1 % 8)
            0
            (7 % 8)
            1
            ((start_continuous_read bare_read bare_write e c).1 % 2 ^ 16)))
init-Says_example =
    init-Says bare_read bare_write (λ conf. conf % 2 ^ 16) adc 34179 (pos 3) gnd 6 1 7 true refl
      bare-IsAttached
