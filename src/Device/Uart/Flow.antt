-- ===== src/Device/Uart/Flow.antt =====
-- The flow control and the speed that `uartSet` sets.
use cpptool_box.Base.{
  ℕ, ◌≡◌, sym, some-injective, ap, ◌∙◌, List, Bool, true, false, not, ◌&&◌, ◌||◌, Option, none,
  some, ℤ, arith,
}
use cpptool_box.Device.Uart.{
  Flag, crtscts, cread, hupcl, clocal, Termios, Parity, DataBits, StopBits, FlowControl, is_in,
  set_speed, set_flow_control, set_stop_bits, set_data_bits, set_parity, set_rest, uart_set,
  set_raw,
}

-- Two flags share no bit.
abbrev pub Apart : (Flag → List ℕ) → Flag → Flag → Type 0
Apart bits f g = (b : ℕ) → is_in b (bits f) ≡ true → is_in b (bits g) ≡ false

module _ (speed_macro : ℕ → Option ℤ) (cfsetispeed cfsetospeed : ℤ → Termios → Termios)
    (bits : Flag → List ℕ) (rts_cread : Apart bits crtscts cread)
    (rts_hupcl : Apart bits crtscts hupcl) (rts_clocal : Apart bits crtscts clocal) where
  cleared :
      (x a c d e : Bool)
      → a ≡ true
      → c ≡ false
      → d ≡ false
      → e ≡ false
      → (((x && not a) || c) || d) || e ≡ false
  cleared x a c d e h i j k = ground arith

  raw_lem :
      (o : Termios) (c : ℕ → Bool) (b : ℕ)
      → is_in b (bits crtscts) ≡ true
      → (set_raw bits o c).c_cflag b ≡ false
  raw_lem o c b r =
      cleared (c b) (is_in b (bits crtscts)) (is_in b (bits cread)) (is_in b (bits hupcl))
        (is_in b (bits clocal)) r (rts_cread b r) (rts_hupcl b r) (rts_clocal b r)

  rest_lem :
      (o p : Termios) (d : DataBits) (s : StopBits) (f : FlowControl) (w : Option (ℕ → Bool))
      (b : ℕ)
      → set_rest bits o d s f w ≡ some p
      → is_in b (bits crtscts) ≡ true
      → p.c_cflag b ≡ false
  rest_lem o p d s f none b h r = ground (arith, h)
  rest_lem o p d s f (some w) b h r =
      ap (λ q. q.c_cflag b) (sym (some-injective h))
      ∙ raw_lem o (set_flow_control bits f (set_stop_bits bits s (set_data_bits bits d w))) b r

  -- Whatever flow control is asked for, a mode that is set has no bit of CRTSCTS, if CREAD, HUPCL and
  -- CLOCAL share none with it.
  pub uart_set-no_hardware_flow :
      (o p : Termios) (n : ℕ) (parity : Parity) (d : DataBits) (s : StopBits) (f : FlowControl)
      (b : ℕ)
      → uart_set speed_macro cfsetispeed cfsetospeed bits o n parity d s f ≡ some p
      → is_in b (bits crtscts) ≡ true
      → p.c_cflag b ≡ false
  unfolding uart_set
  uart_set-no_hardware_flow o p n parity d s f b h r =
      rest_lem (set_speed speed_macro cfsetispeed cfsetospeed n o) p d s f
        (set_parity bits parity (set_speed speed_macro cfsetispeed cfsetospeed n o).c_cflag) b h r
