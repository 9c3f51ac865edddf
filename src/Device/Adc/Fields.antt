-- ===== src/Device/Adc/Fields.antt =====
-- The fields of the configuration register do not disturb one another.
use cpptool_box.Base.{ℕ, ◌%◌, ◌^◌, ◌<◌, ◌≡◌, arith}
use cpptool_box.Device.Adc.{field, with_field}

-- What the register says but for its highest bit, which the converter sets by itself.
pub record Says (channel range mode rate compare : ℕ) (conf : ℕ) : Type 0 where
  pub in_channel : field 12 3 conf ≡ channel
  pub in_range : field 9 3 conf ≡ range
  pub in_mode : field 8 1 conf ≡ mode
  pub in_rate : field 5 3 conf ≡ rate
  pub in_compare : field 2 1 conf ≡ compare

module _ {channel range mode rate compare : ℕ} (conf next : ℕ)
    (says : Says channel range mode rate compare conf) where
  open says use {in_channel, in_range, in_mode, in_rate, in_compare}

  pub Says-channel :
      (v : ℕ)
      → v < 8
      → next % 2 ^ 15 ≡ with_field 12 3 v conf % 2 ^ 15
      → Says v range mode rate compare next
  Says-channel v h e = record {
    in_channel = omega arith;
    in_range = omega (arith, in_range);
    in_mode = omega (arith, in_mode);
    in_rate = omega (arith, in_rate);
    in_compare = omega (arith, in_compare);
  }

  pub Says-range :
      (v : ℕ)
      → v < 8
      → next % 2 ^ 15 ≡ with_field 9 3 v conf % 2 ^ 15
      → Says channel v mode rate compare next
  Says-range v h e = record {
    in_channel = omega (arith, in_channel);
    in_range = omega arith;
    in_mode = omega (arith, in_mode);
    in_rate = omega (arith, in_rate);
    in_compare = omega (arith, in_compare);
  }

  pub Says-mode :
      (v : ℕ)
      → v < 2
      → next % 2 ^ 15 ≡ with_field 8 1 v conf % 2 ^ 15
      → Says channel range v rate compare next
  Says-mode v h e = record {
    in_channel = omega (arith, in_channel);
    in_range = omega (arith, in_range);
    in_mode = omega arith;
    in_rate = omega (arith, in_rate);
    in_compare = omega (arith, in_compare);
  }

  pub Says-rate :
      (v : ℕ)
      → v < 8
      → next % 2 ^ 15 ≡ with_field 5 3 v conf % 2 ^ 15
      → Says channel range mode v compare next
  Says-rate v h e = record {
    in_channel = omega (arith, in_channel);
    in_range = omega (arith, in_range);
    in_mode = omega (arith, in_mode);
    in_rate = omega arith;
    in_compare = omega (arith, in_compare);
  }

  pub Says-compare :
      (v : ℕ)
      → v < 2
      → next % 2 ^ 15 ≡ with_field 2 1 v conf % 2 ^ 15
      → Says channel range mode rate v next
  Says-compare v h e = record {
    in_channel = omega (arith, in_channel);
    in_range = omega (arith, in_range);
    in_mode = omega (arith, in_mode);
    in_rate = omega (arith, in_rate);
    in_compare = omega arith;
  }
