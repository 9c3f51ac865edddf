-- ===== src/Device/Adc/Setup.antt =====
-- Setting the converter up, on a bus whose transfers succeed.
use cpptool_box.Base.{
  ℕ, ◌+◌, ◌*◌, ◌/◌, ◌%◌, ◌^◌, ◌<◌, ◌≡◌, refl, ap, ◌∙◌, List, [], ◌∷◌, Bool, true, false, Option,
  some, if◌then◌else◌, ℤ, pos, arith, ltb_ℤ,
}
use cpptool_box.Device.Adc.{
  Addr, conv_addr, AdcDevice, field, with_field, ads1115_read, ads1115_write, change, set_channel,
  set_rate, set_range, set_compare, start_continuous_read, init,
}
use cpptool_box.Device.Adc.Fields.{
  Says, Says-channel, Says-range, Says-mode, Says-rate, Says-compare,
}

module _ {Bus : Type 0} (i2c_read : ℤ → Bus → ℕ → ℕ → Option (ℕ × ℕ))
    (i2c_write : ℤ → Bus → ℕ → List ℕ → Option Bus) where
  -- A converter answers at the address `a`: its configuration register can be read, and holds what was
  -- written but for the highest bit, which says whether a conversion runs.
  pub record IsAttached (fd : ℤ) (a : ℕ) (config : Bus → ℕ) : Type 0 where
    pub small : (b : Bus) → config b < 2 ^ 16
    pub reads : (b : Bus) → i2c_read fd b a 1 ≡ some (config b / 256, config b % 256)
    pub writes :
        (b : Bus) (high low : ℕ)
        → (c : Bus) × ((i2c_write fd b a (1 ∷ high ∷ low ∷ []) ≡ some c)
            × (config c % 2 ^ 15 ≡ (high * 256 + low) % 2 ^ 15))

  module _ (config : Bus → ℕ) (d : AdcDevice) (attached : IsAttached d.fd (d.addr / 2) config) where
    read_config : (b : Bus) → ads1115_read i2c_read i2c_write d b 1 ≡ some (config b)
    unfolding ads1115_read
    read_config b = rw (attached.reads b) (ap some (omega arith))

    -- A change of the register arrives there.
    change-config :
        (done : Bool) (f : ℕ → ℕ) (b : Bus)
        → (c : Bus) × ((change i2c_read i2c_write done f d b (ads1115_read i2c_read i2c_write d b 1)
              ≡ (done, c))
            × (config c % 2 ^ 15 ≡ f (config b) % 2 ^ 15))
    unfolding ads1115_write
    change-config done f b =
        let (c, (e, k)) = attached.writes b (f (config b) / 256 % 256) (f (config b) % 256) in
        (c, (rw (read_config b) (rw (e) refl), k ∙ omega arith))

    now :
        (b : Bus)
        → Says
            (field 12 3 (config b))
            (field 9 3 (config b))
            (field 8 1 (config b))
            (field 5 3 (config b))
            (field 2 1 (config b))
            (config b)
    now b = record {
      in_channel = refl;
      in_range = refl;
      in_mode = refl;
      in_rate = refl;
      in_compare = refl;
    }

    -- The four setters in the order of `init`, and the start of the readings.
    pub configured :
        (b : Bus) (channel range rate : ℕ) (compare : Bool)
        → Says (channel % 8) (range % 8) 0 (rate % 8) (if compare then 1 else 0) (
            config
              (start_continuous_read i2c_read i2c_write d
                (set_range i2c_read i2c_write d
                  (set_compare i2c_read i2c_write d
                    (set_rate i2c_read i2c_write d
                      (set_channel i2c_read i2c_write d b channel).1
                      rate).1
                    compare).1
                  range).1).1)
    unfolding set_channel set_rate set_compare set_range start_continuous_read
    configured b channel range rate compare =
        let (b1, (e1, k1)) = change-config false (with_field 12 3 (channel % 8)) b in
        let (b2, (e2, k2)) = change-config true (with_field 5 3 (rate % 8)) b1 in
        let (b3, (e3, k3)) = change-config true (with_field 2 1 (if compare then 1 else 0)) b2 in
        let (b4, (e4, k4)) = change-config true (with_field 9 3 (range % 8)) b3 in
        let (b5, (e5, k5)) = change-config true (with_field 8 1 0) b4 in
        let s1 = Says-channel (config b) (config b1) (now b) (channel % 8) (omega arith) k1 in
        let s2 = Says-rate (config b1) (config b2) s1 (rate % 8) (omega arith) k2 in
        let s3 =
          Says-compare (config b2) (config b3) s2 (if compare then 1 else 0) (bit compare) k3 in
        let s4 = Says-range (config b3) (config b4) s3 (range % 8) (omega arith) k4 in
        rw (e1, e2, e3, e4, e5) (Says-mode (config b4) (config b5) s4 0 (omega arith) k5)
      where
        bit : (c : Bool) → (if c then 1 else 0) < 2
        bit true = omega arith
        bit false = omega arith

  -- `init` and `start` on a converter that answers: the register holds the channel, the range, the rate
  -- and the comparator as they were asked for, and readings run.
  pub init-Says :
      (config : Bus → ℕ) (d : AdcDevice) (b : Bus) (opened : ℤ) (address : Addr)
      (channel range rate : ℕ) (compare : Bool)
      → ltb_ℤ opened (pos 0) ≡ false
      → IsAttached opened (conv_addr address / 2) config
      → (e : AdcDevice) × ((c : Bus) × ((init i2c_read i2c_write d b opened address channel range
                rate compare
              ≡ (true, (e, c)))
            × Says
                (channel % 8)
                (range % 8)
                0
                (rate % 8)
                (if compare then 1 else 0)
                (config (start_continuous_read i2c_read i2c_write e c).1)))
  unfolding init
  init-Says config d b opened address channel range rate compare o attached =
      let e = record d {
        fd = opened;
        addr = conv_addr address;
        channel = channel;
        range = range;
        rate = rate;
        compare_value = if compare then 1 else 0;
      } in
      (e, (_, (rw (o) refl, configured config e attached b channel range rate compare)))
