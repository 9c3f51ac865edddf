-- ===== src/Device/Adc.antt =====
-- gwcpp/device/ADCDevice.cpp and ADCDevice.h: the configuration register of the converter, which is
-- read and written over the I2C bus.
pub mod Fields
pub mod Setup
use cpptool_box.Base.{
  ℕ, zero, suc, ◌+◌, ◌-◌, ◌*◌, ◌/◌, ◌%◌, ◌^◌, List, [], ◌∷◌, Bool, true, false, Option, none, some,
  if◌then◌else◌, ◌==◌, ℤ, pos, negsuc, signed, ltb_ℤ,
}

pub data Addr : Type 0 where
  gnd vcc sda scl : Addr

pub record AdcDevice : Type 0 where
  pub fd : ℤ
  pub addr : ℕ
  pub channel : ℕ
  pub range : ℕ
  pub rate : ℕ
  pub compare_value : ℕ

-- The four addresses with the bit for the direction, `0x48 << 1` and on.
abbrev pub conv_addr : Addr → ℕ
conv_addr gnd = 144
conv_addr vcc = 146
conv_addr sda = 148
conv_addr scl = 150

abbrev pub reg_convert : ℕ
reg_convert = 0

abbrev pub reg_config : ℕ
reg_config = 1

-- The field of `w` bits from bit `k` on: `(conf >> k) & (2 ^ w - 1)`.
abbrev pub field : ℕ → ℕ → ℕ → ℕ
field k w conf = conf / 2 ^ k % 2 ^ w

-- `conf &= ~((2 ^ w - 1) << k); conf |= v << k`, for `v` below `2 ^ w`: the bits that `|` sets are zero
-- before it.
abbrev pub with_field : ℕ → ℕ → ℕ → ℕ → ℕ
with_field k w v conf = conf - field k w conf * 2 ^ k + v * 2 ^ k

-- What a reading of the converter in volts is: `raw * full_scale / 32768`, the full scale in mV.
pub record Volts : Type 0 where
  pub raw : ℤ
  pub full_scale : ℕ

-- The cascade on the range in `continuousRead`.
abbrev pub full_scale_of : ℕ → Option ℕ
full_scale_of range =
    if range == 0
    then some 6144
    else if range == 1
    then some 4096
    else if range == 2
    then some 2048
    else if range == 3
    then some 1024
    else if range == 4
    then some 512
    else if range == 5
    then some 256
    else none

-- The transfers that ioctl makes on a descriptor: a write of one byte with a read of two bytes behind
-- it, and a write. None is an error.
module _ {Bus : Type 0} (i2c_read : ℤ → Bus → ℕ → ℕ → Option (ℕ × ℕ))
    (i2c_write : ℤ → Bus → ℕ → List ℕ → Option Bus) where
  -- `iicRead` for two bytes.
  abbrev pub iic_read : AdcDevice → Bus → ℕ → Option (ℕ × ℕ)
  iic_read d bus reg = i2c_read d.fd bus (d.addr / 2) reg

  -- `iicWrite`: the register goes in front of the bytes.
  abbrev pub iic_write : AdcDevice → Bus → ℕ → List ℕ → Option Bus
  iic_write d bus reg buf = i2c_write d.fd bus (d.addr / 2) (reg ∷ buf)

  abbrev pub word_of : Option (ℕ × ℕ) → Option ℕ
  word_of none = none
  word_of (some (high, low)) = some (high * 256 + low)

  -- `ads1115Read`, most significant byte first.
  unfoldable pub ads1115_read : AdcDevice → Bus → ℕ → Option ℕ
  ads1115_read d bus reg = word_of (iic_read d bus reg)

  unfoldable pub ads1115_write : AdcDevice → Bus → ℕ → ℕ → Option Bus
  ads1115_write d bus reg data_word =
      iic_write d bus reg (data_word / 256 % 256 ∷ data_word % 256 ∷ [])

  -- Whether a setter returns `done` and what it leaves on the bus, by the result of its write.
  abbrev pub written : Bool → Bus → Option Bus → Bool × Bus
  written done bus none = (false, bus)
  written done bus (some b) = (done, b)

  -- The setters read the register, change it and write it back.
  abbrev pub change : Bool → (ℕ → ℕ) → AdcDevice → Bus → Option ℕ → Bool × Bus
  change done f d bus none = (false, bus)
  change done f d bus (some conf) = written done bus (ads1115_write d bus reg_config (f conf))

  -- Where the write succeeds, `setChannel` returns 0.
  unfoldable pub set_channel : AdcDevice → Bus → ℕ → Bool × Bus
  set_channel d bus channel =
      change false (with_field 12 3 (channel % 8)) d bus (ads1115_read d bus reg_config)

  unfoldable pub set_rate : AdcDevice → Bus → ℕ → Bool × Bus
  set_rate d bus rate =
      change true (with_field 5 3 (rate % 8)) d bus (ads1115_read d bus reg_config)

  unfoldable pub set_range : AdcDevice → Bus → ℕ → Bool × Bus
  set_range d bus range =
      change true (with_field 9 3 (range % 8)) d bus (ads1115_read d bus reg_config)

  -- The value of the enum is 0 or 1.
  unfoldable pub set_compare : AdcDevice → Bus → Bool → Bool × Bus
  set_compare d bus compare =
      change true (with_field 2 1 (if compare then 1 else 0)) d bus (ads1115_read d bus reg_config)

  unfoldable pub start_continuous_read : AdcDevice → Bus → Bool × Bus
  start_continuous_read d bus = change true (with_field 8 1 0) d bus (ads1115_read d bus reg_config)

  abbrev pub scaled : Option ℕ → ℕ → Option Volts
  scaled none raw = none
  scaled (some mv) raw = some (record { raw = signed 16 raw; full_scale = mv })

  abbrev pub scaled_read : Option ℕ → Option ℕ → Option Volts
  scaled_read none raw = none
  scaled_read (some conf) none = none
  scaled_read (some conf) (some raw) = scaled (full_scale_of (field 9 3 conf)) raw

  -- `continuousRead`, which `ads1115Read(float*)` calls; none where it returns false.
  unfoldable pub continuous_read : AdcDevice → Bus → Option Volts
  continuous_read d bus =
      scaled_read (ads1115_read d bus reg_config) (ads1115_read d bus reg_convert)

  -- `init` with the result of `open`; the results of the setters are not looked at.
  unfoldable pub init : AdcDevice → Bus → ℤ → Addr → ℕ → ℕ → ℕ → Bool → Bool × (AdcDevice × Bus)
  init d bus opened address channel range rate compare =
      let e = record d {
        fd = opened;
        addr = conv_addr address;
        channel = channel;
        range = range;
        rate = rate;
        compare_value = if compare then 1 else 0;
      } in
      if ltb_ℤ opened (pos 0) then (false, (e, bus)) else (
        true,
        (
          e,
          (set_range e (set_compare e (set_rate e (set_channel e bus channel).1 rate).1 compare).1
              range).1,
        ),
      )
