-- ===== src/Input/Evdev.antt =====
-- create_evdev_handler of udev-dev.c: the type of an input device, from what evdev reports of it.
use libudev_devd.Common.{
  ℕ, ◌+◌, ◌≡◌, Bool, true, false, ◌||◌, ◌&&◌, not, List, if◌then◌else◌, Option, none, some, arith,
  ◌↔◌, ◌⊎◌,
}
use libudev_devd.Input.Bits.{bit_is_set, bit_find}

pub data InputType : Type 0 where
  it_none keyboard mouse touchpad touchscreen joystick tablet accelerometer switch : InputType

-- The codes of <linux/input.h> that the handler names, and the width of a long.
pub record Codes : Type 0 where
  pub long_bits : ℕ
  pub btn_misc : ℕ
  pub btn_joystick : ℕ
  pub btn_left : ℕ
  pub btn_middle : ℕ
  pub btn_dpad_up : ℕ
  pub btn_dpad_right : ℕ
  pub btn_south : ℕ
  pub btn_thumbl : ℕ
  pub btn_thumbr : ℕ
  pub btn_tool_pen : ℕ
  pub btn_tool_finger : ℕ
  pub btn_touch : ℕ
  pub btn_stylus : ℕ
  pub btn_stylus2 : ℕ
  pub abs_x : ℕ
  pub abs_y : ℕ
  pub abs_rx : ℕ
  pub abs_hat0x : ℕ
  pub abs_hat0y : ℕ
  pub abs_hat3y : ℕ
  pub abs_pressure : ℕ
  pub abs_mt_slot : ℕ
  pub abs_cnt : ℕ
  pub rel_x : ℕ
  pub rel_y : ℕ
  pub rel_cnt : ℕ
  pub sw_cnt : ℕ
  pub input_prop_pointer : ℕ
  pub input_prop_accelerometer : ℕ

-- The arrays that sysctl or ioctl fills.
pub record DeviceBits : Type 0 where
  pub key_bits : List ℕ
  pub rel_bits : List ℕ
  pub abs_bits : List ℕ
  pub sw_bits : List ℕ
  pub prp_bits : List ℕ

module _ (c : Codes) (b : DeviceBits) where
  abbrev pub key : ℕ → Bool
  key code = bit_is_set c.long_bits b.key_bits code

  abbrev pub abs : ℕ → Bool
  abs code = bit_is_set c.long_bits b.abs_bits code

  abbrev pub rel : ℕ → Bool
  rel code = bit_is_set c.long_bits b.rel_bits code

  abbrev pub prop : ℕ → Bool
  prop code = bit_is_set c.long_bits b.prp_bits code

  abbrev pub has_keys : Bool
  has_keys = bit_find c.long_bits b.key_bits 0 c.btn_misc

  abbrev pub has_buttons : Bool
  has_buttons = bit_find c.long_bits b.key_bits c.btn_misc c.btn_joystick

  abbrev pub has_lmr : Bool
  has_lmr = bit_find c.long_bits b.key_bits c.btn_left (c.btn_middle + 1)

  abbrev pub has_dpad : Bool
  has_dpad = bit_find c.long_bits b.key_bits c.btn_dpad_up (c.btn_dpad_right + 1)

  abbrev pub has_joy_axes : Bool
  has_joy_axes = bit_find c.long_bits b.abs_bits c.abs_rx (c.abs_hat3y + 1)

  abbrev pub has_rel_axes : Bool
  has_rel_axes = bit_find c.long_bits b.rel_bits 0 c.rel_cnt

  abbrev pub has_abs_axes : Bool
  has_abs_axes = bit_find c.long_bits b.abs_bits 0 c.abs_cnt

  abbrev pub has_switches : Bool
  has_switches = bit_find c.long_bits b.sw_bits 0 c.sw_cnt

  abbrev pub has_mt : Bool
  has_mt = bit_find c.long_bits b.abs_bits c.abs_mt_slot c.abs_cnt

  abbrev pub is_gamepad : Bool
  is_gamepad =
      key c.btn_south
      || has_dpad
      || abs c.abs_hat0x
      || abs c.abs_hat0y
      || key c.btn_thumbl
      || key c.btn_thumbr

  abbrev pub is_pen : Bool
  is_pen = key c.btn_tool_pen || key c.btn_stylus || key c.btn_stylus2

  -- The chain for a device with the axes X and Y; `none` where it falls through.
  unfoldable pub absolute_type : Option InputType
  absolute_type =
      if is_pen
      then some tablet
      else if has_joy_axes || key c.btn_joystick
      then some joystick
      else if is_gamepad
      then some joystick
      else if abs c.abs_pressure || key c.btn_touch
      then some (if has_lmr || key c.btn_tool_finger then touchpad else touchscreen)
      else if not (rel c.rel_x && rel c.rel_y) && has_lmr
      then some mouse
      else none

  -- The tests behind it.
  unfoldable pub other_type : Bool → InputType
  other_type buttons =
      if prop c.input_prop_accelerometer
      then accelerometer
      else if has_keys
      then keyboard
      else if prop c.input_prop_pointer || has_rel_axes || has_abs_axes || buttons
      then mouse
      else if has_switches
      then switch
      else it_none

  -- The axes, where the multitouch test has let the device through with `buttons`.
  unfoldable pub axes_type : Bool → InputType
  unfolding absolute_type other_type
  axes_type buttons = elim (if abs c.abs_x && abs c.abs_y then absolute_type else none) [
    | some t ↦ t
    | none ↦ other_type buttons
  ]

  -- `input_type` when the handler reaches `detected:`, or `it_none` where it goes to `bail_out:`.
  unfoldable pub detect : InputType
  unfolding axes_type other_type
  detect =
      if has_abs_axes
      then (if has_mt && not has_buttons
          then (if key c.btn_joystick then joystick else axes_type true)
          else axes_type has_buttons)
      else other_type has_buttons

  -- create_evdev_handler gives a device no type exactly when evdev reports of it no keys, no buttons,
  -- no relative and no absolute axes, no switches, and neither the pointer nor the accelerometer
  -- property.
  pub detect-eq-it_none : (detect ≡ it_none) ↔ (
      (has_keys ≡ false)
      × (has_buttons ≡ false)
      × (has_rel_axes ≡ false)
      × (has_abs_axes ≡ false)
      × (has_switches ≡ false)
      × (prop c.input_prop_pointer ≡ false)
      × (prop c.input_prop_accelerometer ≡ false))
  unfolding detect
  detect-eq-it_none = (ground arith, ground arith)

  -- What the handler takes for a tablet has the absolute axes X and Y, and a pen or a stylus.
  pub detect_tablet :
      detect ≡ tablet → (abs c.abs_x ≡ true) × (abs c.abs_y ≡ true) × (is_pen ≡ true)
  unfolding detect
  detect_tablet h = ground arith

  -- What the handler takes for a touchpad or a touchscreen has the absolute axes X and Y, no pen and
  -- no stylus, and reports pressure or touch; it is a touchpad exactly when it has a left, right or
  -- middle button or a finger tool.
  pub detect_touch :
      (detect ≡ touchpad) ⊎ (detect ≡ touchscreen)
      → (abs c.abs_x ≡ true)
        × (abs c.abs_y ≡ true)
        × (is_pen ≡ false)
        × ((abs c.abs_pressure || key c.btn_touch) ≡ true)
        × ((detect ≡ touchpad) ↔ ((has_lmr || key c.btn_tool_finger) ≡ true))
  unfolding detect
  detect_touch h = ground arith
