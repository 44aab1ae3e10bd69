-- ===== src/Examples/Devices.antt =====
-- Runs of the detection of input devices, with the codes of <linux/input.h>.
use mathlib.Core.Option
use libudev_devd.Common.{◌≡◌, refl, ℕ, Bool, true, some, [], ◌∷◌, codes}
use libudev_devd.UdevList.{RbTree}
use libudev_devd.Input.Evdev.{Codes, DeviceBits}
use libudev_devd.Input.Properties.{ParentLists, create_xorg_parent, create_xorg_parent-id}
use libudev_devd.Examples.SortedList.{sorted_list}

abbrev pub linux_codes : Codes
linux_codes = record {
  long_bits = 64;
  btn_misc = 256;
  btn_joystick = 288;
  btn_left = 272;
  btn_middle = 274;
  btn_dpad_up = 544;
  btn_dpad_right = 547;
  btn_south = 304;
  btn_thumbl = 317;
  btn_thumbr = 318;
  btn_tool_pen = 320;
  btn_tool_finger = 325;
  btn_touch = 330;
  btn_stylus = 331;
  btn_stylus2 = 332;
  abs_x = 0;
  abs_y = 1;
  abs_rx = 3;
  abs_hat0x = 16;
  abs_hat0y = 17;
  abs_hat3y = 23;
  abs_pressure = 24;
  abs_mt_slot = 47;
  abs_cnt = 64;
  rel_x = 0;
  rel_y = 1;
  rel_cnt = 16;
  sw_cnt = 17;
  input_prop_pointer = 0;
  input_prop_accelerometer = 6;
}

abbrev pub pen_bits : DeviceBits
pen_bits = record {
  key_bits = 0 ∷ 0 ∷ 0 ∷ 0 ∷ 0 ∷ 2048 ∷ [];
  rel_bits = [];
  abs_bits = 3 ∷ [];
  sw_bits = [];
  prp_bits = [];
}

abbrev pad_bits : DeviceBits
pad_bits = record {
  key_bits = 0 ∷ 0 ∷ 0 ∷ 0 ∷ 65536 ∷ 1056 ∷ [];
  rel_bits = [];
  abs_bits = 16777219 ∷ [];
  sw_bits = [];
  prp_bits = [];
}

abbrev always : ℕ → Bool
always n = true

abbrev no_lists : ParentLists sorted_list
no_lists = record { props = []; sysattrs = [] }

create_xorg_parent-id_example :
    Option.map
      (λ (q : ParentLists sorted_list). RbTree.find sorted_list q.sysattrs (codes "id"))
      (create_xorg_parent sorted_list always
        (some no_lists)
        (codes "kbd")
        (some (codes "1/2/3/4"))
        (some (codes "PNP0303")))
    ≡ some (some (record { name = codes "id"; value = some (codes "1/2/3/4") }))
create_xorg_parent-id_example =
    create_xorg_parent-id sorted_list always no_lists (codes "kbd") (codes "1/2/3/4")
      (codes "PNP0303") tt (λ k. refl)
