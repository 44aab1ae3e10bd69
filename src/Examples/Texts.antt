-- ===== src/Examples/Texts.antt =====
-- Runs of the functions on texts: udev-utils.c, utils.c and utils-gpl.c.
use libudev_devd.Common.{
  ◌≡◌, refl, ℕ, suc, Bool, true, false, none, some, [], ◌∷◌, ◌++◌, Text, codes, length, lacks, all,
  if◌then◌else◌, ltb, arith, not, ◌&&◌, leb, ◌-◌, starts_with, before, inr, zero,
}
use libudev_devd.Str.KernProp.{
  get_kern_prop_value, get_kern_prop_value_sound, get_kern_prop_value_complete,
  get_kern_prop_value-masked, FirstAt, IsEnd, inside_word, last_or,
}
use libudev_devd.Encode.{encode_devnode_name, wrote, overrun, invalid}
use libudev_devd.Encode.Bytes.{unescape, is_clean}
use libudev_devd.Encode.Escape.{encode_devnode_name_lem}
use libudev_devd.Encode.Ended.{backslash_at}

abbrev event_path : Text
event_path = codes "/dev/input/event12"

abbrev cdev_message : Text
cdev_message = codes "system=DEVFS cdev=ums0 x=1"

-- No occurrence of the needle begins in the front part.
abbrev absent : Text → Text → Text → Bool
absent [] rest needle = true
absent (x ∷ front) rest needle =
    not (starts_with needle ((x ∷ front) ++ rest)) && absent front rest needle

absent-FirstAt :
    (front rest needle : Text) → absent front rest needle ≡ true → FirstAt front rest needle
absent-FirstAt [] rest needle h i below = ground arith
absent-FirstAt (x ∷ front) rest needle h zero below = ground arith
absent-FirstAt (x ∷ front) rest needle h (suc i) below =
    absent-FirstAt front rest needle (ground arith) i (omega arith)

get_kern_prop_value_sound_example :
    (front : Text) × (val : Text) × (rest : Text) × (cdev_message
      ≡ front ++ (codes "cdev" ++ b'=' ∷ (val ++ rest)))
    × (inside_word (last_or none front) ≡ false)
    × (codes "ums0 x=1" ≡ val ++ rest)
    × (4 ≡ length val)
    × (lacks b' ' val ≡ true)
    × IsEnd rest
unfolding get_kern_prop_value starts_with before
get_kern_prop_value_sound_example =
    get_kern_prop_value_sound cdev_message (codes "cdev") (codes "ums0 x=1") 4 refl

get_kern_prop_value_complete_example :
    get_kern_prop_value cdev_message (codes "cdev") ≡ some (codes "ums0 x=1", 4)
unfolding starts_with
get_kern_prop_value_complete_example =
    get_kern_prop_value_complete (codes "system=DEVFS ") (codes "cdev") (codes "ums0")
      (codes " x=1")
      (absent-FirstAt (codes "system=DEVFS ") (codes "cdev=ums0 x=1") (codes "cdev") refl) refl refl
      (inr (codes "x=1", refl))

-- The key `vendor` lies inside `subvendor`, which stands in front of it.
get_kern_prop_value-masked_example :
    get_kern_prop_value (codes "subvendor=0x1 vendor=0x8086") (codes "vendor") ≡ none
unfolding starts_with
get_kern_prop_value-masked_example =
    get_kern_prop_value-masked (codes "sub") (codes "vendor") (codes "=0x1 vendor=0x8086") b'b' refl
      (omega arith)
      (absent-FirstAt (codes "sub") (codes "vendor=0x1 vendor=0x8086") (codes "vendor") refl)

abbrev label : Text
label = codes "a b"

encode_devnode_name_lem_example :
    (e : Text) × ((len : ℕ)
      → encode_devnode_name (some label) len ≡ (
          if ltb (length e) len
          then wrote e
          else if leb 4 len && backslash_at e (len - 4)
          then overrun
          else invalid))
    × (unescape e ≡ label)
    × (all is_clean e ≡ true)
encode_devnode_name_lem_example =
    encode_devnode_name_lem label (omega arith, (omega arith, (omega arith, tt)))
