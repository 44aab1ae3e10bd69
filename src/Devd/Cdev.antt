-- ===== src/Devd/Cdev.antt =====
-- Messages as devd writes them, read back.
use libudev_devd.Common.{
  ℕ, zero, suc, ◌≤◌, ◌≡◌, refl, sym, ap, ◌∙◌, inl, Bool, true, some, [], ◌++◌, Text, String, codes,
  lacks, before, length, take, drop, take-eq_self, arith, starts_with, append-nil,
}
use libudev_devd.Str.Paths.{get_syspath_by_devpath}
use libudev_devd.Str.Copy.{strlcpy, strlcpy_lem}
use libudev_devd.Str.KernProp.{get_kern_prop_value, match_kern_prop_value, before-append}
use libudev_devd.Devd.{
  Action, add, remove, hotplug, dev_event, is_dev_notice, udev_dev_monitor, parse_devd_message,
}

-- The words of `type` for each action.
abbrev pub type_word : Action → String
type_word add = "CREATE"
type_word remove = "DESTROY"
type_word hotplug = "HOTPLUG"

-- devd's notice about a device node.
abbrev pub cdev_notice : Action → Text → Text
cdev_notice action name =
    codes "!system=DEVFS subsystem=CDEV type="
    ++ (codes (type_word action) ++ (codes " cdev=" ++ name))

cdev_value :
    (action : Action) (name : Text)
    → get_kern_prop_value (drop 1 (cdev_notice action name)) (codes "cdev")
      ≡ some (name, length (before b' ' name))
unfolding get_kern_prop_value starts_with before
cdev_value add name = refl
cdev_value remove name = refl
cdev_value hotplug name = refl

-- The value of `type` in such a notice: the text from it on, and the length of the word.
cdev_type :
    (action : Action) (name : Text)
    → (rest : Text) × (get_kern_prop_value (drop 1 (cdev_notice action name)) (codes "type")
        ≡ some (codes (type_word action) ++ rest, length (codes (type_word action))))
unfolding get_kern_prop_value starts_with before
cdev_type add name = (codes " cdev=" ++ name, refl)
cdev_type remove name = (codes " cdev=" ++ name, refl)
cdev_type hotplug name = (codes " cdev=" ++ name, refl)

cdev_is_notice :
    (action : Action) (name : Text) → is_dev_notice (drop 1 (cdev_notice action name)) ≡ true
unfolding is_dev_notice match_kern_prop_value get_kern_prop_value starts_with before
cdev_is_notice add name = refl
cdev_is_notice remove name = refl
cdev_is_notice hotplug name = refl

-- The buffer for a name that fits.
dev_path :
    (syspath name : Text) (n : ℕ)
    → length name ≤ 74
    → 80 ≤ n
    → (strlcpy syspath (get_syspath_by_devpath (codes "/dev/" ++ take (length name) name)) n).0
      ≡ codes "/dev/" ++ name
unfolding get_syspath_by_devpath
dev_path syspath name zero h k = absurd (omega arith)
dev_path syspath name (suc n) h k =
    let src = codes "/dev/" ++ name in
    rw (take-eq_self (length name) name (omega arith))
      ((strlcpy_lem syspath src n).3.0 (omega (arith, (strlcpy_lem syspath src n).2)))

cdev_event :
    (action : Action) (syspath name rest : Text) (n : ℕ)
    → length name ≤ 74
    → 80 ≤ n
    → dev_event syspath n
        (some (codes (type_word action) ++ rest, length (codes (type_word action))))
        (some (name, length name))
      ≡ some (action, codes "/dev/" ++ name)
unfolding dev_event starts_with
cdev_event add syspath name rest n h k = ground (arith, dev_path syspath name n)
cdev_event remove syspath name rest n h k = ground (arith, dev_path syspath name n)
cdev_event hotplug syspath name rest n h k = ground (arith, dev_path syspath name n)

-- devd's notice that a device node was created, destroyed or changed is read back by
-- parse_devd_message as that action on the path of the node under /dev, for every name without a
-- space that the 80 bytes of a path can hold.
pub parse_devd_message-cdev_notice :
    (have_devinfo : Bool) (ifnamsiz : ℕ) (action : Action) (name syspath : Text) (n : ℕ)
    → lacks b' ' name ≡ true
    → length name ≤ 74
    → 80 ≤ n
    → parse_devd_message have_devinfo ifnamsiz (cdev_notice action name) syspath n
      ≡ some (action, codes "/dev/" ++ name)
unfolding parse_devd_message udev_dev_monitor
parse_devd_message-cdev_notice have_devinfo ifnamsiz action name syspath n l h k =
    let (rest, type) = cdev_type action name in
    let whole : before b' ' name ≡ name =
      ap (before b' ') (sym (append-nil name)) ∙ before-append name [] l (inl refl) in
    rw
      (
        cdev_is_notice action name,
        type,
        cdev_value action name,
        whole,
        cdev_event action syspath name rest n h k,
      )
      refl
