-- ===== src/Devd/Dispatch.antt =====
-- Which parser answers for a message, and what is left in the caller's buffer.
use libudev_devd.Common.{
  ℕ, zero, suc, ◌-◌, ◌≤◌, ◌<◌, ◌≡◌, ◌≢◌, refl, ap, ◌∙◌, ◌⊎◌, Bool, true, false, Option, none, some,
  ◌∷◌, ◌++◌, Text, codes, before, length, take, drop, arith,
}
use libudev_devd.Str.Paths.{get_syspath_by_devpath}
use libudev_devd.Str.KernProp.{get_kern_prop_value}
use libudev_devd.Str.Copy.{strlcpy, strlcat, strlcpy_lem, strlcat_lem}
use libudev_devd.Devd.{
  Action, add, remove, Event, ◌or_else◌, bus_action, udev_dev_monitor, udev_sys_monitor,
  udev_pci_monitor, udev_net_monitor, dev_event, net_event, parse_devd_message,
}

-- Where the device parser or the /sys parser knows the first byte, the PCI parser does not.
pci_none :
    (have_devinfo : Bool) (msg syspath : Text) (n : ℕ)
    → (udev_sys_monitor have_devinfo msg syspath n).0 ≡ none
    → udev_pci_monitor have_devinfo (udev_sys_monitor have_devinfo msg syspath n).1 n ≡ none
unfolding udev_sys_monitor udev_pci_monitor
pci_none false msg syspath n h = refl
pci_none true msg syspath n h = ground arith

-- The PCI parser never decides: parse_devd_message gives what it would give without the call of
-- udev_pci_monitor, since udev_sys_monitor has answered every message on which that one would.
pub parse_devd_message-no_pci :
    (have_devinfo : Bool) (ifnamsiz : ℕ) (msg syspath : Text) (n : ℕ)
    → parse_devd_message have_devinfo ifnamsiz msg syspath n ≡ (
        udev_dev_monitor msg syspath n
        or_else (udev_sys_monitor have_devinfo msg syspath n).0
        or_else udev_net_monitor ifnamsiz (udev_sys_monitor have_devinfo msg syspath n).1 syspath n)
unfolding parse_devd_message
parse_devd_message-no_pci have_devinfo ifnamsiz msg syspath n =
    ground (arith, pci_none have_devinfo msg syspath n)

dev_none_of_bus :
    (c : ℕ) (msg syspath : Text) (n : ℕ) → c ≢ b'!' → udev_dev_monitor (c ∷ msg) syspath n ≡ none
unfolding udev_dev_monitor
dev_none_of_bus c msg syspath n h = ground arith

net_none_of_bus :
    (ifnamsiz c : ℕ) (msg syspath : Text) (n : ℕ)
    → c ≢ b'!'
    → udev_net_monitor ifnamsiz (c ∷ msg) syspath n ≡ none
unfolding udev_net_monitor
net_none_of_bus ifnamsiz c msg syspath n h = ground arith

-- What strlcpy and strlcat make of the prefix and a word.
sys_path :
    (syspath word : Text) (n : ℕ)
    → 6 ≤ n
    → (strlcat (strlcpy syspath (codes "/sys/") n).0 word n).0 ≡ codes "/sys/" ++ take (n - 6) word
sys_path syspath word zero h = absurd (omega arith)
sys_path syspath word (suc n) h =
    let copied : (strlcpy syspath (codes "/sys/") (suc n)).0 ≡ codes "/sys/" =
      (strlcpy_lem syspath (codes "/sys/") n).3.0
        (omega (arith, (strlcpy_lem syspath (codes "/sys/") n).2)) in
    rw copied (
      (strlcat_lem (codes "/sys/") word (suc n) (omega arith)).0
      ∙ ap (λ k. codes "/sys/" ++ take k word) (omega arith))

sys_of_bus :
    (c : ℕ) (action : Action) (msg syspath : Text) (n : ℕ)
    → bus_action c ≡ some action
    → 6 ≤ n
    → (udev_sys_monitor true (c ∷ msg) syspath n).0
      ≡ some (action, codes "/sys/" ++ take (n - 6) (before b' ' msg))
unfolding udev_sys_monitor
sys_of_bus c action msg syspath n h fits = ground (arith, sys_path syspath (before b' ' msg) n)

-- The action of a bus event, by its first byte.
abbrev pub BusAction : ℕ → Action → Type 0
BusAction c action = ((c ≡ b'+') × (action ≡ add)) ⊎ ((c ≡ b'-') × (action ≡ remove))

bus_action_of : (c : ℕ) (action : Action) → BusAction c action → bus_action c ≡ some action
unfolding bus_action
bus_action_of c action h = ground arith

-- With devinfo, a message that begins with + or - is an add or a remove of the path made of /sys/
-- and the first word behind that byte, cut off where the buffer ends.
pub parse_devd_message-bus :
    (ifnamsiz c : ℕ) (action : Action) (msg syspath : Text) (n : ℕ)
    → BusAction c action
    → 6 ≤ n
    → parse_devd_message true ifnamsiz (c ∷ msg) syspath n
      ≡ some (action, codes "/sys/" ++ take (n - 6) (before b' ' msg))
parse_devd_message-bus ifnamsiz c action msg syspath n h fits =
    parse_devd_message-no_pci true ifnamsiz (c ∷ msg) syspath n
    ∙ rw
        (
          dev_none_of_bus c msg syspath n (ground arith),
          sys_of_bus c action msg syspath n (bus_action_of c action h) fits,
        )
        refl

sys_none :
    (have_devinfo : Bool) (c : ℕ) (msg syspath : Text) (n : ℕ)
    → c ≢ b'+'
    → c ≢ b'-'
    → udev_sys_monitor have_devinfo (c ∷ msg) syspath n ≡ (none, c ∷ msg)
unfolding udev_sys_monitor
sys_none false c msg syspath n h h' = refl
sys_none true c msg syspath n h h' = ground arith

-- A message that begins with none of the bytes !, + and - is no event.
pub parse_devd_message-none :
    (have_devinfo : Bool) (ifnamsiz c : ℕ) (msg syspath : Text) (n : ℕ)
    → c ≢ b'!'
    → c ≢ b'+'
    → c ≢ b'-'
    → parse_devd_message have_devinfo ifnamsiz (c ∷ msg) syspath n ≡ none
parse_devd_message-none have_devinfo ifnamsiz c msg syspath n h h' h'' =
    parse_devd_message-no_pci have_devinfo ifnamsiz (c ∷ msg) syspath n
    ∙ rw
        (
          dev_none_of_bus c msg syspath n h,
          sys_none have_devinfo c msg syspath n h' h'',
          net_none_of_bus ifnamsiz c msg syspath n h,
        )
        refl

-- An event's path is in the caller's buffer with its NUL.
abbrev Fits : ℕ → Option Event → Type 0
Fits n none = Unit
Fits n (some (action, path)) = length path < n

length-strlcpy : (syspath src : Text) (n : ℕ) → 0 < n → length (strlcpy syspath src n).0 < n
length-strlcpy syspath src zero h = elim h [ ]
length-strlcpy syspath src (suc n) h = (strlcpy_lem syspath src n).1

dev_event-Fits :
    (syspath : Text) (n : ℕ) (type name : Option (Text × ℕ))
    → 0 < n
    → Fits n (dev_event syspath n type name)
unfolding dev_event get_syspath_by_devpath
dev_event-Fits syspath n none name h = tt
dev_event-Fits syspath n (some t) none h = tt
dev_event-Fits syspath n (some (type, type_len)) (some (name, len)) h =
    ground (arith, length-strlcpy syspath (codes "/dev/" ++ take len name) n)

net_event-Fits :
    (ifnamsiz : ℕ) (syspath : Text) (n : ℕ) (type name : Option (Text × ℕ))
    → 0 < n
    → Fits n (net_event ifnamsiz syspath n type name)
unfolding net_event
net_event-Fits ifnamsiz syspath n none name h = tt
net_event-Fits ifnamsiz syspath n (some t) none h = tt
net_event-Fits ifnamsiz syspath n (some (type, type_len)) (some (name, len)) h =
    ground (arith, length-strlcpy syspath (codes "/net/" ++ take len name) n)

dev_Fits : (msg syspath : Text) (n : ℕ) → 0 < n → Fits n (udev_dev_monitor msg syspath n)
unfolding udev_dev_monitor
dev_Fits msg syspath n h =
    let type = get_kern_prop_value (drop 1 msg) (codes "type") in
    let name = get_kern_prop_value (drop 1 msg) (codes "cdev") in
    ground (arith, dev_event-Fits syspath n type name)

net_Fits :
    (ifnamsiz : ℕ) (msg syspath : Text) (n : ℕ)
    → 0 < n
    → Fits n (udev_net_monitor ifnamsiz msg syspath n)
unfolding udev_net_monitor
net_Fits ifnamsiz msg syspath n h =
    let type = get_kern_prop_value (drop 1 msg) (codes "type") in
    let name = get_kern_prop_value (drop 1 msg) (codes "subsystem") in
    ground (arith, net_event-Fits ifnamsiz syspath n type name)

sys_Fits :
    (b : Bool) (msg syspath : Text) (n : ℕ) → 0 < n → Fits n (udev_sys_monitor b msg syspath n).0
unfolding udev_sys_monitor
sys_Fits false msg syspath n h = tt
sys_Fits true msg syspath n h =
    let dst = (strlcpy syspath (codes "/sys/") n).0 in
    ground (
      arith,
      (strlcat_lem dst (before b' ' (drop 1 msg)) n (length-strlcpy syspath (codes "/sys/") n h)).1,
    )

or_else_Fits : (n : ℕ) (a b : Option Event) → Fits n a → Fits n b → Fits n (a or_else b)
or_else_Fits n none b h k = k
or_else_Fits n (some e) b h k = h

-- Whatever path parse_devd_message reports has been written with its NUL into the caller's buffer.
pub parse_devd_message-fits :
    (have_devinfo : Bool) (ifnamsiz : ℕ) (msg syspath : Text) (n : ℕ) (action : Action)
    (path : Text)
    → 0 < n
    → parse_devd_message have_devinfo ifnamsiz msg syspath n ≡ some (action, path)
    → length path < n
parse_devd_message-fits b ifnamsiz msg syspath n action path h e =
    let whole : Fits n (parse_devd_message b ifnamsiz msg syspath n) =
      rw (parse_devd_message-no_pci b ifnamsiz msg syspath n) (
        or_else_Fits n _ _ (dev_Fits msg syspath n h)
          (or_else_Fits n _ _ (sys_Fits b msg syspath n h) (net_Fits ifnamsiz _ syspath n h))) in
    rw e at whole
