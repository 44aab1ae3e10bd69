-- ===== src/Enumerate/Listed/Filtered.antt =====
-- A scan of an enumerator with the rules that it was given.
use libudev_devd.Common.{
  subst, sym, List, [], ℕ, ◌≡◌, ap, ◌∙◌, Bool, true, ◌&&◌, Option, none, some, [], Text,
  if◌then◌else◌, ok, failed, ◌⊎◌, inl, inr,
}
use libudev_devd.Subsystem.{Platform}
use libudev_devd.Filter.{DeviceLists, udev_filter_match}
use libudev_devd.Filter.Spec.{accepts, udev_filter_match-eq-accepts}
use libudev_devd.UdevList.{ListEntry, RbTree, IsOrdered, find_name, udev_list_entry_foreach}
use libudev_devd.UdevList.Laws.{IsValid}
use libudev_devd.UdevList.Walk.{udev_list_entry_foreach_lem}
use libudev_devd.Enumerate.{SystemDevices}
use libudev_devd.Enumerate.Rules.{Enumerator, scan}
use libudev_devd.Enumerate.Listed.{system_paths, has_path}
use libudev_devd.Enumerate.Listed.Exact.{listed, scan_devices-Exact}
use libudev_devd.Enumerate.Listed.Total.{answers, scan_devices-ok}

module _ (R : RbTree) (p : Platform) (new_device : Text → ℕ → Option DeviceLists)
    (o : Text → Option DeviceLists) (constant : (path : Text) (n : ℕ) → new_device path n ≡ o path)
    (memory : Text → Bool) (have_devinfo : Bool) (ifnamsiz : ℕ) where
  -- The entry that a successful scan leaves for a name.
  abbrev pub scanned : SystemDevices → Enumerator R → Text → Option ListEntry
  scanned d ue n =
      if accepts p (o n) ue.filters n && has_path n (system_paths have_devinfo ifnamsiz d)
      then some (record { name = n; value = none })
      else none

  listed-scanned :
      (d : SystemDevices) (ue : Enumerator R) (n : Text)
      → listed
          (λ path. (udev_filter_match p (new_device path) ue.filters path).1)
          (system_paths have_devinfo ifnamsiz d)
          n
        ≡ scanned d ue n
  unfolding listed
  listed-scanned d ue n =
      ap
        (λ b.
          if b && has_path n (system_paths have_devinfo ifnamsiz d)
          then some (record { name = n; value = none })
          else none)
        (udev_filter_match-eq-accepts p (new_device n) (o n) ue.filters n (constant n))

  -- What a client visits by udev_list_entry_foreach, from udev_enumerate_get_list_entry on.
  abbrev pub visited : Enumerator R → List ListEntry
  visited ue = udev_list_entry_foreach R ue.dev_list

  visited-scanned :
      (d : SystemDevices) (ue new : Enumerator R)
      → IsValid R new.dev_list
      → ((n : Text)
          → R.find new.dev_list n
            ≡ listed
                (λ path. (udev_filter_match p (new_device path) ue.filters path).1)
                (system_paths have_devinfo ifnamsiz d)
                n)
      → IsOrdered (visited new) × ((n : Text) → find_name n (visited new) ≡ scanned d ue n)
  visited-scanned d ue new v exact =
      let all_of : visited new ≡ R.entries new.dev_list =
        udev_list_entry_foreach_lem R new.dev_list v in
      (
        subst IsOrdered (sym all_of) v,
        λ n.
            ap (find_name n) all_of
            ∙ sym (R.find_lem new.dev_list n v)
            ∙ exact n
            ∙ listed-scanned d ue n,
      )

  visited-empty : (new : Enumerator R) → R.entries new.dev_list ≡ [] → visited new ≡ []
  visited-empty new e = udev_list_entry_foreach_lem R new.dev_list (rw e tt) ∙ e

  -- Where creating a device for a syspath always gives the same, and whatever the list of the
  -- enumerator held before: either a scan reports a failure and a client visits no entry behind it, or
  -- it succeeds, and the client visits entries in the order of their names, one for each name that is
  -- among the syspaths of the system's device nodes, its attached devices, its PCI slots and its
  -- link-layer interfaces and that the rules of the enumerator accept, and no other; none of them has
  -- a value.
  pub scan-exact :
      (d : SystemDevices) (ue : Enumerator R)
      → let (new, status) = scan R p new_device memory have_devinfo ifnamsiz d ue in
        ((status ≡ failed) × (visited new ≡ []))
        ⊎ ((status ≡ ok)
            × IsOrdered (visited new)
            × ((n : Text) → find_name n (visited new) ≡ scanned d ue n))
  unfolding scan
  scan-exact d ue =
      let new = (scan R p new_device memory have_devinfo ifnamsiz d ue).0 in
      elim (scan_devices-Exact R (λ path. (udev_filter_match p (new_device path) ue.filters path).1)
        memory have_devinfo ifnamsiz d ue.dev_list) [
          | inl h ↦ inl (h.0, visited-empty new h.1)
          | inr h ↦ let seen = visited-scanned d ue new h.1 h.2 in inr (h.0, seen.0, seen.1)
        ]

-- A scan succeeds where memory is at hand for every entry, no directory fails with ENOMEM, and
-- getifaddrs and, with devinfo, devinfo_init succeed.
pub scan-succeeds :
    (R : RbTree) (p : Platform) (new_device : Text → ℕ → Option DeviceLists) (memory : Text → Bool)
    (have_devinfo : Bool) (ifnamsiz : ℕ) (d : SystemDevices) (ue : Enumerator R)
    → ((path : Text) → memory path ≡ true)
    → answers have_devinfo d ≡ true
    → (scan R p new_device memory have_devinfo ifnamsiz d ue).1 ≡ ok
unfolding scan
scan-succeeds R p new_device memory have_devinfo ifnamsiz d ue plenty h =
    scan_devices-ok R (λ path. (udev_filter_match p (new_device path) ue.filters path).1) memory
      plenty have_devinfo ifnamsiz d h ue.dev_list
