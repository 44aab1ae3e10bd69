-- ===== src/Context.antt =====
-- udev.c: the context that every object of the library refers to, and its count of references.
use libudev_devd.Common.{
  ℕ, zero, suc, ◌+◌, ◌-◌, Bool, true, false, Option, none, some, Text, codes, if◌then◌else◌,
}
pub mod Objects
pub mod Calls
pub mod Balance
pub mod Safety
pub mod Access
pub mod Lifetime
pub mod Race
pub mod Answers

-- `struct udev`, freed where the count is 0; `userdata` is an address.
pub record Udev : Type 0 where
  pub refcount : ℕ
  pub userdata : ℕ

-- `memory` is the answer of calloc.
unfoldable pub udev_new : Bool → Option Udev
udev_new memory = if memory then some (record { refcount = 1; userdata = 0 }) else none

-- _udev_ref and udev_ref; `none` where the context has been freed.
unfoldable pub udev_ref : Udev → Option Udev
udev_ref udev = elim (udev.refcount) [
  | zero ↦ none
  | suc n ↦ some (record udev { refcount = suc (suc n) })
]

-- _udev_unref and udev_unref.
unfoldable pub udev_unref : Udev → Option Udev
udev_unref udev = elim (udev.refcount) [ zero ↦ none | suc n ↦ some (record udev { refcount = n }) ]

unfoldable pub udev_get_dev_path : Text
udev_get_dev_path = codes "/dev"

unfoldable pub udev_get_userdata : Udev → ℕ
udev_get_userdata udev = udev.userdata

unfoldable pub udev_set_userdata : ℕ → Udev → Udev
udev_set_userdata userdata udev = record udev { userdata = userdata }

-- `n` calls of udev_unref.
unfoldable pub release : ℕ → Udev → Option Udev
unfolding udev_unref
release zero udev = some udev
release (suc n) udev = elim (udev_unref udev) [ none ↦ none | some udev' ↦ release n udev' ]
