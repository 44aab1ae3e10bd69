-- ===== src/Device/Lists.antt =====
-- The four lists of a device, and the calls of udev-device.c that hand them out.
use libudev_devd.Common.{
  ◌≡◌, refl, sym, ap, ◌∙◌, Bool, true, false, ◌||◌, Option, none, some, List, [], ◌∷◌, Text,
  text_eq, if◌then◌else◌, Option-cases, inl, inr,
}
use libudev_devd.UdevList.{
  ListEntry, RbTree, find_name, udev_list_init, udev_list_insert, udev_list_entry_get_first,
  udev_list_entry_get_by_name, udev_list_entry_alloc,
}
use libudev_devd.UdevList.Laws.{IsValid, udev_list_insert-IsValid, find-udev_list_insert}
use libudev_devd.Device.Accessors.{get_list_entry, udev_device_has_tag}

module _ (R : RbTree) where
  open R use {Tree}

  -- The lists of `struct udev_device`.
  pub record UdevDevice : Type 0 where
    pub prop_list : Tree
    pub sysattr_list : Tree
    pub tag_list : Tree
    pub devlink_list : Tree

  -- The four calls of udev_list_init in udev_device_new_common.
  unfoldable pub new_lists : UdevDevice
  unfolding udev_list_init
  new_lists = record {
    prop_list = udev_list_init R;
    sysattr_list = udev_list_init R;
    tag_list = udev_list_init R;
    devlink_list = udev_list_init R;
  }

  unfoldable pub udev_device_get_properties_list : UdevDevice → Tree
  udev_device_get_properties_list ud = ud.prop_list

  unfoldable pub udev_device_get_properties_list_entry : UdevDevice → Option ListEntry
  unfolding get_list_entry
  udev_device_get_properties_list_entry ud = get_list_entry R (udev_device_get_properties_list ud)

  unfoldable pub udev_device_get_sysattr_list : UdevDevice → Tree
  udev_device_get_sysattr_list ud = ud.sysattr_list

  unfoldable pub udev_device_get_sysattr_list_entry : UdevDevice → Option ListEntry
  unfolding get_list_entry
  udev_device_get_sysattr_list_entry ud = get_list_entry R (udev_device_get_sysattr_list ud)

  unfoldable pub udev_device_get_tags_list : UdevDevice → Tree
  udev_device_get_tags_list ud = ud.tag_list

  unfoldable pub udev_device_get_tags_list_entry : UdevDevice → Option ListEntry
  unfolding get_list_entry
  udev_device_get_tags_list_entry ud = get_list_entry R (udev_device_get_tags_list ud)

  unfoldable pub udev_device_get_devlinks_list : UdevDevice → Tree
  udev_device_get_devlinks_list ud = ud.devlink_list

  unfoldable pub udev_device_get_devlinks_list_entry : UdevDevice → Option ListEntry
  unfolding get_list_entry
  udev_device_get_devlinks_list_entry ud = get_list_entry R (udev_device_get_devlinks_list ud)

  abbrev is_some : Option ListEntry → Bool
  is_some none = false
  is_some (some e) = true

  first_none :
      (es : List ListEntry) (t : Tree) (tag : Text)
      → R.entries t ≡ es
      → R.first t ≡ none
      → find_name tag es ≡ none
  first_none [] t tag e h = refl
  first_none (x ∷ es) t tag e h = absurd (cc (R.first-cons t x es e))

  found_or_not : (o : Option ListEntry) → elim o [ none ↦ false | some entry ↦ true ] ≡ is_some o
  found_or_not none = refl
  found_or_not (some e) = refl

  no_memory : (t : Tree) (n : Text) → udev_device_has_tag R false t n ≡ false
  unfolding udev_device_has_tag udev_list_entry_get_by_name udev_list_entry_get_first
      udev_list_entry_alloc
  no_memory t n = elim (Option-cases (R.first t)) [
    | inl empty ↦ rw (empty, udev_device_has_tag) refl
    | inr (e, found) ↦ rw (found, udev_device_has_tag) refl
  ]

  some_if :
      (b : Bool) (e : ListEntry) (o : Option ListEntry)
      → is_some (if b then some e else o) ≡ (b || is_some o)
  some_if true e o = refl
  some_if false e o = refl

  -- On a valid list, udev_device_has_tag finds the tags that a search of the tree finds.
  has_tag-find :
      (t : Tree) (tag : Text)
      → IsValid R t
      → udev_device_has_tag R true t tag ≡ is_some (R.find t tag)
  unfolding udev_device_has_tag udev_list_entry_get_by_name udev_list_entry_get_first
      udev_list_entry_alloc
  has_tag-find t tag v = elim (Option-cases (R.first t)) [
    | inl empty ↦
        let missing : R.find t tag ≡ none =
          R.find_lem t tag v ∙ first_none (R.entries t) t tag refl empty in
        rw (empty, missing, udev_device_has_tag) refl
    | inr (e, found) ↦ rw (found, udev_device_has_tag) (found_or_not (R.find t tag))
  ]

  -- With memory at hand, udev_device_has_tag tells of a valid list of tags, behind the insertion of
  -- one, that it has this tag and those that it had; without memory it says of every tag that the
  -- device has none.
  pub has_tag-udev_list_insert :
      (t : Tree) (tag n : Text) (value : Option Text)
      → IsValid R t
      → (udev_device_has_tag R true (udev_list_insert R true t tag value).0 n
          ≡ (text_eq tag n || udev_device_has_tag R true t n))
        × (udev_device_has_tag R false t n ≡ false)
  has_tag-udev_list_insert t tag n value v = (
    has_tag-find _ n (udev_list_insert-IsValid R true t tag value v)
        ∙ ap is_some (find-udev_list_insert R t tag value n v).0
        ∙ some_if (text_eq tag n) (record { name = tag; value = value }) (R.find t n)
        ∙ ap (λ b. text_eq tag n || b) (sym (has_tag-find t n v)),
    no_memory t n,
  )
