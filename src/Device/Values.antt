-- ===== src/Device/Values.antt =====
-- udev_device_get_property_value, udev_device_get_sysattr_value and udev_device_set_sysattr_value of
-- udev-device.c, on the list of the device that each of them works on.
use libudev_devd.Common.{
  ◌≡◌, refl, ap, sym, ◌∙◌, Bool, true, false, Option, none, some, List, [], ◌∷◌, Text, text_eq,
  text_eq_self, if◌then◌else◌, Status, ok, failed, Bool-cases, inl, inr,
}
use libudev_devd.UdevList.{
  ListEntry, RbTree, find_name, udev_list_insert, udev_list_entry_foreach,
  udev_list_entry_get_value,
}
use libudev_devd.UdevList.Laws.{IsValid, udev_list_insert-IsValid, find-udev_list_insert}
use libudev_devd.UdevList.Walk.{udev_list_entry_foreach_lem}

-- The loop over what udev_list_entry_foreach visits, up to the first entry of the name.
unfoldable pub visit_until : Text → List ListEntry → Option ListEntry
visit_until name [] = none
visit_until name (entry ∷ rest) =
    let later = visit_until name rest in if text_eq entry.name name then some entry else later

visit_until_lem : (name : Text) (es : List ListEntry) → visit_until name es ≡ find_name name es
unfolding visit_until
visit_until_lem name [] = refl
visit_until_lem name (e ∷ es) = rw (visit_until_lem name es) refl

module _ (R : RbTree) where
  open R use {Tree}

  unfoldable pub udev_device_get_property_value : Tree → Text → Option Text
  udev_device_get_property_value prop_list property =
      udev_list_entry_get_value (visit_until property (udev_list_entry_foreach R prop_list))

  unfoldable pub udev_device_get_sysattr_value : Tree → Text → Option Text
  udev_device_get_sysattr_value sysattr_list sysattr =
      udev_list_entry_get_value (visit_until sysattr (udev_list_entry_foreach R sysattr_list))

  -- `found` is the entry at which the loop returns -1.
  unfoldable pub set_if_missing :
      Bool → Tree → Option ListEntry → Text → Option Text → Tree × Status
  set_if_missing memory sysattr_list (some found) sysattr value = (sysattr_list, failed)
  set_if_missing memory sysattr_list none sysattr value =
      udev_list_insert R memory sysattr_list sysattr value

  unfoldable pub udev_device_set_sysattr_value : Bool → Tree → Text → Option Text → Tree × Status
  unfolding set_if_missing visit_until
  udev_device_set_sysattr_value memory sysattr_list sysattr value =
      set_if_missing memory sysattr_list
        (visit_until sysattr (udev_list_entry_foreach R sysattr_list)) sysattr value

  visited :
      (ul : Tree) (n : Text)
      → IsValid R ul
      → visit_until n (udev_list_entry_foreach R ul) ≡ R.find ul n
  visited ul n v =
      ap (visit_until n) (udev_list_entry_foreach_lem R ul v)
      ∙ visit_until_lem n (R.entries ul)
      ∙ sym (R.find_lem ul n v)

  -- On a valid list, udev_device_get_property_value and udev_device_get_sysattr_value give the value of
  -- the entry that a search of the tree finds, and NULL where there is none.
  pub get_value-find :
      (ul : Tree) (n : Text)
      → IsValid R ul
      → (udev_device_get_property_value ul n ≡ udev_list_entry_get_value (R.find ul n))
        × (udev_device_get_sysattr_value ul n ≡ udev_list_entry_get_value (R.find ul n))
  unfolding udev_device_get_property_value udev_device_get_sysattr_value
  get_value-find ul n v =
      (ap udev_list_entry_get_value (visited ul n v), ap udev_list_entry_get_value (visited ul n v))

  stored :
      (attr n : Text) (value : Option Text) (old found : Option ListEntry)
      → found ≡ (if text_eq attr n then some (record { name = attr; value = value }) else old)
      → udev_list_entry_get_value found
        ≡ (if text_eq attr n then value else udev_list_entry_get_value old)
  unfolding udev_list_entry_get_value
  stored attr n value old found h = elim (Bool-cases (text_eq attr n)) [
    | inl same ↦ rw (rw same at h) (rw same refl)
    | inr differ ↦ rw (rw differ at h) (rw differ refl)
  ]

  set_missing :
      (memory : Bool) (ul : Tree) (attr : Text) (value : Option Text)
      → IsValid R ul
      → R.find ul attr ≡ none
      → udev_device_set_sysattr_value memory ul attr value ≡ udev_list_insert R memory ul attr value
  unfolding udev_device_set_sysattr_value set_if_missing
  set_missing memory ul attr value v missing = rw (visited ul attr v) (rw missing refl)

  set_present :
      (memory : Bool) (ul : Tree) (attr : Text) (value : Option Text) (e : ListEntry)
      → IsValid R ul
      → R.find ul attr ≡ some e
      → udev_device_set_sysattr_value memory ul attr value ≡ (ul, failed)
  unfolding udev_device_set_sysattr_value set_if_missing
  set_present memory ul attr value e v present = rw (visited ul attr v) (rw present refl)

  found_self :
      (attr : Text) (e old found : Option ListEntry)
      → found ≡ (if text_eq attr attr then e else old)
      → found ≡ e
  found_self attr e old found h = rw (text_eq_self attr) at h

  -- Where a device does not have an attribute, udev_device_set_sysattr_value gives it a value, which
  -- udev_device_get_sysattr_value reads back while all others keep theirs, and a second call for the
  -- same attribute fails and changes nothing; without memory the first does so too.
  pub get_sysattr_value-set_sysattr_value :
      (ul : Tree) (attr : Text) (value again : Option Text) (n : Text)
      → IsValid R ul
      → R.find ul attr ≡ none
      → let (new, status) = udev_device_set_sysattr_value true ul attr value in
        (status ≡ ok)
        × (udev_device_get_sysattr_value new n
            ≡ (if text_eq attr n then value else udev_device_get_sysattr_value ul n))
        × (udev_device_set_sysattr_value true new attr again ≡ (new, failed))
        × (udev_device_set_sysattr_value false ul attr value ≡ (ul, failed))
  get_sysattr_value-set_sysattr_value ul attr value again n v missing =
      let ins = find-udev_list_insert R ul attr value n v in
      let v' = udev_list_insert-IsValid R true ul attr value v in
      let self =
        found_self attr (some (record { name = attr; value = value })) _ _
          (find-udev_list_insert R ul attr value attr v).0 in
      rw (set_missing true ul attr value v missing) (
        ins.1,
        (get_value-find _ n v').1
            ∙ (rw ((get_value-find ul n v).1) (stored attr n value _ _ ins.0)),
        set_present true _ attr again _ v' self,
        set_missing false ul attr value v missing ∙ ins.2,
      )
