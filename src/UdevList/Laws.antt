-- ===== src/UdevList/Laws.antt =====
-- The list as a map from names to entries, and its invariant.
use libudev_devd.Common.{
  ◌≡◌, refl, sym, ◌∙◌, ap, Bool, true, false, Option, none, some, List, [], ◌∷◌, Text, text_eq,
  arith, if◌then◌else◌, ok, failed, Option-cases, inl, inr, text_eq_iff, text_eq_self,
}
use libudev_devd.UdevList.{
  ListEntry, RbTree, find_name, remove_name, insert_ordered, IsOrdered, drop_old, insert_entry,
  udev_list_init, udev_list_insert,
}
use libudev_devd.UdevList.Order.{
  insert-IsOrdered, remove-IsOrdered, find_name-remove, find_name-insert, remove_name_missing,
}

-- The entry that is found has the name sought.
find_name-name :
    (n : Text) (es : List ListEntry) (e : ListEntry) → find_name n es ≡ some e → e.name ≡ n
find_name-name n [] e h = cc
find_name-name n (x ∷ es) e h = ground (arith, find_name-name n es e, text_eq_iff x.name n)

find_name-removed : (n : Text) (es : List ListEntry) → find_name n (remove_name n es) ≡ none
find_name-removed n es = ground (arith, find_name-remove n n es, text_eq_self n)

replaced :
    (m n : Text) (new : Option ListEntry) (es : List ListEntry) (old : Option ListEntry)
    → old ≡ find_name n es
    → (if text_eq m n then new else find_name n (remove_name m es))
      ≡ (if text_eq m n then new else old)
replaced m n new es old h = ground (arith, find_name-remove n m es)

module _ (R : RbTree) where
  open R use {Tree}

  -- What holds of a list between two calls: one entry for each name, in order.
  abbrev pub IsValid : Tree → Type 0
  IsValid ul = IsOrdered (R.entries ul)

  -- An empty list is valid.
  pub init-IsValid : IsValid (udev_list_init R)
  unfolding udev_list_init
  init-IsValid = rw R.entries-init tt

  -- Dropping the old entry of a name leaves the list without the name.
  entries-drop_old :
      (ul : Tree) (n : Text)
      → IsValid ul
      → R.entries (drop_old R ul (R.find ul n)) ≡ remove_name n (R.entries ul)
  unfolding drop_old
  entries-drop_old ul n h = elim (Option-cases (R.find ul n)) [
    | inl missing ↦
        rw missing (sym (remove_name_missing n (R.entries ul) (sym (R.find_lem ul n h) ∙ missing)))
    | inr (old, found) ↦ rw found (
        R.entries-remove ul old h
        ∙ ap (λ t. remove_name t (R.entries ul))
            (find_name-name n (R.entries ul) old (sym (R.find_lem ul n h) ∙ found)))
  ]

  entries-insert_entry :
      (ul : Tree) (ule : ListEntry)
      → IsValid ul
      → R.entries (insert_entry R ul (some ule)).0
        ≡ insert_ordered ule (remove_name ule.name (R.entries ul))
  unfolding insert_entry
  entries-insert_entry ul ule h =
      let e = entries-drop_old ul ule.name h in
      R.entries-insert _ ule (rw e (remove-IsOrdered ule.name (R.entries ul) h))
        (rw e (find_name-removed ule.name (R.entries ul)))
      ∙ ap (insert_ordered ule) e

  insert_entry-IsValid :
      (ul : Tree) (ule : ListEntry) → IsValid ul → IsValid (insert_entry R ul (some ule)).0
  insert_entry-IsValid ul ule h = rw (entries-insert_entry ul ule h) (
      insert-IsOrdered ule _ (remove-IsOrdered ule.name (R.entries ul) h)
        (find_name-removed ule.name (R.entries ul)))

  -- udev_list_insert keeps the list valid, with memory and without.
  pub udev_list_insert-IsValid :
      (memory : Bool) (ul : Tree) (name : Text) (value : Option Text)
      → IsValid ul
      → IsValid (udev_list_insert R memory ul name value).0
  unfolding udev_list_insert
  udev_list_insert-IsValid true ul name value h = insert_entry-IsValid ul _ h
  udev_list_insert-IsValid false ul name value h = h

  -- udev_list_insert makes the name stand for the new value, whether it was there or not, and leaves
  -- every other name with what it had; without memory it changes nothing and says so.
  pub find-udev_list_insert :
      (ul : Tree) (name : Text) (value : Option Text) (n : Text)
      → IsValid ul
      → (R.find (udev_list_insert R true ul name value).0 n
          ≡ (if text_eq name n then some (record { name = name; value = value }) else R.find ul n))
        × ((udev_list_insert R true ul name value).1 ≡ ok)
        × (udev_list_insert R false ul name value ≡ (ul, failed))
  unfolding udev_list_insert
  find-udev_list_insert ul name value n h =
      let a : ListEntry = record { name = name; value = value } in
      let v = insert_entry-IsValid ul a h in
      (
        R.find_lem _ n v
            ∙ ap (find_name n) (entries-insert_entry ul a h)
            ∙ find_name-insert n a _ (find_name-removed name (R.entries ul))
            ∙ replaced name n (some a) (R.entries ul) (R.find ul n) (R.find_lem ul n h),
        refl,
        refl,
      )
