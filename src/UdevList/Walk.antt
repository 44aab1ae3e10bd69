-- ===== src/UdevList/Walk.antt =====
-- The loops over a list: udev_list_entry_foreach, and the one that frees the entries.
use libudev_devd.Common.{
  suc, ◌≡◌, refl, sym, ◌∙◌, ap, List, [], ◌∷◌, ◌++◌, some, length, append_assoc,
}
use libudev_devd.UdevList.{
  ListEntry, RbTree, remove_name, walk, udev_list_entry_foreach, free_loop, free_entries,
  udev_list_entry_get_next, udev_list_entry_get_first,
}
use libudev_devd.UdevList.Order.{remove_name-first, remove-IsOrdered}
use libudev_devd.UdevList.Laws.{IsValid}

module _ (R : RbTree) where
  open R use {Tree}

  walk_from :
      (es : List ListEntry) (front : List ListEntry) (e : ListEntry) (ul : Tree)
      → IsValid R ul
      → R.entries ul ≡ front ++ e ∷ es
      → walk R (suc (suc (length es))) ul (some e) ≡ e ∷ es
  unfolding walk udev_list_entry_get_next
  walk_from [] front e ul v h = rw (R.next-last ul front e v h) refl
  walk_from (e' ∷ es) front e ul v h = rw (R.next-cons ul front e e' es v h) (
      ap (λ t. e ∷ t)
        (walk_from es (front ++ e ∷ []) e' ul v (h ∙ sym (append_assoc front (e ∷ []) (e' ∷ es)))))

  foreach_of :
      (es : List ListEntry) (ul : Tree)
      → IsValid R ul
      → R.entries ul ≡ es
      → walk R (suc (length es)) ul (R.first ul) ≡ es
  unfolding walk
  foreach_of [] ul v h = rw (R.first-empty ul h) refl
  foreach_of (e ∷ es) ul v h = rw (R.first-cons ul e es h) (walk_from es [] e ul v h)

  -- udev_list_entry_foreach on a valid list ends, and visits every entry once, in the order of names.
  pub udev_list_entry_foreach_lem :
      (ul : Tree) → IsValid R ul → udev_list_entry_foreach R ul ≡ R.entries ul
  unfolding udev_list_entry_foreach udev_list_entry_get_first
  udev_list_entry_foreach_lem ul v = foreach_of (R.entries ul) ul v refl

  removed :
      (ul : Tree) (e : ListEntry) (es : List ListEntry)
      → IsValid R ul
      → R.entries ul ≡ e ∷ es
      → R.entries (R.remove ul e) ≡ es
  removed ul e es v h =
      R.entries-remove ul e v ∙ ap (remove_name e.name) h ∙ remove_name-first e es (rw h at v)

  removed-IsValid : (ul : Tree) (e : ListEntry) → IsValid R ul → IsValid R (R.remove ul e)
  removed-IsValid ul e v = rw (R.entries-remove ul e v) (remove-IsOrdered e.name (R.entries ul) v)

  free_loop_lem :
      (es : List ListEntry) (e : ListEntry) (ul : Tree)
      → IsValid R ul
      → R.entries ul ≡ e ∷ es
      → R.entries (free_loop R (suc (suc (length es))) ul (some e)) ≡ []
  unfolding free_loop
  free_loop_lem [] e ul v h = rw (R.next-last ul [] e v h, free_loop) (removed ul e [] v h)
  free_loop_lem (e' ∷ es) e ul v h =
      rw (R.next-cons ul [] e e' es v h, free_loop)
        (free_loop_lem es e' (R.remove ul e) (removed-IsValid ul e v) (removed ul e (e' ∷ es) v h))

  free_entries_of :
      (es : List ListEntry) (ul : Tree)
      → IsValid R ul
      → R.entries ul ≡ es
      → R.entries (free_loop R (suc (length es)) ul (R.first ul)) ≡ []
  unfolding free_loop
  free_entries_of [] ul v h = rw (R.first-empty ul h) h
  free_entries_of (e ∷ es) ul v h = rw (R.first-cons ul e es h) (free_loop_lem es e ul v h)

  -- The loop of udev_list_free on a valid list ends with every entry removed and freed, so that
  -- RB_INIT behind it drops none.
  pub free_entries_lem : (ul : Tree) → IsValid R ul → R.entries (free_entries R ul) ≡ []
  unfolding free_entries
  free_entries_lem ul v = free_entries_of (R.entries ul) ul v refl
