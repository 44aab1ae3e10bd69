-- ===== src/Examples/SortedList.antt =====
-- The interface of tree.h, met by a list of entries that is kept in order.
use libudev_devd.Common.{
  ◌≡◌, refl, false, Option, none, some, List, [], ◌∷◌, ◌++◌, Text, text_eq, if◌then◌else◌, arith,
  text_eq_iff, text_eq_self,
}
use libudev_devd.UdevList.{
  ListEntry, RbTree, find_name, remove_name, insert_ordered, IsBelow, IsOrdered,
}
use libudev_devd.UdevList.Order.{text_lt_irrefl}

abbrev first_entry : List ListEntry → Option ListEntry
first_entry [] = none
first_entry (e ∷ es) = some e

abbrev next_entry : List ListEntry → Text → Option ListEntry
next_entry [] n = none
next_entry (e ∷ es) n =
    let rest = next_entry es n in if text_eq e.name n then first_entry es else rest

IsBelow-differs :
    (n : Text) (front : List ListEntry) (e : ListEntry) (es : List ListEntry)
    → IsBelow n (front ++ e ∷ es)
    → text_eq n e.name ≡ false
IsBelow-differs n [] e es h = ground (arith, text_lt_irrefl n, text_eq_iff n e.name)
IsBelow-differs n (x ∷ front) e es h = IsBelow-differs n front e es h.1

pub next_entry_lem :
    (front : List ListEntry) (e : ListEntry) (es : List ListEntry)
    → IsOrdered (front ++ e ∷ es)
    → next_entry (front ++ e ∷ es) e.name ≡ first_entry es
next_entry_lem [] e es h = rw (text_eq_self e.name) refl
next_entry_lem (x ∷ front) e es h =
    rw (IsBelow-differs x.name front e es h.0) (next_entry_lem front e es h.1)

abbrev pub sorted_list : RbTree
sorted_list = record {
  Tree = List ListEntry;
  init = [];
  find = λ t n. find_name n t;
  insert = λ t e. insert_ordered e t;
  remove = λ t e. remove_name e.name t;
  first = first_entry;
  next = λ t e. next_entry t e.name;
  entries = λ t. t;
  entries-init = refl;
  find_lem = λ t n h. refl;
  entries-insert = λ t e h k. refl;
  entries-remove = λ t e h. refl;
  first-empty = λ t h. rw h refl;
  first-cons = λ t e es h. rw h refl;
  next-last = λ t front e o h. rw h (next_entry_lem front e [] (rw h at o));
  next-cons = λ t front e e' es o h. rw h (next_entry_lem front e (e' ∷ es) (rw h at o));
}
