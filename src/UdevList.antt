-- ===== src/UdevList.antt =====
-- udev-list.c: named entries in a red-black tree, one for each name, in the order of strcmp.
use libudev_devd.Common.{
  ℕ, zero, suc, ◌≡◌, Bool, true, false, ◌&&◌, Option, none, some, List, [], ◌∷◌, ◌++◌, Text,
  text_eq, ltb, length, if◌then◌else◌, Status, ok, failed,
}
pub mod Order
pub mod Laws
pub mod Walk

pub record ListEntry : Type 0 where
  pub name : Text
  pub value : Option Text

-- strcmp(a, b) < 0, on unsigned bytes
unfoldable pub text_lt : Text → Text → Bool
text_lt [] [] = false
text_lt [] (_ ∷ _) = true
text_lt (_ ∷ _) [] = false
text_lt (x ∷ xs) (y ∷ ys) =
    let rest = text_lt xs ys in if ltb x y then true else if ltb y x then false else rest

-- The entry of a name in a list of entries, the list without it, and with an entry at its place.
abbrev pub find_name : Text → List ListEntry → Option ListEntry
find_name n [] = none
find_name n (e ∷ es) = if text_eq e.name n then some e else find_name n es

abbrev pub remove_name : Text → List ListEntry → List ListEntry
remove_name n [] = []
remove_name n (e ∷ es) = if text_eq e.name n then remove_name n es else e ∷ remove_name n es

abbrev pub insert_ordered : ListEntry → List ListEntry → List ListEntry
insert_ordered a [] = a ∷ []
insert_ordered a (e ∷ es) = if text_lt a.name e.name then a ∷ e ∷ es else e ∷ insert_ordered a es

abbrev pub IsBelow : Text → List ListEntry → Type 0
IsBelow n [] = Unit
IsBelow n (e ∷ es) = (text_lt n e.name ≡ true) × IsBelow n es

abbrev pub IsOrdered : List ListEntry → Type 0
IsOrdered [] = Unit
IsOrdered (e ∷ es) = IsBelow e.name es × IsOrdered es

-- tree.h, instantiated by RB_GENERATE with udev_list_entry_cmp: its macros, and what they promise of
-- the entries of a tree from the smallest name to the largest.
pub record RbTree : Type 1 where
  pub Tree : Type 0
  pub init : Tree  -- RB_INIT
  pub find : Tree → Text → Option ListEntry  -- RB_FIND with an entry of that name
  pub insert : Tree → ListEntry → Tree  -- RB_INSERT
  pub remove : Tree → ListEntry → Tree  -- RB_REMOVE
  pub first : Tree → Option ListEntry  -- RB_MIN
  pub next : Tree → ListEntry → Option ListEntry  -- RB_NEXT
  pub entries : Tree → List ListEntry
  pub entries-init : entries init ≡ []
  pub find_lem : (t : Tree) (n : Text) → IsOrdered (entries t) → find t n ≡ find_name n (entries t)
  pub entries-insert :
      (t : Tree) (e : ListEntry)
      → IsOrdered (entries t)
      → find_name e.name (entries t) ≡ none
      → entries (insert t e) ≡ insert_ordered e (entries t)
  pub entries-remove :
      (t : Tree) (e : ListEntry)
      → IsOrdered (entries t)
      → entries (remove t e) ≡ remove_name e.name (entries t)
  pub first-empty : (t : Tree) → entries t ≡ [] → first t ≡ none
  pub first-cons :
      (t : Tree) (e : ListEntry) (es : List ListEntry) → entries t ≡ e ∷ es → first t ≡ some e
  pub next-last :
      (t : Tree) (front : List ListEntry) (e : ListEntry)
      → IsOrdered (entries t)
      → entries t ≡ front ++ e ∷ []
      → next t e ≡ none
  pub next-cons :
      (t : Tree) (front : List ListEntry) (e e' : ListEntry) (es : List ListEntry)
      → IsOrdered (entries t)
      → entries t ≡ front ++ e ∷ e' ∷ es
      → next t e ≡ some e'

-- `memory` tells whether calloc succeeds.
unfoldable pub udev_list_entry_alloc : Bool → Text → Option Text → Option ListEntry
udev_list_entry_alloc memory name value =
    if memory then some (record { name = name; value = value }) else none

unfoldable pub udev_list_entry_get_name : Option ListEntry → Option Text
udev_list_entry_get_name none = none
udev_list_entry_get_name (some ule) = some ule.name

unfoldable pub udev_list_entry_get_value : Option ListEntry → Option Text
udev_list_entry_get_value none = none
udev_list_entry_get_value (some ule) = ule.value

module _ (R : RbTree) where
  open R use {Tree}

  unfoldable pub udev_list_init : Tree
  udev_list_init = R.init

  -- `if (old_ule != NULL) RB_REMOVE(...)`
  unfoldable pub drop_old : Tree → Option ListEntry → Tree
  drop_old ul none = ul
  drop_old ul (some old) = R.remove ul old

  unfoldable pub insert_entry : Tree → Option ListEntry → Tree × Status
  unfolding drop_old
  insert_entry ul none = (ul, failed)
  insert_entry ul (some ule) = (R.insert (drop_old ul (R.find ul ule.name)) ule, ok)

  unfoldable pub udev_list_insert : Bool → Tree → Text → Option Text → Tree × Status
  unfolding insert_entry udev_list_entry_alloc
  udev_list_insert memory ul name value = insert_entry ul (udev_list_entry_alloc memory name value)

  -- `formatted` is what vasprintf makes, NULL where it fails.
  unfoldable pub udev_list_insertf : Bool → Tree → Text → Option Text → Tree × Status
  unfolding udev_list_insert
  udev_list_insertf memory ul name none = (ul, failed)
  udev_list_insertf memory ul name (some formatted) =
      udev_list_insert memory ul name (some formatted)

  -- RB_FOREACH_SAFE: the entry and its successor are read before the entry is removed.
  pub free_loop : ℕ → Tree → Option ListEntry → Tree
  free_loop zero ul ule = ul
  free_loop (suc fuel) ul none = ul
  free_loop (suc fuel) ul (some ule) = free_loop fuel (R.remove ul ule) (R.next ul ule)

  -- The list as its entries are freed; RB_INIT then writes an empty head over it.
  unfoldable pub free_entries : Tree → Tree
  unfolding free_loop
  free_entries ul = free_loop (suc (length (R.entries ul))) ul (R.first ul)

  unfoldable pub udev_list_free : Tree → Tree
  udev_list_free ul = R.init

  unfoldable pub udev_list_entry_get_first : Tree → Option ListEntry
  udev_list_entry_get_first ul = R.first ul

  unfoldable pub udev_list_entry_get_next : Tree → Option ListEntry → Option ListEntry
  udev_list_entry_get_next ul none = none
  udev_list_entry_get_next ul (some ule) = R.next ul ule

  -- The search of udev_list_entry_get_by_name in the list that the entry belongs to.
  unfoldable pub udev_list_entry_get_by_name :
      Bool → Tree → Option ListEntry → Text → Option ListEntry
  unfolding udev_list_entry_alloc
  udev_list_entry_get_by_name memory ul none name = none
  udev_list_entry_get_by_name memory ul (some ule) name =
      elim (udev_list_entry_alloc memory name none) [
        | none ↦ none
        | some find ↦ R.find ul find.name
      ]

  -- udev_list_entry_foreach, collecting what it visits, from an entry on.
  pub walk : ℕ → Tree → Option ListEntry → List ListEntry
  walk zero ul ule = []
  walk (suc fuel) ul none = []
  walk (suc fuel) ul (some ule) = ule ∷ walk fuel ul (udev_list_entry_get_next ul (some ule))

  -- The loop with the fuel that it needs, from the first entry.
  unfoldable pub udev_list_entry_foreach : Tree → List ListEntry
  unfolding walk
  udev_list_entry_foreach ul = walk (suc (length (R.entries ul))) ul (udev_list_entry_get_first ul)
