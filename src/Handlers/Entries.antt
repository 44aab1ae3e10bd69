-- ===== src/Handlers/Entries.antt =====
-- Runs of udev_list_insertf and udev_list_insert whose results the handlers drop.
use libudev_devd.Common.{
  ℕ, suc, ◌≡◌, refl, ◌∙◌, Bool, true, Option, none, some, List, [], ◌∷◌, Text, String, codes,
  text_eq, if◌then◌else◌,
}
use libudev_devd.UdevList.{ListEntry, RbTree, udev_list_insert, udev_list_insertf}
use libudev_devd.UdevList.Laws.{IsValid, udev_list_insert-IsValid, find-udev_list_insert}

-- What the C library answers to the n-th call: whether vasprintf and calloc have memory.
pub record Memory : Type 0 where
  pub print : ℕ → Bool
  pub alloc : ℕ → Bool

abbrev pub plenty : Memory
plenty = record { print = λ n. true; alloc = λ n. true }

-- What a call gives to its name: what a format makes, or a text that is there.
pub data Value : Type 0 where
  printed given : Text → Value

abbrev pub text_of : Value → Text
text_of (printed value) = value
text_of (given value) = value

-- What the entries of a list of pairs are for a name, the last pair of the name first.
abbrev pub last_value : Text → List (String × Value) → Option ListEntry → Option ListEntry
last_value n [] old = old
last_value n ((name, value) ∷ rest) old = last_value n rest (
    if text_eq (codes name) n
    then some (record { name = codes name; value = some (text_of value) })
    else old)

module _ (R : RbTree) where
  open R use {Tree}

  -- The n-th call.
  unfoldable pub insert_value : Memory → ℕ → Tree → String → Value → Tree
  insert_value m n ul name (printed value) =
      (udev_list_insertf R (m.alloc n) ul (codes name) (if m.print n then some value else none)).0
  insert_value m n ul name (given value) =
      (udev_list_insert R (m.alloc n) ul (codes name) (some value)).0

  -- The calls from the n-th on.
  unfoldable pub insert_all : Memory → ℕ → Tree → List (String × Value) → Tree
  unfolding insert_value
  insert_all m n ul [] = ul
  insert_all m n ul ((name, value) ∷ rest) =
      insert_all m (suc n) (insert_value m n ul name value) rest

  insertf-IsValid :
      (memory : Bool) (ul : Tree) (name : Text) (formatted : Option Text)
      → IsValid R ul
      → IsValid R (udev_list_insertf R memory ul name formatted).0
  unfolding udev_list_insertf
  insertf-IsValid memory ul name none v = v
  insertf-IsValid memory ul name (some value) v =
      udev_list_insert-IsValid R memory ul name (some value) v

  insert_value-IsValid :
      (m : Memory) (n : ℕ) (ul : Tree) (name : String) (value : Value)
      → IsValid R ul
      → IsValid R (insert_value m n ul name value)
  unfolding insert_value
  insert_value-IsValid m n ul name (given value) v = udev_list_insert-IsValid R (m.alloc n) ul _ _ v
  insert_value-IsValid m n ul name (printed value) v =
      insertf-IsValid (m.alloc n) ul (codes name) _ v

  pub insert_all-IsValid :
      (m : Memory) (n : ℕ) (ul : Tree) (pairs : List (String × Value))
      → IsValid R ul
      → IsValid R (insert_all m n ul pairs)
  unfolding insert_all
  insert_all-IsValid m n ul [] v = v
  insert_all-IsValid m n ul ((name, value) ∷ rest) v =
      insert_all-IsValid m (suc n) _ rest (insert_value-IsValid m n ul name value v)

  insert_value-plenty :
      (n : ℕ) (ul : Tree) (name : String) (value : Value)
      → insert_value plenty n ul name value
        ≡ (udev_list_insert R true ul (codes name) (some (text_of value))).0
  unfolding insert_value udev_list_insertf
  insert_value-plenty n ul name (printed value) = refl
  insert_value-plenty n ul name (given value) = refl

  -- With memory at hand each name stands for the last value given to it.
  pub find-insert_all :
      (n : ℕ) (ul : Tree) (pairs : List (String × Value)) (name : Text)
      → IsValid R ul
      → R.find (insert_all plenty n ul pairs) name ≡ last_value name pairs (R.find ul name)
  unfolding insert_all
  find-insert_all n ul [] name v = refl
  find-insert_all n ul ((k, value) ∷ rest) name v = rw (insert_value-plenty n ul k value) (
      find-insert_all (suc n) _ rest name
        (udev_list_insert-IsValid R true ul (codes k) (some (text_of value)) v)
      ∙ rw (find-udev_list_insert R ul (codes k) (some (text_of value)) name v).0 refl)
