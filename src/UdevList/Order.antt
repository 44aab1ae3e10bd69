-- ===== src/UdevList/Order.antt =====
-- strcmp as an order, and what it makes of ordered lists of entries.
use libudev_devd.Common.{
  ◌≡◌, refl, true, false, none, some, List, [], ◌∷◌, Text, text_eq, arith, if◌then◌else◌,
  text_eq_iff, text_eq_self, Bool-cases, inl, inr,
}
use libudev_devd.UdevList.{
  ListEntry, text_lt, find_name, remove_name, insert_ordered, IsBelow, IsOrdered,
}

text_lt_trans : (a b c : Text) → text_lt a b ≡ true → text_lt b c ≡ true → text_lt a c ≡ true
unfolding text_lt
text_lt_trans [] [] [] h k = h
text_lt_trans [] (y ∷ b) [] h k = cc
text_lt_trans [] b (z ∷ c) h k = refl
text_lt_trans (x ∷ a) [] c h k = cc
text_lt_trans (x ∷ a) (y ∷ b) [] h k = cc
text_lt_trans (x ∷ a) (y ∷ b) (z ∷ c) h k = ground (arith, text_lt_trans a b c)

text_lt_total : (a b : Text) → text_lt a b ≡ false → text_eq a b ≡ false → text_lt b a ≡ true
unfolding text_lt text_eq
text_lt_total [] [] h k = cc
text_lt_total [] (y ∷ b) h k = cc
text_lt_total (x ∷ a) [] h k = refl
text_lt_total (x ∷ a) (y ∷ b) h k = ground (arith, text_lt_total a b)

pub text_lt_irrefl : (a : Text) → text_lt a a ≡ false
unfolding text_lt
text_lt_irrefl [] = refl
text_lt_irrefl (x ∷ a) = ground (arith, text_lt_irrefl a)

IsBelow-trans :
    (a b : Text) (es : List ListEntry) → text_lt a b ≡ true → IsBelow b es → IsBelow a es
IsBelow-trans a b [] h k = tt
IsBelow-trans a b (e ∷ es) h k = (text_lt_trans a b e.name h k.0, IsBelow-trans a b es h k.1)

IsBelow-insert :
    (n : Text) (a : ListEntry) (es : List ListEntry)
    → text_lt n a.name ≡ true
    → IsBelow n es
    → IsBelow n (insert_ordered a es)
IsBelow-insert n a [] h k = (h, tt)
IsBelow-insert n a (e ∷ es) h k = elim (Bool-cases (text_lt a.name e.name)) [
  | inl less ↦ rw less (h, k)
  | inr more ↦ rw more (k.0, IsBelow-insert n a es h k.1)
]

pub insert-IsOrdered :
    (a : ListEntry) (es : List ListEntry)
    → IsOrdered es
    → find_name a.name es ≡ none
    → IsOrdered (insert_ordered a es)
insert-IsOrdered a [] h k = (tt, tt)
insert-IsOrdered a (e ∷ es) h k = elim (Bool-cases (text_lt a.name e.name)) [
  | inl less ↦ rw less ((less, IsBelow-trans a.name e.name es less h.0), h)
  | inr more ↦ rw more (
    IsBelow-insert e.name a es
        (text_lt_total a.name e.name more
          (ground (arith, text_eq_iff e.name a.name, text_eq_iff a.name e.name)))
        h.0,
    insert-IsOrdered a es h.1 (ground arith),
  )
]

IsBelow-remove : (n m : Text) (es : List ListEntry) → IsBelow n es → IsBelow n (remove_name m es)
IsBelow-remove n m [] h = tt
IsBelow-remove n m (e ∷ es) h = elim (Bool-cases (text_eq e.name m)) [
  | inl same ↦ rw same (IsBelow-remove n m es h.1)
  | inr other ↦ rw other (h.0, IsBelow-remove n m es h.1)
]

pub remove-IsOrdered :
    (m : Text) (es : List ListEntry) → IsOrdered es → IsOrdered (remove_name m es)
remove-IsOrdered m [] h = tt
remove-IsOrdered m (e ∷ es) h = elim (Bool-cases (text_eq e.name m)) [
  | inl same ↦ rw same (remove-IsOrdered m es h.1)
  | inr other ↦ rw other (IsBelow-remove e.name m es h.0, remove-IsOrdered m es h.1)
]

pub find_name-remove :
    (n m : Text) (es : List ListEntry)
    → find_name n (remove_name m es) ≡ (if text_eq m n then none else find_name n es)
find_name-remove n m [] = ground arith
find_name-remove n m (e ∷ es) =
    ground
      (arith, find_name-remove n m es, text_eq_iff m n, text_eq_iff e.name m, text_eq_iff e.name n)

pub remove_name_missing :
    (m : Text) (es : List ListEntry) → find_name m es ≡ none → remove_name m es ≡ es
remove_name_missing m [] h = refl
remove_name_missing m (e ∷ es) h = ground (arith, remove_name_missing m es)

pub find_name-insert :
    (n : Text) (a : ListEntry) (es : List ListEntry)
    → find_name a.name es ≡ none
    → find_name n (insert_ordered a es) ≡ (if text_eq a.name n then some a else find_name n es)
find_name-insert n a [] h = refl
find_name-insert n a (e ∷ es) h = ground (
  arith,
  find_name-insert n a es,
  text_eq_iff a.name n,
  text_eq_iff e.name n,
  text_eq_iff e.name a.name,
)

-- A name below all others of a list is not among them.
pub find_name-IsBelow : (n : Text) (es : List ListEntry) → IsBelow n es → find_name n es ≡ none
find_name-IsBelow n [] h = refl
find_name-IsBelow n (e ∷ es) h =
    ground (arith, text_lt_irrefl n, text_eq_iff e.name n, find_name-IsBelow n es)

-- Taking the first of an ordered list out by its name leaves the rest.
pub remove_name-first :
    (e : ListEntry) (es : List ListEntry) → IsOrdered (e ∷ es) → remove_name e.name (e ∷ es) ≡ es
remove_name-first e es h =
    rw (text_eq_self e.name) (remove_name_missing e.name es (find_name-IsBelow e.name es h.0))
