-- ===== src/Str/Paths.antt =====
-- strbase of utils.c, and the path helpers of udev-utils.c that are built on it.
use libudev_devd.Common.{
  ℕ, zero, suc, ◌≤◌, ◌<◌, ◌≡◌, ◌↔◌, ◌⊎◌, inl, inr, refl, ap, Bool, true, false, not, ◌||◌, Option,
  none, some, [], ◌∷◌, ◌++◌, arith, Text, codes, starts_with, lacks, ltb, ◌==◌, if◌then◌else◌,
  length, get_or, drop, all, Bool-cases, Option-cases,
}
use native.Mathlib.Decide.{dec_lt}

-- strrchr(s, c), with the pointer moved behind the byte that it finds.
after_last : ℕ → Text → Option Text
after_last c [] = none
after_last c (x ∷ s) = elim (after_last c s) [
  | some r ↦ some r
  | none ↦ if x == c then some s else none
]

unfoldable pub strbase : Text → Option Text
unfolding after_last
strbase path = after_last b'/' path

-- "/dev/" with strncmp(…, 5)
unfoldable pub get_devpath_by_syspath : Text → Option Text
get_devpath_by_syspath syspath =
    if starts_with (codes "/dev/") syspath then some syspath else strbase syspath

unfoldable pub get_sysname_by_syspath : Text → Option Text
get_sysname_by_syspath syspath = strbase syspath

unfoldable pub get_syspath_by_devpath : Text → Text
get_syspath_by_devpath devpath = devpath

abbrev pub is_digit : ℕ → Bool
is_digit c = not (ltb c b'0' || ltb b'9' c)

-- The loop of syspathlen_wo_units, from `len` down.
wo_units : Text → ℕ → ℕ
wo_units path zero = 0
wo_units path (suc len) =
    let rest = wo_units path len in
    if ltb (get_or path len 0) b'0' || ltb b'9' (get_or path len 0) then suc len else rest

unfoldable pub syspathlen_wo_units : Text → ℕ
unfolding wo_units
syspathlen_wo_units path = wo_units path (length path)

after_last-none : (c : ℕ) (s : Text) → after_last c s ≡ none → lacks c s ≡ true
unfolding after_last
after_last-none c [] h = refl
after_last-none c (x ∷ s) h = ground (arith, after_last-none c s)

after_last-none_of_lacks : (c : ℕ) (s : Text) → lacks c s ≡ true → after_last c s ≡ none
unfolding after_last
after_last-none_of_lacks c [] h = refl
after_last-none_of_lacks c (x ∷ s) h = ground (arith, after_last-none_of_lacks c s)

-- What the search finds when the rest holds no further `c`.
after_last-here :
    (c x : ℕ) (s r : Text)
    → after_last c s ≡ none
    → after_last c (x ∷ s) ≡ some r
    → (x ≡ c) × (s ≡ r)
unfolding after_last
after_last-here c x s r e h = ground arith

after_last_sound :
    (c : ℕ) (s r : Text)
    → after_last c s ≡ some r
    → (d : Text) × (s ≡ d ++ c ∷ r) × (lacks c r ≡ true)
unfolding after_last
after_last_sound c [] r h = cc
after_last_sound c (x ∷ s) r h = elim (Option-cases (after_last c s)) [
  | inl none_later ↦
      let (ex, es) = after_last-here c x s r none_later h in
      ([], ground arith, rw (← es) (after_last-none c s none_later))
  | inr (r', later) ↦
      let (d, e, l) = after_last_sound c s r' later in
      let same : r' ≡ r = ground arith in (x ∷ d, rw (← same) (ap (λ t. x ∷ t) e), rw (← same) l)
]

after_last_complete : (c : ℕ) (d r : Text) → lacks c r ≡ true → after_last c (d ++ c ∷ r) ≡ some r
unfolding after_last
after_last_complete c [] r h = ground (arith, after_last-none_of_lacks c r)
after_last_complete c (x ∷ d) r h = ground (arith, after_last_complete c d r)

wo_units_bounds :
    (path : Text) (len : ℕ)
    → (wo_units path len ≤ len)
      × ((i : ℕ) → wo_units path len ≤ i → i < len → is_digit (get_or path i 0) ≡ true)
unfolding wo_units
wo_units_bounds path zero = (omega arith, λ i h k. absurd (omega arith))
wo_units_bounds path (suc len) =
    let (below, digits) = wo_units_bounds path len in
    (
      ground arith,
      λ i h k. elim (dec_lt i len) [
        | yes earlier ↦ ground (arith, digits i)
        | no last ↦ (let same : i ≡ len = omega arith in rw same (ground arith))
      ],
    )

wo_units_stop :
    (path : Text) (len k : ℕ) → wo_units path len ≡ suc k → is_digit (get_or path k 0) ≡ false
unfolding wo_units
wo_units_stop path zero k h = absurd (omega arith)
wo_units_stop path (suc len) k h = elim (Bool-cases (is_digit (get_or path len 0))) [
  | inl digit ↦ wo_units_stop path len k (ground arith)
  | inr other ↦ (let same : len ≡ k = ground arith in rw (← same) other)
]

last_kept :
    (path : Text) (n : ℕ)
    → wo_units path (length path) ≡ n
    → (wo_units path (length path) ≡ 0)
      ⊎ ((k : ℕ) × (wo_units path (length path) ≡ suc k) × (is_digit (get_or path k 0) ≡ false))
last_kept path zero e = inl e
last_kept path (suc k) e = inr (k, e, wo_units_stop path (length path) k e)

-- The base name that strbase returns is what follows the last slash, and it is NULL exactly when
-- the path has no slash.
pub strbase_lem :
    (path b : Text)
    → ((strbase path ≡ some b) ↔ ((d : Text) × (path ≡ d ++ b'/' ∷ b) × (lacks b'/' b ≡ true)))
      × ((strbase path ≡ none) ↔ (lacks b'/' path ≡ true))
unfolding strbase
strbase_lem path b = (
  (after_last_sound b'/' path b, λ (d, e, l). rw e (after_last_complete b'/' d b l)),
  (after_last-none b'/' path, after_last-none_of_lacks b'/' path),
)

all-drop :
    (p : ℕ → Bool) (s : Text) (n : ℕ)
    → ((i : ℕ) → n ≤ i → i < length s → p (get_or s i 0) ≡ true)
    → all p (drop n s) ≡ true
all-drop p [] zero h = refl
all-drop p [] (suc n) h = refl
all-drop p (x ∷ s) zero h =
    rw (h 0 (omega arith) (omega arith))
      (all-drop p s zero (λ i a b. h (suc i) (omega arith) (omega arith)))
all-drop p (x ∷ s) (suc n) h = all-drop p s n (λ i a b. h (suc i) (omega arith) (omega arith))

-- syspathlen_wo_units cuts the path in front of its trailing digits: the length lies within the
-- path, every byte from there on is a digit, and the byte in front of it, if there is one, is not.
pub syspathlen_wo_units_lem :
    (path : Text)
    → (syspathlen_wo_units path ≤ length path)
      × (all is_digit (drop (syspathlen_wo_units path) path) ≡ true)
      × ((syspathlen_wo_units path ≡ 0)
          ⊎ ((k : ℕ) × (syspathlen_wo_units path ≡ suc k) × (is_digit (get_or path k 0) ≡ false)))
unfolding syspathlen_wo_units
syspathlen_wo_units_lem path =
    let (below, digits) = wo_units_bounds path (length path) in
    (below, all-drop is_digit path _ digits, last_kept path (wo_units path (length path)) refl)
