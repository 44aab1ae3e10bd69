-- ===== src/Str/KernProp.antt =====
-- get_kern_prop_value and match_kern_prop_value of utils.c: `key=value` pairs in devd messages.
use libudev_devd.Common.{
  ℕ, zero, suc, ◌<◌, ◌≡◌, ◌≢◌, ◌⊎◌, inl, inr, refl, ap, ◌∙◌, Bool, true, false, not, ◌&&◌, ◌||◌,
  Option, none, some, [], ◌∷◌, ◌++◌, arith, Text, starts_with, starts_with-append, before, lacks,
  ◌==◌, if◌then◌else◌, length, get_or, drop, Bool-cases, Option-cases,
}

-- A pointer into a text: the byte in front of it, `none` at the start, and what it points to.
pub record Cursor : Type 0 where
  pub prev : Option ℕ
  pub rest : Text

-- strstr(buf, needle) from a pointer on.
strstr : Option ℕ → Text → Text → Option Cursor
strstr prev [] needle =
    if starts_with needle [] then some (record { prev = prev; rest = [] }) else none
strstr prev (c ∷ buf) needle =
    if starts_with needle (c ∷ buf)
    then some (record { prev = prev; rest = c ∷ buf })
    else strstr (some c) buf needle

-- `prop_pos != buf && prop_pos[-1] != ' '`
abbrev pub inside_word : Option ℕ → Bool
inside_word none = false
inside_word (some c) = not (c == b' ')

-- The checks behind the call of strstr.
value_at : Text → Option Cursor → Option (Text × ℕ)
value_at prop none = none
value_at prop (some c) =
    if inside_word c.prev || not (get_or c.rest (length prop) 0 == b'=')
    then none
    else (let ret = drop (suc (length prop)) c.rest in some (ret, length (before b' ' ret)))

-- The pointer to the value, as the text from there on, and `*len`.
unfoldable pub get_kern_prop_value : Text → Text → Option (Text × ℕ)
unfolding strstr value_at
get_kern_prop_value buf prop = value_at prop (strstr none buf prop)

unfoldable pub match_kern_prop_value : Text → Text → Text → Bool
match_kern_prop_value buf prop match_value = elim (get_kern_prop_value buf prop) [
  | none ↦ false
  | some (value, len) ↦ len == length match_value && starts_with match_value value
]

-- The last byte of a text, or else what stands in front of it.
abbrev pub last_or : Option ℕ → Text → Option ℕ
last_or prev [] = prev
last_or prev (x ∷ s) = last_or (some x) s

-- Where strstr finds something, the text falls apart there.
strstr_sound :
    (prev : Option ℕ) (buf needle : Text) (c : Cursor)
    → strstr prev buf needle ≡ some c
    → (front : Text) × (buf ≡ front ++ c.rest)
      × (c.prev ≡ last_or prev front)
      × (starts_with needle c.rest ≡ true)
unfolding strstr
strstr_sound prev [] needle c h = ([], ground arith, ground arith, ground arith)
strstr_sound prev (x ∷ buf) needle c h = elim (Bool-cases (starts_with needle (x ∷ buf))) [
  | inl found ↦ ([], ground arith, ground arith, ground arith)
  | inr later ↦
      let (front, e, p, s) = strstr_sound (some x) buf needle c (ground arith) in
      (x ∷ front, ap (λ t. x ∷ t) e, p, s)
]

starts_with-split : (p s : Text) → starts_with p s ≡ true → s ≡ p ++ drop (length p) s
unfolding starts_with
starts_with-split [] s h = refl
starts_with-split (x ∷ p) [] h = cc
starts_with-split (x ∷ p) (c ∷ s) h = ground (arith, starts_with-split p s)

drop_at : (s : Text) (n b : ℕ) → get_or s n 0 ≡ suc b → drop n s ≡ suc b ∷ drop (suc n) s
drop_at [] n b h = absurd (omega arith)
drop_at (x ∷ s) zero b h = ap (λ t. t ∷ s) h
drop_at (x ∷ s) (suc n) b h = drop_at s n b h

-- A text is empty or goes on with a space: where a value ends.
abbrev pub IsEnd : Text → Type 0
IsEnd rest = (rest ≡ []) ⊎ ((r : Text) × (rest ≡ b' ' ∷ r))

value-split :
    (s : Text)
    → (val : Text) × (rest : Text) × (s ≡ val ++ rest)
      × (length (before b' ' s) ≡ length val)
      × (lacks b' ' val ≡ true)
      × IsEnd rest
unfolding before
value-split [] = ([], [], refl, refl, refl, inl refl)
value-split (x ∷ s) =
    let (val, rest, e, n, l, d) = value-split s in
    elim (Bool-cases (x == b' ')) [
      | inl space ↦ ([], x ∷ s, refl, ground arith, refl, inr (s, ground arith))
      | inr other ↦ (x ∷ val, rest, ap (λ t. x ∷ t) e, ground arith, ground arith, d)
    ]

pub before-append :
    (val rest : Text) → lacks b' ' val ≡ true → IsEnd rest → before b' ' (val ++ rest) ≡ val
unfolding before
before-append [] rest h (inl e) = rw e
before-append [] rest h (inr (r, e)) = rw e
before-append (x ∷ val) rest h d = ground (arith, before-append val rest)

-- The first place where the text goes on with `needle`, behind `front`.
abbrev pub FirstAt : Text → Text → Text → Type 0
FirstAt front rest needle =
    (i : ℕ) → i < length front → starts_with needle (drop i (front ++ rest)) ≡ false

strstr_complete :
    (prev : Option ℕ) (front rest needle : Text)
    → FirstAt front rest needle
    → starts_with needle rest ≡ true
    → strstr prev (front ++ rest) needle ≡ some (record { prev = last_or prev front; rest = rest })
unfolding strstr
strstr_complete prev [] [] needle first here = rw here
strstr_complete prev [] (x ∷ rest) needle first here = rw here
strstr_complete prev (x ∷ front) rest needle first here =
    rw (first 0 (omega arith))
      (strstr_complete (some x) front rest needle (λ i h. first (suc i) (omega arith)) here)

drop-length-append : (p s : Text) → drop (suc (length p)) (p ++ b'=' ∷ s) ≡ s
drop-length-append [] s = refl
drop-length-append (x ∷ p) s = drop-length-append p s

get_or-length-append : (p s : Text) → get_or (p ++ b'=' ∷ s) (length p) 0 ≡ b'='
get_or-length-append [] s = refl
get_or-length-append (x ∷ p) s = get_or-length-append p s

-- What the checks have seen when they let a value through.
value_at-some :
    (prop : Text) (c : Cursor) (v : Text) (n : ℕ)
    → value_at prop (some c) ≡ some (v, n)
    → (inside_word c.prev ≡ false)
      × (drop (length prop) c.rest ≡ b'=' ∷ v)
      × (n ≡ length (before b' ' v))
unfolding value_at
value_at-some prop c v n h =
    let same : drop (suc (length prop)) c.rest ≡ v = ground arith in
    (
      ground arith,
      drop_at c.rest (length prop) 60 (ground arith) ∙ ap (λ t. b'=' ∷ t) same,
      ground arith,
    )

value_at-none : (prop v : Text) (n : ℕ) → value_at prop none ≡ some (v, n) → ⊥
unfolding value_at
value_at-none prop v n h = cc

value_at_pair :
    (prop v : Text) (prev : Option ℕ)
    → inside_word prev ≡ false
    → value_at prop (some (record { prev = prev; rest = prop ++ b'=' ∷ v }))
      ≡ some (v, length (before b' ' v))
unfolding value_at
value_at_pair prop v prev h = rw (h, get_or-length-append prop v, drop-length-append prop v)

value_at_inside :
    (prop rest : Text) (c : ℕ)
    → c ≢ b' '
    → value_at prop (some (record { prev = some c; rest = rest })) ≡ none
unfolding value_at
value_at_inside prop rest c h = ground arith

-- Whatever get_kern_prop_value returns is the value of a pair `prop=value` of the message: the pair
-- stands at the start or behind a space, and the length is that of the value up to the next space
-- or the end.
pub get_kern_prop_value_sound :
    (buf prop v : Text) (n : ℕ)
    → get_kern_prop_value buf prop ≡ some (v, n)
    → (front : Text) × (val : Text) × (rest : Text) × (buf
        ≡ front ++ (prop ++ b'=' ∷ (val ++ rest)))
      × (inside_word (last_or none front) ≡ false)
      × (v ≡ val ++ rest)
      × (n ≡ length val)
      × (lacks b' ' val ≡ true)
      × IsEnd rest
unfolding get_kern_prop_value
get_kern_prop_value_sound buf prop v n h = elim (Option-cases (strstr none buf prop)) [
  | inl missing ↦ absurd (value_at-none prop v n (rw missing at h))
  | inr (c, found) ↦
      let (front, eb, ep, es) = strstr_sound none buf prop c found in
      let (val, rest, ev, en, l, d) = value-split v in
      let (w, e, k) = value_at-some prop c v n (rw found at h) in
      let pair : c.rest ≡ prop ++ b'=' ∷ v =
        starts_with-split prop c.rest es ∙ ap (λ t. prop ++ t) e in
      (
        front,
        val,
        rest,
        eb ∙ ap (λ t. front ++ t) (pair ∙ ap (λ t. prop ++ b'=' ∷ t) ev),
        rw (← ep) w,
        ev,
        k ∙ en,
        l,
        d,
      )
]

-- If the first place where the key occurs in the message is the start of a pair `prop=value`, at
-- the message's start or behind a space, then get_kern_prop_value returns that value.
pub get_kern_prop_value_complete :
    (front prop val rest : Text)
    → FirstAt front (prop ++ b'=' ∷ (val ++ rest)) prop
    → inside_word (last_or none front) ≡ false
    → lacks b' ' val ≡ true
    → IsEnd rest
    → get_kern_prop_value (front ++ (prop ++ b'=' ∷ (val ++ rest))) prop
      ≡ some (val ++ rest, length val)
unfolding get_kern_prop_value
get_kern_prop_value_complete front prop val rest first w l d =
    let v = val ++ rest in
    rw (strstr_complete none front _ prop first (starts_with-append prop (b'=' ∷ v))) (
      value_at_pair prop v (last_or none front) w
      ∙ ap (λ t. some (v, length t)) (before-append val rest l d))

-- The search looks at the first occurrence only: if that lies inside a longer word, then
-- get_kern_prop_value reports the key as missing, whatever pairs the message holds behind it.
pub get_kern_prop_value-masked :
    (front prop behind : Text) (c : ℕ)
    → last_or none front ≡ some c
    → c ≢ b' '
    → FirstAt front (prop ++ behind) prop
    → get_kern_prop_value (front ++ (prop ++ behind)) prop ≡ none
unfolding get_kern_prop_value
get_kern_prop_value-masked front prop behind c e h first =
    rw (strstr_complete none front _ prop first (starts_with-append prop behind))
      (rw e (value_at_inside prop (prop ++ behind) c h))
