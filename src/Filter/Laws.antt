-- ===== src/Filter/Laws.antt =====
-- What follows for a client: the order of the rules is free, and what rules that were added do.
use mathlib.Core.Bool.{Bool-set}
use mathlib.Core.Logic.{∥∥₁_elim}
use mathlib.Core.List.{Perm, Permᴰ}
use libudev_devd.Common.{
  ℕ, ◌≡◌, refl, sym, Bool, true, false, ◌&&◌, not, Option, none, some, List, [], ◌∷◌, Text, ◌==◌,
  any, arith, ◌∙◌,
}
use libudev_devd.Subsystem.{Platform}
use libudev_devd.Filter.{
  subsystem, sysname, property, tag, sysattr, subject, type_eq, FilterEntry, DeviceLists,
  udev_filter_match, udev_filter_match_subsystem, negative_scan, positive_scan,
}
use libudev_devd.Filter.Pass.{is_rule, is_hit, is_rejection}
use libudev_devd.Filter.Spec.{udev_filter_match-eq-accepts}

any-permᴰ {ℓ} : {A : Type ℓ} (f : A → Bool) {xs ys : List A} → Permᴰ xs ys → any f xs ≡ any f ys
any-permᴰ f Permᴰ.nil = refl
any-permᴰ f (Permᴰ.cons e d) = ground (arith, any-permᴰ f d)
any-permᴰ f (Permᴰ.swap e e') = ground arith
any-permᴰ f (Permᴰ.trans d d') = any-permᴰ f d ∙ any-permᴰ f d'

any-perm {ℓ} : {A : Type ℓ} (f : A → Bool) {xs ys : List A} → Perm xs ys → any f xs ≡ any f ys
any-perm f h = ∥∥₁_elim h (Bool-set _ _) (any-permᴰ f)

-- The order in which a client adds its rules does not change the answer of udev_filter_match, where
-- creating the device always gives the same.
pub udev_filter_match-perm :
    (p : Platform) (new_device : ℕ → Option DeviceLists) (o : Option DeviceLists)
    (xs ys : List FilterEntry) (syspath : Text)
    → ((n : ℕ) → new_device n ≡ o)
    → Perm xs ys
    → (udev_filter_match p new_device xs syspath).1 ≡ (udev_filter_match p new_device ys syspath).1
udev_filter_match-perm p new_device o xs ys syspath constant h =
    let x = subject p syspath in
    udev_filter_match-eq-accepts p new_device o xs syspath constant
    ∙ rw
        (
          any-perm (is_rejection p x o) h,
          any-perm (is_rule subsystem) h,
          any-perm (is_rule sysname) h,
          any-perm (is_rule property) h,
          any-perm (is_rule tag) h,
          any-perm (is_rule sysattr) h,
          any-perm (is_hit p x o subsystem) h,
          any-perm (is_hit p x o sysname) h,
          any-perm (is_hit p x o property) h,
          any-perm (is_hit p x o tag) h,
          any-perm (is_hit p x o sysattr) h,
        )
        (sym (udev_filter_match-eq-accepts p new_device o ys syspath constant))

-- The rules on the subsystem of one sign that fit a name.
abbrev pub names : Platform → Text → (ℕ → Bool) → FilterEntry → Bool
names p name sign ufe =
    type_eq ufe.type subsystem && sign ufe.neg && p.fnmatch (some ufe.expr) (some name)

negative_scan_lem :
    (p : Platform) (ufh : List FilterEntry) (name : Text)
    → negative_scan p ufh name ≡ any (names p name (λ n. not (n == 0))) ufh
unfolding negative_scan
negative_scan_lem p [] name = refl
negative_scan_lem p (ufe ∷ ufh) name = ground (arith, negative_scan_lem p ufh name)

positive_scan_lem :
    (p : Platform) (ufh : List FilterEntry) (name : Text)
    → positive_scan p ufh name ≡ any (names p name (λ n. n == 0)) ufh
unfolding positive_scan
positive_scan_lem p [] name = refl
positive_scan_lem p (ufe ∷ ufh) name = ground (arith, positive_scan_lem p ufh name)

-- udev_filter_match_subsystem takes a name when there are no rules at all, or when no nomatch rule
-- on the subsystem fits it and some match rule does; it takes no NULL.
pub udev_filter_match_subsystem_lem :
    (p : Platform) (ufe : FilterEntry) (ufh : List FilterEntry) (name : Text)
    → (udev_filter_match_subsystem p [] (some name) ≡ true)
      × (udev_filter_match_subsystem p (ufe ∷ ufh) none ≡ false)
      × (udev_filter_match_subsystem p (ufe ∷ ufh) (some name) ≡ (
          not (any (names p name (λ n. not (n == 0))) (ufe ∷ ufh))
          && any (names p name (λ n. n == 0)) (ufe ∷ ufh)))
unfolding udev_filter_match_subsystem
udev_filter_match_subsystem_lem p ufe ufh name = (
  refl,
  refl,
  ground (arith, negative_scan_lem p (ufe ∷ ufh) name, positive_scan_lem p (ufe ∷ ufh) name),
)
