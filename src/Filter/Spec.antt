-- ===== src/Filter/Spec.antt =====
-- What udev_filter_match decides, said without its loops and its array.
use libudev_devd.Common.{
  ℕ, ◌≡◌, refl, inl, Bool, true, false, ◌&&◌, ◌||◌, not, Option, List, [], ◌∷◌, Text, if◌then◌else◌,
  any, all, arith,
}
use libudev_devd.Subsystem.{Platform}
use libudev_devd.Filter.{
  FilterType, subsystem, filter_types, FilterEntry, DeviceLists, Subject, positive_pass,
  scores_agree, match_rules, fresh_scan, is_unknown, subject, udev_filter_match,
}
use libudev_devd.Filter.Pass.{is_rule, is_hit, is_rejection, positive_pass_lem, negative_pass_lem}

-- Every type that has match rules has one that fits the device.
abbrev pub satisfies : Platform → Subject → Option DeviceLists → List FilterEntry → Bool
satisfies p x o ufh = all (λ t. not (any (is_rule t) ufh) || any (is_hit p x o t) ufh) filter_types

-- The device is of a known subsystem, satisfies the match rules, and no nomatch rule rejects it.
abbrev pub accepts : Platform → Option DeviceLists → List FilterEntry → Text → Bool
accepts p o ufh syspath =
    not (is_unknown (subject p syspath).subsystem)
    && satisfies p (subject p syspath) o ufh
    && not (any (is_rejection p (subject p syspath) o) ufh)

any_mono {ℓ} :
    {A : Type ℓ} (f g : A → Bool) (xs : List A) → any (λ a. f a && g a) xs ≡ true → any f xs ≡ true
any_mono f g [] h = h
any_mono f g (a ∷ xs) h = ground (arith, any_mono f g xs)

-- `seen != matched` can only mean that rules were seen and none fitted.
agree_of_type : (a b : Bool) → (b ≡ true → a ≡ true) → (if a then b else not b) ≡ (not a || b)
agree_of_type true b h = refl
agree_of_type false true h = h refl
agree_of_type false false h = refl

module _ (p : Platform) (new_device : ℕ → Option DeviceLists) (x : Subject) (o : Option DeviceLists)
    (constant : (n : ℕ) → new_device n ≡ o) where
  agree_lem :
      (ufh : List FilterEntry) (ts : List FilterType)
      → scores_agree p new_device x (positive_pass p new_device x ufh fresh_scan).score ts
        ≡ all (λ t. not (any (is_rule t) ufh) || any (is_hit p x o t) ufh) ts
  unfolding scores_agree
  agree_lem ufh [] = refl
  agree_lem ufh (t ∷ ts) = ground (
    arith,
    positive_pass_lem p new_device x o constant ufh fresh_scan t (inl refl),
    agree_lem ufh ts,
    agree_of_type (any (is_rule t) ufh) (any (is_hit p x o t) ufh) (any_mono (is_rule t) _ ufh),
  )

  match_rules_lem :
      (ufh : List FilterEntry)
      → (match_rules p new_device x ufh fresh_scan).1
        ≡ (satisfies p x o ufh && not (any (is_rejection p x o) ufh))
  unfolding match_rules
  match_rules_lem ufh = ground (
    arith,
    agree_lem ufh filter_types,
    negative_pass_lem p new_device x o constant ufh (positive_pass p new_device x ufh fresh_scan)
        (positive_pass_lem p new_device x o constant ufh fresh_scan subsystem (inl refl)).0,
  )

-- Where creating the device always gives the same, a device or NULL, udev_filter_match accepts a
-- syspath exactly when its subsystem is known, every rule type that occurs among the match rules
-- has a rule that fits (so rules of one type are alternatives, and different types all have to
-- be met), and no nomatch rule on the subsystem or on an attribute fits.
pub udev_filter_match-eq-accepts :
    (p : Platform) (new_device : ℕ → Option DeviceLists) (o : Option DeviceLists)
    (ufh : List FilterEntry) (syspath : Text)
    → ((n : ℕ) → new_device n ≡ o)
    → (udev_filter_match p new_device ufh syspath).1 ≡ accepts p o ufh syspath
unfolding udev_filter_match
udev_filter_match-eq-accepts p new_device o ufh syspath constant =
    ground (arith, match_rules_lem p new_device (subject p syspath) o constant ufh)
