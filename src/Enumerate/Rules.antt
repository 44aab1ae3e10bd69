-- ===== src/Enumerate/Rules.antt =====
-- The enumerator of udev-enumerate.c: its life, its rules, and a scan with the filters they make.
use libudev_devd.Common.{
  ℕ, suc, ◌-◌, ◌==◌, ◌≡◌, refl, sym, ◌∙◌, Bool, true, false, ◌||◌, Option, none, some, List, [],
  ◌∷◌, ◌++◌, Text, arith, any, if◌then◌else◌, Status, ok, ◌⊎◌, inl, inr,
}
use libudev_devd.Subsystem.{Platform}
use libudev_devd.Filter.{
  FilterType, subsystem, sysname, property, tag, sysattr, FilterEntry, DeviceLists, Subject,
  subject, list_match, subsystem_match, udev_filter_init, udev_filter_add, udev_filter_match,
  is_unknown,
}
use libudev_devd.Filter.Pass.{is_rule, is_hit, is_rejection, rule_fits, rule_rejects}
use libudev_devd.Filter.Spec.{accepts, udev_filter_match-eq-accepts}
use libudev_devd.UdevList.{ListEntry, RbTree, udev_list_init, udev_list_entry_get_first}
use libudev_devd.UdevList.Laws.{IsValid}
use libudev_devd.Enumerate.{SystemDevices, udev_enumerate_scan_devices}
use libudev_devd.Enumerate.Scan.{scan_devices-accepted}

module _ (R : RbTree) where
  open R use {Tree}

  -- The enumerator, without its reference to the context.
  pub record Enumerator : Type 0 where
    pub refcount : ℕ
    pub filters : List FilterEntry
    pub dev_list : Tree

  -- `memory` tells whether calloc succeeds.
  unfoldable pub udev_enumerate_new : Bool → Option Enumerator
  unfolding udev_filter_init udev_list_init
  udev_enumerate_new memory =
      if memory
      then some (record { refcount = 1; filters = udev_filter_init; dev_list = udev_list_init R })
      else none

  unfoldable pub udev_enumerate_ref : Enumerator → Enumerator
  udev_enumerate_ref ue = record ue { refcount = suc ue.refcount }

  -- `none` once the enumerator is freed, with its rules and its list.
  unfoldable pub udev_enumerate_unref : Enumerator → Option Enumerator
  udev_enumerate_unref ue =
      if ue.refcount - 1 == 0 then none else some (record ue { refcount = ue.refcount - 1 })

  -- A call of udev_filter_add on the rules of the enumerator.
  unfoldable pub add_rule :
      Bool → Enumerator → FilterType → ℕ → Text → Option Text → Enumerator × Status
  unfolding udev_filter_add
  add_rule memory ue type neg expr value =
      let (filters, status) = udev_filter_add memory ue.filters type neg expr value in
      (record ue { filters = filters }, status)

  unfoldable pub udev_enumerate_add_match_subsystem : Bool → Enumerator → Text → Enumerator × Status
  unfolding add_rule
  udev_enumerate_add_match_subsystem memory ue name = add_rule memory ue subsystem 0 name none

  unfoldable pub udev_enumerate_add_nomatch_subsystem :
      Bool → Enumerator → Text → Enumerator × Status
  unfolding add_rule
  udev_enumerate_add_nomatch_subsystem memory ue name = add_rule memory ue subsystem 1 name none

  unfoldable pub udev_enumerate_add_match_sysname : Bool → Enumerator → Text → Enumerator × Status
  unfolding add_rule
  udev_enumerate_add_match_sysname memory ue name = add_rule memory ue sysname 0 name none

  unfoldable pub udev_enumerate_add_match_sysattr :
      Bool → Enumerator → Text → Option Text → Enumerator × Status
  unfolding add_rule
  udev_enumerate_add_match_sysattr memory ue name value = add_rule memory ue sysattr 0 name value

  unfoldable pub udev_enumerate_add_nomatch_sysattr :
      Bool → Enumerator → Text → Option Text → Enumerator × Status
  unfolding add_rule
  udev_enumerate_add_nomatch_sysattr memory ue name value = add_rule memory ue sysattr 1 name value

  unfoldable pub udev_enumerate_add_match_property :
      Bool → Enumerator → Text → Option Text → Enumerator × Status
  unfolding add_rule
  udev_enumerate_add_match_property memory ue name value = add_rule memory ue property 0 name value

  unfoldable pub udev_enumerate_add_match_tag : Bool → Enumerator → Text → Enumerator × Status
  unfolding add_rule
  udev_enumerate_add_match_tag memory ue name = add_rule memory ue tag 0 name none

  -- Both are not implemented, and say that they succeed.
  unfoldable pub udev_enumerate_add_match_parent : Enumerator → Enumerator × Status
  udev_enumerate_add_match_parent ue = (ue, ok)

  unfoldable pub udev_enumerate_add_match_is_initialized : Enumerator → Enumerator × Status
  udev_enumerate_add_match_is_initialized ue = (ue, ok)

  unfoldable pub udev_enumerate_get_list_entry : Enumerator → Option ListEntry
  udev_enumerate_get_list_entry ue = udev_list_entry_get_first R ue.dev_list

  module _ (p : Platform) (new_device : Text → ℕ → Option DeviceLists) (memory : Text → Bool)
      (have_devinfo : Bool) (ifnamsiz : ℕ) where
    -- udev_enumerate_scan_devices with the filters of the enumerator itself.
    unfoldable pub scan : SystemDevices → Enumerator → Enumerator × Status
    unfolding udev_enumerate_scan_devices
    scan d ue =
        let (dev_list, status) =
          udev_enumerate_scan_devices R
            (λ path. (udev_filter_match p (new_device path) ue.filters path).1) memory have_devinfo
            ifnamsiz d ue.dev_list in
        (record ue { dev_list = dev_list }, status)

any-append {ℓ} :
    {A : Type ℓ} (f : A → Bool) (xs ys : List A) → any f (xs ++ ys) ≡ (any f xs || any f ys)
any-append f [] ys = refl
any-append f (x ∷ xs) ys = ground (arith, any-append f xs ys)

-- A hit of a type is a rule of the type.
hit_is_rule :
    (p : Platform) (x : Subject) (o : Option DeviceLists) (t : FilterType) (ufh : List FilterEntry)
    → any (is_rule t) ufh ≡ false
    → any (is_hit p x o t) ufh ≡ false
hit_is_rule p x o t [] h = refl
hit_is_rule p x o t (ufe ∷ ufh) h = ground (arith, hit_is_rule p x o t ufh)

-- The rules of two calls behind rules that hold no match rule on the subsystem.
two_rules :
    (p : Platform) (o : Option DeviceLists) (ufh : List FilterEntry) (r r' : FilterEntry) (n : Text)
    → any (is_rule subsystem) ufh ≡ false
    → is_rule subsystem r ≡ true
    → r'.neg ≡ 1
    → accepts p o ((ufh ++ r ∷ []) ++ r' ∷ []) n ≡ true
    → (is_unknown (subject p n).subsystem ≡ false)
      × (is_hit p (subject p n) o subsystem r ≡ true)
      × (is_rejection p (subject p n) o r' ≡ false)
two_rules p o ufh r r' n none_before is_match is_nomatch h =
    let x = subject p n in
    ground (
      arith,
      any-append (is_rule subsystem) (ufh ++ r ∷ []) (r' ∷ []),
      any-append (is_rule subsystem) ufh (r ∷ []),
      any-append (is_hit p x o subsystem) (ufh ++ r ∷ []) (r' ∷ []),
      any-append (is_hit p x o subsystem) ufh (r ∷ []),
      any-append (is_rejection p x o) (ufh ++ r ∷ []) (r' ∷ []),
      hit_is_rule p x o subsystem ufh none_before,
    )

module _ (R : RbTree) (p : Platform) (new_device : Text → ℕ → Option DeviceLists)
    (o : Text → Option DeviceLists) (constant : (path : Text) (n : ℕ) → new_device path n ≡ o path)
    (memory : Text → Bool) (have_devinfo : Bool) (ifnamsiz : ℕ) where
  scan-accepts :
      (d : SystemDevices) (ue : Enumerator R) (n : Text)
      → let new = (scan R p new_device memory have_devinfo ifnamsiz d ue).0.dev_list in
        IsValid R new × ((R.find new n ≡ none) ⊎ (accepts p (o n) ue.filters n ≡ true))
  unfolding scan
  scan-accepts d ue n =
      let listed =
        scan_devices-accepted R (λ path. (udev_filter_match p (new_device path) ue.filters path).1)
          memory have_devinfo ifnamsiz d ue.dev_list n in
      (
        listed.0,
        elim listed.1 [
          | inl missing ↦ inl missing
          | inr fits ↦ inr (
              sym (udev_filter_match-eq-accepts p (new_device n) (o n) ue.filters n (constant n))
              ∙ fits)
        ],
      )

  -- Where creating a device for a syspath always gives the same: an enumerator without a match rule
  -- on the subsystem, after udev_enumerate_add_match_subsystem and udev_enumerate_add_nomatch_sysattr
  -- with memory at hand, lists in a scan no syspath but of a known subsystem that fits the pattern of
  -- the first, whose device has no attribute that fits the pattern and value of the second.
  pub scan-add_rules :
      (d : SystemDevices) (ue : Enumerator R) (name attr : Text) (value : Option Text) (n : Text)
      → any (is_rule subsystem) ue.filters ≡ false
      → let ue' =
          (udev_enumerate_add_nomatch_sysattr R true
            (udev_enumerate_add_match_subsystem R true ue name).0
            attr
            value).0 in
        (R.find (scan R p new_device memory have_devinfo ifnamsiz d ue').0.dev_list n ≡ none)
        ⊎ ((is_unknown (subject p n).subsystem ≡ false)
            × (p.fnmatch (some name) (subject p n).subsystem ≡ true)
            × (list_match p
                  (subject p n)
                  (λ l. l.sysattrs)
                  (o n)
                  (record { type = sysattr; neg = 1; expr = attr; value = value })
                ≡ false))
  unfolding udev_enumerate_add_match_subsystem udev_enumerate_add_nomatch_sysattr rule_fits
      rule_rejects subsystem_match
  scan-add_rules d ue name attr value n none_before =
      let r : FilterEntry = record { type = subsystem; neg = 0; expr = name; value = none } in
      let r' : FilterEntry = record { type = sysattr; neg = 1; expr = attr; value = value } in
      elim (scan-accepts d (record ue { filters = (ue.filters ++ r ∷ []) ++ r' ∷ [] }) n).1 [
        | inl missing ↦ inl missing
        | inr fits ↦
            let two = two_rules p (o n) ue.filters r r' n none_before refl refl fits in
            inr (ground arith)
      ]
