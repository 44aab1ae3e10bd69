-- ===== src/Filter.antt =====
-- udev-filter.c: a list of match and nomatch rules, and the test of a device against it.
use libudev_devd.Common.{
  ℕ, suc, ◌+◌, ◌≡◌, Bool, true, false, ◌&&◌, ◌||◌, not, Option, none, some, List, [], ◌∷◌, ◌++◌,
  Text, codes, text_eq, ◌==◌, if◌then◌else◌, Status, ok, failed,
}
use libudev_devd.Str.Paths.{get_sysname_by_syspath}
use libudev_devd.Subsystem.{Platform, get_subsystem_by_syspath, unknown_subsystem}
pub mod Pass
pub mod Spec
pub mod Laws

pub data FilterType : Type 0 where
  subsystem sysname property tag sysattr : FilterType

-- `UDEV_FILTER_TYPE_CNT` types, in the order of the enumeration.
abbrev pub filter_types : List FilterType
filter_types = subsystem ∷ sysname ∷ property ∷ tag ∷ sysattr ∷ []

abbrev pub type_eq : FilterType → FilterType → Bool
type_eq subsystem subsystem = true
type_eq sysname sysname = true
type_eq property property = true
type_eq tag tag = true
type_eq sysattr sysattr = true
type_eq _ _ = false

pub record FilterEntry : Type 0 where
  pub type : FilterType
  pub neg : ℕ
  pub expr : Text
  pub value : Option Text

unfoldable pub udev_filter_init : List FilterEntry
udev_filter_init = []

-- `memory` tells whether calloc succeeds.
unfoldable pub udev_filter_add :
    Bool → List FilterEntry → FilterType → ℕ → Text → Option Text → List FilterEntry × Status
udev_filter_add memory ufh type neg expr value =
    if memory
    then (ufh ++ record { type = type; neg = neg; expr = expr; value = value } ∷ [], ok)
    else (ufh, failed)

unfoldable pub udev_filter_free : List FilterEntry → List FilterEntry
udev_filter_free [] = []
udev_filter_free (_ ∷ ufh) = udev_filter_free ufh

-- A list of names with their values, as a device keeps them.
abbrev pub EntryList : Type 0
EntryList = List (Text × Option Text)

-- The three lists of a device that a filter looks at.
pub record DeviceLists : Type 0 where
  pub properties : EntryList
  pub tags : EntryList
  pub sysattrs : EntryList

module _ (p : Platform) where
  value_match : Option Text → Option Text → Bool
  value_match none none = true
  value_match none (some _) = false
  value_match (some _) none = false
  value_match (some pattern) (some value) = p.fnmatch (some pattern) (some value)

  unfoldable pub fnmatch_list : EntryList → FilterEntry → Bool
  unfolding value_match
  fnmatch_list [] ufe = false
  fnmatch_list ((key, value) ∷ list) ufe =
      if p.fnmatch (some ufe.expr) (some key) && value_match ufe.value value
      then true
      else fnmatch_list list ufe

-- A cell of the array `score`, and its change at one type.
pub record Score : Type 0 where
  pub seen : Bool
  pub matched : Bool

-- The variables of udev_filter_match: `ud` with the number of calls of udev_device_new_common
-- so far, and the array.
pub record Scan : Type 0 where
  pub ud : Option DeviceLists
  pub tries : ℕ
  pub score : FilterType → Score

-- The device's subsystem, devtype and sysname.
pub record Subject : Type 0 where
  pub subsystem : Option Text
  pub devtype : Option Text
  pub sysname : Option Text

unfoldable pub update_score : (FilterType → Score) → FilterType → Bool → FilterType → Score
update_score score t hit u =
    if type_eq t u then record { seen = true; matched = hit || (score u).matched } else score u

-- `if (ud == NULL) ud = udev_device_new_common(udev, syspath, UD_ACTION_NONE);` The n-th call gives
-- `new_device n`.
unfoldable pub need_device : (ℕ → Option DeviceLists) → Scan → Scan
need_device new_device s = elim s.ud [
  | some _ ↦ s
  | none ↦ record s { ud = new_device s.tries; tries = suc s.tries }
]

module _ (p : Platform) (x : Subject) where
  -- The list that a rule of one of the last three types is held against.
  pub list_match : (DeviceLists → EntryList) → Option DeviceLists → FilterEntry → Bool
  list_match list none ufe = false
  list_match list (some ud) ufe = fnmatch_list p (list ud) ufe

  unfoldable pub subsystem_match : FilterEntry → Bool
  subsystem_match ufe = p.fnmatch (some ufe.expr) x.subsystem && elim ufe.value [
    | none ↦ true
    | some v ↦ elim x.devtype [ none ↦ false | some d ↦ p.fnmatch (some v) (some d) ]
  ]

module _ (p : Platform) (new_device : ℕ → Option DeviceLists) (x : Subject) where
  -- The `switch` of the first loop: the state after it, and whether `matched` is set.
  positive_case : FilterType → FilterEntry → Scan → Scan × Bool
  unfolding list_match subsystem_match
  positive_case subsystem ufe s = (s, subsystem_match p x ufe)
  positive_case sysname ufe s = (s, p.fnmatch (some ufe.expr) x.sysname)
  positive_case property ufe s =
      let s' = need_device new_device s in (s', list_match p x (λ d. d.properties) s'.ud ufe)
  positive_case tag ufe s =
      let s' = need_device new_device s in (s', list_match p x (λ d. d.tags) s'.ud ufe)
  positive_case sysattr ufe s =
      let s' = need_device new_device s in (s', list_match p x (λ d. d.sysattrs) s'.ud ufe)

  -- The body of the first loop.
  positive_step : FilterEntry → Scan → Scan
  unfolding positive_case
  positive_step ufe s =
      if not (ufe.neg == 0)
      then s
      else (let (s', hit) = positive_case ufe.type ufe s in
          record s' { score = update_score s.score ufe.type hit })

  pub positive_pass : List FilterEntry → Scan → Scan
  unfolding positive_step
  positive_pass [] s = s
  positive_pass (ufe ∷ ufh) s = positive_pass ufh (positive_step ufe s)

  -- `for (i = score; …; i++) if (i->seen != i->matched) goto out;`
  pub scores_agree : (FilterType → Score) → List FilterType → Bool
  scores_agree score [] = true
  scores_agree score (t ∷ ts) =
      (if (score t).seen then (score t).matched else not (score t).matched) && scores_agree score ts

  -- The `switch` of the second loop: whether the rule rejects the device.
  negative_case : FilterType → FilterEntry → Scan → Scan × Bool
  unfolding list_match
  negative_case subsystem ufe s = (s, p.fnmatch (some ufe.expr) x.subsystem)
  negative_case sysattr ufe s =
      let s' = need_device new_device s in (s', list_match p x (λ d. d.sysattrs) s'.ud ufe)
  negative_case sysname ufe s = (s, false)
  negative_case property ufe s = (s, false)
  negative_case tag ufe s = (s, false)

  -- The second loop, with the state in which it is left and the value of `ret`.
  pub negative_pass : List FilterEntry → Scan → Scan × Bool
  unfolding negative_case
  negative_pass [] s = (s, true)
  negative_pass (ufe ∷ ufh) s =
      let (s', hit) = negative_case ufe.type ufe s in
      let next = negative_pass ufh s' in
      let skip = negative_pass ufh s in
      if not (ufe.neg == 1) then skip else if hit then (s', false) else next

  -- The two loops with the test between them.
  pub match_rules : List FilterEntry → Scan → Scan × Bool
  unfolding positive_pass negative_pass scores_agree
  match_rules ufh s =
      let s' = positive_pass ufh s in
      let result = negative_pass ufh s' in
      if scores_agree s'.score filter_types then result else (s', false)

-- `memset(score, 0, sizeof(score))` and `ud = NULL`
abbrev pub fresh_scan : Scan
fresh_scan = record { ud = none; tries = 0; score = λ _. record { seen = false; matched = false } }

-- `strcmp(subsystem, UNKNOWN_SUBSYSTEM) == 0`; the pointer is NULL only for the empty entry of the
-- table, where strcmp is undefined.
abbrev pub is_unknown : Option Text → Bool
is_unknown none = false
is_unknown (some s) = text_eq s unknown_subsystem

-- The subject of a syspath.
abbrev pub subject : Platform → Text → Subject
subject p syspath = record {
  subsystem = (get_subsystem_by_syspath p syspath).0;
  devtype = elim (get_subsystem_by_syspath p syspath).1 [ none ↦ none | some d ↦ d ];
  sysname = get_sysname_by_syspath syspath;
}

-- With the state at `out:`; its device is released there.
unfoldable pub udev_filter_match :
    Platform → (ℕ → Option DeviceLists) → List FilterEntry → Text → Scan × Bool
unfolding match_rules
udev_filter_match p new_device ufh syspath =
    if is_unknown (subject p syspath).subsystem
    then (fresh_scan, false)
    else match_rules p new_device (subject p syspath) ufh fresh_scan

module _ (p : Platform) where
  pub negative_scan : List FilterEntry → Text → Bool
  negative_scan [] name = false
  negative_scan (ufe ∷ ufh) name =
      if type_eq ufe.type subsystem && not (ufe.neg == 0) && p.fnmatch (some ufe.expr) (some name)
      then true
      else negative_scan ufh name

  pub positive_scan : List FilterEntry → Text → Bool
  positive_scan [] name = false
  positive_scan (ufe ∷ ufh) name =
      if type_eq ufe.type subsystem && ufe.neg == 0 && p.fnmatch (some ufe.expr) (some name)
      then true
      else positive_scan ufh name

  pub match_named : List FilterEntry → Text → Bool
  unfolding negative_scan positive_scan
  match_named [] name = true
  match_named (ufe ∷ ufh) name =
      if negative_scan (ufe ∷ ufh) name then false else positive_scan (ufe ∷ ufh) name

  unfoldable pub udev_filter_match_subsystem : List FilterEntry → Option Text → Bool
  unfolding match_named
  udev_filter_match_subsystem ufh none = false
  udev_filter_match_subsystem ufh (some name) = match_named ufh name
