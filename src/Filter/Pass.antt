-- ===== src/Filter/Pass.antt =====
-- What the two loops of udev_filter_match compute, rule by rule.
use libudev_devd.Common.{
  ℕ, ◌≡◌, refl, ◌⊎◌, Bool, false, ◌&&◌, ◌||◌, not, Option, none, some, List, [], ◌∷◌, ◌==◌, any,
  arith,
}
use libudev_devd.Subsystem.{Platform}
use libudev_devd.Filter.{
  FilterType, subsystem, sysname, property, tag, sysattr, type_eq, FilterEntry, DeviceLists, Scan,
  Subject, update_score, need_device, list_match, subsystem_match, positive_case, positive_step,
  positive_pass, negative_case, negative_pass,
}

module _ (p : Platform) (x : Subject) where
  -- Whether a rule fits the device, where `o` is what creating the device gives.
  unfoldable pub rule_fits : Option DeviceLists → FilterType → FilterEntry → Bool
  rule_fits o subsystem ufe = subsystem_match p x ufe
  rule_fits o sysname ufe = p.fnmatch (some ufe.expr) x.sysname
  rule_fits o property ufe = list_match p x (λ d. d.properties) o ufe
  rule_fits o tag ufe = list_match p x (λ d. d.tags) o ufe
  rule_fits o sysattr ufe = list_match p x (λ d. d.sysattrs) o ufe

  -- Whether a nomatch rule rejects the device: only two types do, the first by its name alone.
  unfoldable pub rule_rejects : Option DeviceLists → FilterType → FilterEntry → Bool
  rule_rejects o subsystem ufe = p.fnmatch (some ufe.expr) x.subsystem
  rule_rejects o sysattr ufe = list_match p x (λ d. d.sysattrs) o ufe
  rule_rejects o _ ufe = false

-- The match rules of a type, and those of them that fit.
abbrev pub is_rule : FilterType → FilterEntry → Bool
is_rule t ufe = ufe.neg == 0 && type_eq ufe.type t

abbrev pub is_hit : Platform → Subject → Option DeviceLists → FilterType → FilterEntry → Bool
is_hit p x o t ufe = is_rule t ufe && rule_fits p x o ufe.type ufe

abbrev pub is_rejection : Platform → Subject → Option DeviceLists → FilterEntry → Bool
is_rejection p x o ufe = ufe.neg == 1 && rule_rejects p x o ufe.type ufe

module _ (p : Platform) (new_device : ℕ → Option DeviceLists) (x : Subject) (o : Option DeviceLists)
    (constant : (n : ℕ) → new_device n ≡ o) where
  -- The device is not there yet, or is the one that creation gives.
  abbrev pub IsDevice : Option DeviceLists → Type 0
  IsDevice ud = (ud ≡ none) ⊎ (ud ≡ o)

  need_device_lem :
      (s : Scan)
      → IsDevice s.ud
      → ((need_device new_device s).ud ≡ o) × ((need_device new_device s).score ≡ s.score)
  unfolding need_device
  need_device_lem s h = ground (arith, constant s.tries)

  positive_case_lem :
      (t : FilterType) (ufe : FilterEntry) (s : Scan)
      → IsDevice s.ud
      → ((positive_case p new_device x t ufe s).1 ≡ rule_fits p x o t ufe)
        × IsDevice (positive_case p new_device x t ufe s).0.ud
  unfolding positive_case rule_fits
  positive_case_lem subsystem ufe s h = (refl, h)
  positive_case_lem sysname ufe s h = (refl, h)
  positive_case_lem property ufe s h = ground (arith, need_device_lem s)
  positive_case_lem tag ufe s h = ground (arith, need_device_lem s)
  positive_case_lem sysattr ufe s h = ground (arith, need_device_lem s)

  positive_step_lem :
      (ufe : FilterEntry) (s : Scan) (t : FilterType)
      → IsDevice s.ud
      → IsDevice (positive_step p new_device x ufe s).ud
        × (((positive_step p new_device x ufe s).score t).seen
            ≡ ((s.score t).seen || is_rule t ufe))
        × (((positive_step p new_device x ufe s).score t).matched
            ≡ ((s.score t).matched || is_hit p x o t ufe))
  unfolding positive_step update_score
  positive_step_lem ufe s t h = ground (arith, positive_case_lem ufe.type ufe s)

  pub positive_pass_lem :
      (ufh : List FilterEntry) (s : Scan) (t : FilterType)
      → IsDevice s.ud
      → IsDevice (positive_pass p new_device x ufh s).ud
        × (((positive_pass p new_device x ufh s).score t).seen
            ≡ ((s.score t).seen || any (is_rule t) ufh))
        × (((positive_pass p new_device x ufh s).score t).matched
            ≡ ((s.score t).matched || any (is_hit p x o t) ufh))
  unfolding positive_pass
  positive_pass_lem [] s t h = ground arith
  positive_pass_lem (ufe ∷ ufh) s t h =
      let (d, a, b) = positive_step_lem ufe s t h in
      ground (arith, positive_pass_lem ufh (positive_step p new_device x ufe s) t)

  negative_case_lem :
      (t : FilterType) (ufe : FilterEntry) (s : Scan)
      → IsDevice s.ud
      → ((negative_case p new_device x t ufe s).1 ≡ rule_rejects p x o t ufe)
        × IsDevice (negative_case p new_device x t ufe s).0.ud
  unfolding negative_case rule_rejects
  negative_case_lem subsystem ufe s h = (refl, h)
  negative_case_lem sysattr ufe s h = ground (arith, need_device_lem s)
  negative_case_lem sysname ufe s h = (refl, h)
  negative_case_lem property ufe s h = (refl, h)
  negative_case_lem tag ufe s h = (refl, h)

  pub negative_pass_lem :
      (ufh : List FilterEntry) (s : Scan)
      → IsDevice s.ud
      → (negative_pass p new_device x ufh s).1 ≡ not (any (is_rejection p x o) ufh)
  unfolding negative_pass
  negative_pass_lem [] s h = refl
  negative_pass_lem (ufe ∷ ufh) s h = ground (
    arith,
    negative_case_lem ufe.type ufe s,
    negative_pass_lem ufh (negative_case p new_device x ufe.type ufe s).0,
    negative_pass_lem ufh s,
  )
