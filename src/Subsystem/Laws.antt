-- ===== src/Subsystem/Laws.antt =====
-- How the lookups of udev-utils.c agree with one another, and which entries they can reach.
use libudev_devd.Common.{
  ◌≡◌, ◌≢◌, refl, ◌∙◌, inl, inr, Bool, true, false, ◌&&◌, not, Option, none, some, List, [], ◌∷◌,
  ◌++◌, Text, if◌then◌else◌, any, all, arith, text_eq, text_eq_self, bit_and, ◌↔◌, &&-eq_true,
  Bool-cases,
}
use libudev_devd.Subsystem.{
  Platform, SubsystemConfig, unknown_subsystem, empty_entry, device_entries, bus_entries,
  subsystems, find_config, get_subsystem_config_by_syspath, get_subsystem_by_syspath,
  invoke_create_handler, is_skipped, kernel_has_evdev_enabled, scflag_skip_if_evdev, subsystem_of,
  handler_of,
}

-- An entry has a path and a handler, and names a subsystem that is not the unknown one.
abbrev is_named : SubsystemConfig → Bool
is_named sc =
    elim sc.subsystem [ none ↦ false | some s ↦ not (text_eq s unknown_subsystem) ]
    && elim sc.create_handler [ none ↦ false | some _ ↦ true ]
    && elim sc.syspath [ none ↦ false | some _ ↦ true ]

device_entries-named : (b : Bool) → all is_named (device_entries b) ≡ true
unfolding device_entries text_eq
device_entries-named true = refl
device_entries-named false = refl

module _ (p : Platform) where
  find_config-append :
      (xs ys : List SubsystemConfig) (path : Text)
      → any (λ sc. p.fnmatch sc.syspath (some path)) xs ≡ false
      → find_config p (xs ++ ys) path ≡ find_config p ys path
  unfolding find_config
  find_config-append [] ys path h = refl
  find_config-append (x ∷ xs) ys path h = ground (arith, find_config-append xs ys path)

  null_tried :
      (path : Text) (rest : List SubsystemConfig)
      → find_config p (empty_entry ∷ rest) path
        ≡ (if p.fnmatch none (some path) then some empty_entry else find_config p rest path)
  unfolding find_config
  null_tried path rest = refl

  -- A path that no entry in front of the empty one matches is held against the NULL pattern of the
  -- empty entry, so the entry found rests on what the C library's fnmatch does with NULL; the
  -- entries behind, for hidraw and PCI devices, are reached only if that does not match.
  pub null_pattern_reached :
      (path : Text)
      → any (λ sc. p.fnmatch sc.syspath (some path)) (device_entries p.have_evdev) ≡ false
      → get_subsystem_config_by_syspath p path ≡ (
          if p.fnmatch none (some path)
          then some empty_entry
          else find_config p (bus_entries p.have_hidraw p.have_devinfo) path)
  unfolding get_subsystem_config_by_syspath subsystems
  null_pattern_reached path h =
      let rest = bus_entries p.have_hidraw p.have_devinfo in
      find_config-append (device_entries p.have_evdev) (empty_entry ∷ rest) path h
      ∙ null_tried path rest

  -- No handler runs exactly where the subsystem is the unknown one.
  abbrev Agree : Option SubsystemConfig → Type 0
  Agree found = ((subsystem_of p found).0 ≡ some unknown_subsystem) ↔ (handler_of p found ≡ none)

  Agree-named : (sc : SubsystemConfig) → is_named sc ≡ true → Agree (some sc)
  unfolding subsystem_of handler_of
  Agree-named sc h = (
    ground (arith, text_eq_self unknown_subsystem),
    ground (arith, text_eq_self unknown_subsystem),
  )

  Agree-find_config :
      (xs ys : List SubsystemConfig) (path : Text)
      → all is_named xs ≡ true
      → any (λ sc. p.fnmatch sc.syspath (some path)) xs ≡ true
      → Agree (find_config p (xs ++ ys) path)
  unfolding find_config
  Agree-find_config [] ys path h k = cc
  Agree-find_config (sc ∷ xs) ys path h k = elim (Bool-cases (p.fnmatch sc.syspath (some path))) [
    | inl found ↦ rw found (Agree-named sc (&&-eq_true (is_named sc) _ h).0)
    | inr other ↦
        rw other
          (Agree-find_config xs ys path (&&-eq_true (is_named sc) _ h).1 (ground (arith, other)))
  ]

  -- For a syspath that an entry in front of the table's empty one matches, the subsystem is the
  -- unknown one exactly when invoke_create_handler runs no handler.
  pub unknown-iff-no_handler :
      (path : Text)
      → any (λ sc. p.fnmatch sc.syspath (some path)) (device_entries p.have_evdev) ≡ true
      → ((get_subsystem_by_syspath p path).0 ≡ some unknown_subsystem)
        ↔ (invoke_create_handler p path ≡ none)
  unfolding get_subsystem_by_syspath invoke_create_handler get_subsystem_config_by_syspath
      subsystems
  unknown-iff-no_handler path h =
      Agree-find_config (device_entries p.have_evdev)
        (empty_entry ∷ bus_entries p.have_hidraw p.have_devinfo) path
        (device_entries-named p.have_evdev) h

  skipped :
      (sc : SubsystemConfig)
      → bit_and sc.flags scflag_skip_if_evdev ≢ 0
      → kernel_has_evdev_enabled p ≡ true
      → (subsystem_of p (some sc) ≡ (some unknown_subsystem, none))
        × (handler_of p (some sc) ≡ none)
  unfolding subsystem_of handler_of is_skipped
  skipped sc marked enabled = ground arith

  -- With evdev in the kernel, a path whose table entry is one of those marked to be skipped is
  -- reported as unknown, its devtype is not stored, and no handler runs for it.
  pub skipped_hidden :
      (path : Text) (sc : SubsystemConfig)
      → get_subsystem_config_by_syspath p path ≡ some sc
      → bit_and sc.flags scflag_skip_if_evdev ≢ 0
      → kernel_has_evdev_enabled p ≡ true
      → (get_subsystem_by_syspath p path ≡ (some unknown_subsystem, none))
        × (invoke_create_handler p path ≡ none)
  unfolding get_subsystem_by_syspath invoke_create_handler
  skipped_hidden path sc found marked enabled = rw found (skipped sc marked enabled)
