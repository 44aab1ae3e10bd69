-- ===== src/Device/Parents.antt =====
-- udev_device_get_parent, udev_device_get_parent_with_subsystem_devtype and udev_device_free of
-- udev-device.c, on a device with its chain of parents.
use libudev_devd.Common.{
  ◌≡◌, refl, ap, Bool, true, false, ◌&&◌, Option, none, some, List, [], ◌∷◌, ◌++◌, Text, text_eq,
  text_eq_iff, &&-eq_true, if◌then◌else◌, Bool-cases, inl, inr,
}
use libudev_devd.Subsystem.{Platform, get_subsystem_by_syspath}

-- A device of a chain; the next of the list is its `parent`, NULL behind the last.
pub record Linked : Type 0 where
  pub syspath : Text
  pub parent_ref : Bool

-- The loop over the parents that udev_device_free makes by its own call: the devices freed.
unfoldable pub udev_device_free : List Linked → List Text
udev_device_free [] = []
udev_device_free (ud ∷ parents) =
    let above = udev_device_free parents in ud.syspath ∷ (if ud.parent_ref then [] else above)

-- The chain with the flag of the device set, and the parent's chain.
unfoldable pub udev_device_get_parent : List Linked → List Linked × Option (List Linked)
udev_device_get_parent [] = ([], none)
udev_device_get_parent (ud ∷ []) = (ud ∷ [], none)
udev_device_get_parent (ud ∷ parent ∷ rest) =
    (record ud { parent_ref = true } ∷ parent ∷ rest, some (parent ∷ rest))

module _ (p : Platform) (subsystem : Text) (devtype : Option Text) where
  -- `*devtype`, which stays as it was where nothing is stored.
  unfoldable pub stored_devtype : Option Text → Option (Option Text) → Option Text
  stored_devtype before none = before
  stored_devtype before (some stored) = stored

  -- The two tests of the loop's body, on the parent's subsystem and `parent_devtype`.
  unfoldable pub is_wanted : Option Text → Option Text → Bool
  is_wanted none parent_devtype = false
  is_wanted (some parent_subsystem) parent_devtype =
      text_eq parent_subsystem subsystem && elim devtype [
        | none ↦ true
        | some d ↦ elim parent_devtype [ none ↦ false | some pd ↦ text_eq pd d ]
      ]

  -- `parent_devtype` behind the call for a syspath, and whether the loop ends there.
  abbrev pub devtype_at : Option Text → Text → Option Text
  devtype_at before syspath = stored_devtype before (get_subsystem_by_syspath p syspath).1

  abbrev pub wanted_at : Option Text → Text → Bool
  wanted_at before syspath =
      is_wanted (get_subsystem_by_syspath p syspath).0 (devtype_at before syspath)

  -- The loop, with `child` and the chain above it: the chain from `child` on, and the chain of the
  -- parent returned.
  unfoldable pub find_parent :
      Option Text → Linked → List Linked → List Linked × Option (List Linked)
  find_parent before child [] = (child ∷ [], none)
  find_parent before child (parent ∷ rest) =
      let (above, found) = find_parent (devtype_at before parent.syspath) parent rest in
      if wanted_at before parent.syspath
      then (record child { parent_ref = true } ∷ parent ∷ rest, some (parent ∷ rest))
      else (child ∷ above, found)

  -- A device; the caller gives neither a NULL device nor a NULL subsystem.
  unfoldable pub udev_device_get_parent_with_subsystem_devtype :
      Linked → List Linked → List Linked × Option (List Linked)
  udev_device_get_parent_with_subsystem_devtype ud parents = find_parent none ud parents

abbrev pub syspaths : List Linked → List Text
syspaths [] = []
syspaths (ud ∷ chain) = ud.syspath ∷ syspaths chain

-- The devices below the parent found. The chain lists the same devices as before, the parent is of
-- the subsystem sought, and what is freed with the first device lies below the parent.
pub record Handed (p : Platform) (subsystem : Text) (chain new found : List Linked) : Type 0 where
  pub below : List Linked
  pub parent : Linked
  pub above : List Linked
  pub kept : List Text
  pub found_is : found ≡ parent ∷ above
  pub of_subsystem : (get_subsystem_by_syspath p parent.syspath).0 ≡ some subsystem
  pub split : new ≡ below ++ found
  pub same : syspaths new ≡ syspaths chain
  pub freed : syspaths below ≡ udev_device_free new ++ kept

abbrev pub Searched : Platform → Text → List Linked → List Linked × Option (List Linked) → Type 0
Searched p subsystem chain (new, none) = new ≡ chain
Searched p subsystem chain (new, some found) = Handed p subsystem chain new found

-- What is freed of a chain with one more device in front.
freed_below :
    (d : Linked) (below new : List Linked) (kept : List Text)
    → syspaths below ≡ udev_device_free new ++ kept
    → (kept' : List Text) × (syspaths (d ∷ below) ≡ udev_device_free (d ∷ new) ++ kept')
unfolding udev_device_free
freed_below d below new kept h = elim (Bool-cases d.parent_ref) [
  | inl stops ↦ (syspaths below, rw stops refl)
  | inr goes ↦ (kept, rw goes (ap (λ t. d.syspath ∷ t) h))
]

module _ (p : Platform) (subsystem : Text) (devtype : Option Text) where
  Searched-cons :
      (child : Linked) (chain : List Linked) (w : List Linked × Option (List Linked))
      → Searched p subsystem chain w
      → Searched p subsystem (child ∷ chain) (child ∷ w.0, w.1)
  Searched-cons child chain (new, none) h = ap (λ t. child ∷ t) h
  Searched-cons child chain (new, some found) h =
      let f = freed_below child h.below new h.kept h.freed in
      record {
        below = child ∷ h.below;
        parent = h.parent;
        above = h.above;
        kept = f.0;
        found_is = h.found_is;
        of_subsystem = h.of_subsystem;
        split = ap (λ t. child ∷ t) h.split;
        same = ap (λ t. child.syspath ∷ t) h.same;
        freed = f.1;
      }

  wanted-subsystem :
      (s stored : Option Text) → is_wanted p subsystem devtype s stored ≡ true → s ≡ some subsystem
  unfolding is_wanted
  wanted-subsystem none stored h = cc
  wanted-subsystem (some s) stored h =
      ap some ((text_eq_iff s subsystem).0 ((&&-eq_true (text_eq s subsystem) _ h).0))

  find_parent-Searched :
      (before : Option Text) (child : Linked) (parents : List Linked)
      → Searched p subsystem
          (child ∷ parents)
          (find_parent p subsystem devtype before child parents)
  unfolding find_parent udev_device_free
  find_parent-Searched before child [] = refl
  find_parent-Searched before child (parent ∷ rest) =
      elim (Bool-cases (wanted_at p subsystem devtype before parent.syspath)) [
        | inl wanted ↦ rw wanted (record {
          below = record child { parent_ref = true } ∷ [];
          parent = parent;
          above = rest;
          kept = [];
          found_is = refl;
          of_subsystem = wanted-subsystem _ _ wanted;
          split = refl;
          same = refl;
          freed = refl;
        })
        | inr unwanted ↦ rw unwanted (
            Searched-cons child (parent ∷ rest) _ (
              find_parent-Searched (devtype_at p subsystem devtype before parent.syspath) parent
                rest))
      ]

  -- A search for a parent by udev_device_get_parent_with_subsystem_devtype that finds nothing leaves
  -- the chain as it was. A parent that it returns is of the subsystem sought, the chain lists the
  -- same devices as before, and freeing the device afterwards frees devices below that parent only.
  pub get_parent_with_subsystem_devtype_lem :
      (ud : Linked) (parents : List Linked)
      → Searched p subsystem
          (ud ∷ parents)
          (udev_device_get_parent_with_subsystem_devtype p subsystem devtype ud parents)
  unfolding udev_device_get_parent_with_subsystem_devtype
  get_parent_with_subsystem_devtype_lem ud parents = find_parent-Searched none ud parents
