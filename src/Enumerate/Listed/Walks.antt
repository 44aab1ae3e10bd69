-- ===== src/Enumerate/Listed/Walks.antt =====
-- Walks whose callbacks add to a list: where none fails, all that the walk comes upon is added.
use libudev_devd.Common.{
  ℕ, ◌-◌, sym, subst, Bool, true, false, ◌||◌, Option, none, some, List, [], ◌∷◌, ◌++◌, Text, ltb,
  if◌then◌else◌, length, Status, ok, failed, and_then, Bool-cases, inl, inr, append-nil,
  append_assoc,
}
use libudev_devd.Scandir.{
  Dir, Entries, opened, no_memory, refused, end, leaf, subdir, EntryType, Callback, is_dots,
  scandir_sub, scan_entries, scandir_recursive,
}
use libudev_devd.Enumerate.{
  DevinfoDev, DevTree, DevForest, node, leaves, tree, scandev_sub, foreach_child, scandev_recursive,
}
use libudev_devd.Enumerate.Listed.{dir_paths, entry_paths, tree_paths, forest_paths, devinfo_paths}

-- What holds of the state if a call did not fail.
abbrev pub Ends : {S : Type 0} → (S → Type 0) → S × Status → Type 0
Ends P (s, ok) = P s
Ends P (s, failed) = Unit

pub Ends-ok : {S : Type 0} (P : S → Type 0) (w : S × Status) → P w.0 → Ends P w
Ends-ok P (s, ok) h = h
Ends-ok P (s, failed) h = tt

module _ {S : Type 0} (P : List Text → S → Type 0) where
  -- A call adds the paths `ps`.
  abbrev pub Adds : List Text → (S → S × Status) → Type 0
  Adds ps f = (xs : List Text) (s : S) → P xs s → Ends (P (xs ++ ps)) (f s)

  pub and_then-Ends :
      (xs ys zs : List Text) (w : S × Status) (rest : S → S × Status)
      → Ends (P (xs ++ ys)) w
      → Adds zs rest
      → Ends (P (xs ++ (ys ++ zs))) (and_then w rest)
  and_then-Ends xs ys zs (s, ok) rest h k =
      subst (λ l. Ends (P l) (rest s)) (append_assoc xs ys zs) (k (xs ++ ys) s h)
  and_then-Ends xs ys zs (s, failed) rest h k = tt

  pub none-Ends : (xs : List Text) (s : S) → P xs s → P (xs ++ []) s
  none-Ends xs s h = subst (λ l. P l s) (sym (append-nil xs)) h

  module _ (found : Text → EntryType → List Text) (cb : Callback S)
      (adds : (path : Text) (type : EntryType) → Adds (found path type) (cb path type)) where
    mutual
      unfolding scandir_sub scan_entries dir_paths entry_paths

      sub-Adds :
          (dir : Dir) (path : Text) (rem : ℕ) (xs : List Text) (s : S)
          → P xs s
          → Ends (P (xs ++ dir_paths found dir path rem)) (scandir_sub true cb dir path rem s)
      sub-Adds (opened es) path rem xs s h = entries-Adds es path rem xs s h
      sub-Adds no_memory path rem xs s h = tt
      sub-Adds refused path rem xs s h = none-Ends xs s h

      entries-Adds :
          (es : Entries) (path : Text) (rem : ℕ) (xs : List Text) (s : S)
          → P xs s
          → Ends (P (xs ++ entry_paths found es path rem)) (scan_entries true cb es path rem s)
      entries-Adds end path rem xs s h = none-Ends xs s h
      entries-Adds (leaf name type es) path rem xs s h =
          elim (Bool-cases (is_dots name || ltb rem (length name))) [
            | inl out ↦ rw out (entries-Adds es path rem xs s h)
            | inr taken ↦ rw taken (
                and_then-Ends xs (found (path ++ name) type) _ _ _ (adds (path ++ name) type xs s h)
                  (entries-Adds es path rem))
          ]
      entries-Adds (subdir name dir es) path rem xs s h =
          elim (Bool-cases (is_dots name || ltb rem (length name))) [
            | inl out ↦ rw out (entries-Adds es path rem xs s h)
            | inr taken ↦ rw taken (elim (Bool-cases (ltb (rem - length name) 1)) [
              | inl full ↦ rw full (none-Ends xs s h)
              | inr room ↦ rw room (
                  and_then-Ends xs _ _ _ _
                    (sub-Adds dir (path ++ (name ++ b'/' ∷ [])) (rem - length name - 1) xs s h)
                    (entries-Adds es path rem))
            ])
          ]

    pub scandir_recursive-Adds :
        (root : Dir) (path : Text) (len : ℕ)
        → Adds
            (dir_paths found root path (len - length path - 1))
            (scandir_recursive true cb root path len)
    unfolding scandir_recursive
    scandir_recursive-Adds root path len = sub-Adds root path (len - length path - 1)

  module _ (found : DevinfoDev → List Text) (cb : DevinfoDev → S → S × Status)
      (adds : (dev : DevinfoDev) → Adds (found dev) (cb dev)) where
    mutual
      unfolding scandev_sub foreach_child tree_paths forest_paths

      tree-Adds :
          (t : DevTree) (xs : List Text) (s : S)
          → P xs s
          → Ends (P (xs ++ tree_paths found t)) (scandev_sub cb t s)
      tree-Adds (node dev children) xs s h =
          and_then-Ends xs (found dev) _ _ _ (adds dev xs s h) (forest-Adds children)

      forest-Adds :
          (f : DevForest) (xs : List Text) (s : S)
          → P xs s
          → Ends (P (xs ++ forest_paths found f)) (foreach_child cb f s)
      forest-Adds leaves xs s h = none-Ends xs s h
      forest-Adds (tree t rest) xs s h =
          and_then-Ends xs (tree_paths found t) _ _ _ (tree-Adds t xs s h) (forest-Adds rest)

    pub scandev-Adds :
        (have_devinfo : Bool) (roots : Option DevForest) (xs : List Text) (s : S)
        → P xs s
        → Ends
            (P (xs ++ devinfo_paths have_devinfo found roots))
            (if have_devinfo then scandev_recursive cb roots s else (s, ok))
    unfolding scandev_recursive devinfo_paths
    scandev-Adds false roots xs s h = none-Ends xs s h
    scandev-Adds true none xs s h = tt
    scandev-Adds true (some roots) xs s h = forest-Adds roots xs s h
