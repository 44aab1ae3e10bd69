-- ===== src/Handlers/Drm/Laws.antt =====
-- What create_drm_handler and create_hidraw_handler tell clients.
use libudev_devd.Common.{
  ℕ, ◌^◌, ◌<◌, ◌≡◌, refl, ap, subst, sym, ◌∙◌, true, Option, none, some, [], ◌∷◌, ◌++◌, Text, codes,
  text_eq, if◌then◌else◌, ltb, drop, take, starts_with, lacks, length-append, take-eq_self, arith,
}
use libudev_devd.Str.Paths.{get_devpath_by_syspath}
use libudev_devd.UdevList.{ListEntry, RbTree}
use libudev_devd.UdevList.Laws.{IsValid, udev_list_insert-IsValid, find-udev_list_insert}
use libudev_devd.Input.Properties.{ParentLists, create_xorg_parent, fill_parent}
use libudev_devd.Handlers.Decimal.{
  print_unsigned, print_int, print_unsigned-length, print_unsigned-lacks, scan_int-print_unsigned,
}
use libudev_devd.Handlers.Parent.{Node}
use libudev_devd.Handlers.Drm.{
  pci_id_mib, card_number, busid_mib, path_id, dotted, set_property, set_pci_id, set_path_id,
  ask_kernel, create_drm_handler,
}

abbrev pub entry : Text → Text → Option ListEntry
entry name value = some (record { name = name; value = some value })

dotted_plain : (s : Text) → lacks b'/' s ≡ true → dotted s ≡ s
unfolding dotted
dotted_plain [] h = refl
dotted_plain (c ∷ s) h = ground (arith, dotted_plain s)

card_number-card :
    (n : ℕ) → n < 2 ^ 31 → card_number (codes "/dev/drm/" ++ print_unsigned n []) ≡ some n
unfolding card_number starts_with
card_number-card n h = scan_int-print_unsigned n h

pci_id_mib-card :
    (n : ℕ)
    → pci_id_mib (codes "/dev/drm/" ++ print_unsigned n [])
      ≡ codes "dev.drm." ++ (print_unsigned n [] ++ codes ".PCI_ID")
unfolding pci_id_mib dotted
pci_id_mib-card n =
    let number = print_unsigned n [] in
    let short = print_unsigned-length n [] in
    let plain : dotted (drop 1 (codes "/dev/drm/" ++ number)) ≡ codes "dev.drm." ++ number =
      ap (λ t. codes "dev.drm." ++ t) (dotted_plain number (print_unsigned-lacks n)) in
    ap (λ t. take 31 (take 24 t ++ codes ".PCI_ID")) plain
    ∙ ap (λ t. take 31 (t ++ codes ".PCI_ID"))
        (take-eq_self 24 (codes "dev.drm." ++ number) (omega (arith, short)))
    ∙ take-eq_self 31 (codes "dev.drm." ++ (number ++ codes ".PCI_ID"))
        (omega (arith, short, length-append number (codes ".PCI_ID")))

busid_mib-card :
    (n : ℕ) → n < 2 ^ 31 → busid_mib n ≡ codes "hw.dri." ++ print_unsigned n (codes ".busid")
unfolding busid_mib print_int
busid_mib-card n h =
    let small : ltb n (2 ^ 31) ≡ true = ground arith in
    rw small (
      take-eq_self 31 (codes "hw.dri." ++ print_unsigned n (codes ".busid"))
        (omega (arith, print_unsigned-length n (codes ".busid"))))

module _ (R : RbTree) where
  set-found :
      (d : ParentLists R) (name value : Text)
      → IsValid R d.props
      → R.find (set_property R true name value d).props name
        ≡ (if text_eq name name then entry name value else R.find d.props name)
  unfolding set_property
  set-found d name value v = (find-udev_list_insert R d.props name (some value) name v).0

  set-valid :
      (d : ParentLists R) (name value : Text)
      → IsValid R d.props
      → IsValid R (set_property R true name value d).props
  unfolding set_property
  set-valid d name value v = udev_list_insert-IsValid R true d.props name (some value) v

  -- What ID_PATH is after the answer for the bus.
  abbrev pub path_of : Option Text → Option ListEntry → Option ListEntry
  path_of none old = old
  path_of (some busid) old =
      entry (codes "ID_PATH")
        (if starts_with (codes "pci:") busid then codes "pci-" ++ drop 4 busid else busid)

  -- What PCI_ID is after the answer for it.
  abbrev pub pci_id_of : Option Text → Option ListEntry → Option ListEntry
  pci_id_of none old = old
  pci_id_of (some id) old = entry (codes "PCI_ID") id

  set_path_id-lists :
      (busid : Option Text) (ud : Node R)
      → IsValid R ud.lists.props
      → let new = (set_path_id R true busid ud).lists.props in
        (R.find new (codes "HOTPLUG") ≡ R.find ud.lists.props (codes "HOTPLUG"))
        × (R.find new (codes "ID_PATH") ≡ path_of busid (R.find ud.lists.props (codes "ID_PATH")))
  unfolding set_path_id set_property path_id text_eq
  set_path_id-lists none ud v = (refl, refl)
  set_path_id-lists (some busid) ud v =
      let found = λ (n : Text).
        (find-udev_list_insert R ud.lists.props (codes "ID_PATH") (some (path_id busid)) n v).0 in
      (found (codes "HOTPLUG"), found (codes "ID_PATH"))

  set_path_id-parent :
      (busid : Option Text) (ud : Node R) → (set_path_id R true busid ud).parent ≡ ud.parent
  unfolding set_path_id
  set_path_id-parent none ud = refl
  set_path_id-parent (some busid) ud = refl

  set_pci_id-lists :
      (id : Option Text) (sysname : Text) (lists props : ParentLists R) (ud : Node R)
      → (set_pci_id R true id (record ud { lists = props; parent = some (sysname, lists) })).lists
        ≡ props
  unfolding set_pci_id
  set_pci_id-lists none sysname lists props ud = refl
  set_pci_id-lists (some id) sysname lists props ud = refl

  set_pci_id-parent :
      (id : Option Text) (sysname : Text) (lists props : ParentLists R) (ud : Node R)
      → IsValid R lists.props
      → (lists' : ParentLists R) × ((set_pci_id R true id
            (record ud { lists = props; parent = some (sysname, lists) })).parent
          ≡ some (sysname, lists'))
        × (R.find lists'.props (codes "PCI_ID")
            ≡ pci_id_of id (R.find lists.props (codes "PCI_ID")))
  unfolding set_pci_id text_eq
  set_pci_id-parent none sysname lists props ud v = (lists, refl, refl)
  set_pci_id-parent (some id) sysname lists props ud v =
      (set_property R true (codes "PCI_ID") id lists, refl, set-found lists (codes "PCI_ID") id v)

  found-hot :
      (d : ParentLists R)
      → IsValid R d.props
      → R.find (set_property R true (codes "HOTPLUG") (codes "1") d).props (codes "ID_PATH")
        ≡ R.find d.props (codes "ID_PATH")
  unfolding set_property text_eq
  found-hot d v =
      (find-udev_list_insert R d.props (codes "HOTPLUG") (some (codes "1")) (codes "ID_PATH") v).0

  -- Both answers put into a device that is announced and has its parent.
  answers-found :
      (busid id : Option Text) (sysname : Text) (fresh : ParentLists R) (ud : Node R)
      → IsValid R ud.lists.props
      → IsValid R fresh.props
      → let attached : Node R = record ud {
        lists = set_property R true (codes "HOTPLUG") (codes "1") ud.lists;
        parent = some (sysname, fill_parent R (λ n. true) (codes "drm parent") none none fresh);
      } in
        let out = set_path_id R true busid (set_pci_id R true id attached) in
        (R.find out.lists.props (codes "HOTPLUG") ≡ entry (codes "HOTPLUG") (codes "1"))
        × (R.find out.lists.props (codes "ID_PATH")
            ≡ path_of busid (R.find ud.lists.props (codes "ID_PATH")))
        × ((lists : ParentLists R) × (out.parent ≡ some (sysname, lists))
            × (R.find lists.props (codes "PCI_ID")
                ≡ pci_id_of id (R.find fresh.props (codes "PCI_ID"))))
  unfolding fill_parent text_eq
  answers-found busid id sysname fresh ud v w =
      let hot = set_property R true (codes "HOTPLUG") (codes "1") ud.lists in
      let named = fill_parent R (λ n. true) (codes "drm parent") none none fresh in
      let asked =
        set_pci_id R true id (record ud { lists = hot; parent = some (sysname, named) }) in
      let same = set_pci_id-lists id sysname named hot ud in
      let hot_valid = set-valid ud.lists (codes "HOTPLUG") (codes "1") v in
      let valid : IsValid R asked.lists.props =
        subst (λ (l : ParentLists R). IsValid R l.props) (sym same) hot_valid in
      let told = set_path_id-lists busid asked valid in
      let kept = λ (n : Text). ap (λ (l : ParentLists R). R.find l.props n) same in
      let named_valid =
        udev_list_insert-IsValid R true fresh.props (codes "NAME") (some (codes "drm parent")) w in
      let (lists, at, id_found) = set_pci_id-parent id sysname named hot ud named_valid in
      (
        told.0 ∙ kept (codes "HOTPLUG") ∙ set-found ud.lists (codes "HOTPLUG") (codes "1") v,
        told.1 ∙ ap (path_of busid) (kept (codes "ID_PATH") ∙ found-hot ud.lists v),
        (
          lists,
          set_path_id-parent busid asked ∙ at,
          id_found
              ∙ ap (pci_id_of id)
                  (find-udev_list_insert R fresh.props (codes "NAME") (some (codes "drm parent"))
                    (codes "PCI_ID") w).0,
        ),
      )

  module _ (created : Text → Option (ParentLists R)) (realpath : Text → Text)
      (sysctl : Text → ℕ → Option Text) (path_max : ℕ) where
    -- `n` is the card that the node resolves to.
    ask_kernel-answers :
        (devpath : Text) (n : ℕ) (ud : Node R)
        → n < 2 ^ 31
        → realpath devpath ≡ codes "/dev/drm/" ++ print_unsigned n []
        → ask_kernel R (λ n. true) (λ n. true) created true realpath sysctl path_max devpath ud
          ≡ set_path_id R true (sysctl (codes "hw.dri." ++ print_unsigned n (codes ".busid")) 32) (
              set_pci_id R true
                (sysctl (codes "dev.drm." ++ (print_unsigned n [] ++ codes ".PCI_ID")) path_max)
                ud)
    unfolding ask_kernel
    ask_kernel-answers devpath n ud h r =
        let card = ap card_number r ∙ card_number-card n h in
        let mib = ap pci_id_mib r ∙ pci_id_mib-card n in
        rw card (rw mib (rw (busid_mib-card n h) refl))

    -- For a graphics device whose node resolves to that of a card, /dev/drm/<n>, with memory at hand
    -- and a parent that can be created, create_drm_handler sets HOTPLUG to 1; it asks the kernel for
    -- hw.dri.<n>.busid and sets ID_PATH to the answer, with "pci-" for "pci:" at its front, and keeps
    -- ID_PATH where there is none; and it asks for dev.drm.<n>.PCI_ID and sets PCI_ID of the parent to
    -- the answer, and keeps that where there is none.
    pub create_drm_handler_lem :
        (fresh : ParentLists R) (syspath sysname devpath : Text) (n : ℕ) (ud : Node R)
        → n < 2 ^ 31
        → get_devpath_by_syspath syspath ≡ some devpath
        → realpath devpath ≡ codes "/dev/drm/" ++ print_unsigned n []
        → created sysname ≡ some fresh
        → IsValid R ud.lists.props
        → IsValid R fresh.props
        → let busid = sysctl (codes "hw.dri." ++ print_unsigned n (codes ".busid")) 32 in
          let id = sysctl (codes "dev.drm." ++ (print_unsigned n [] ++ codes ".PCI_ID")) path_max in
          let out =
            create_drm_handler R
              (λ n. true)
              (λ n. true)
              created
              true
              realpath
              sysctl
              path_max
              syspath
              sysname
              ud in
          (R.find out.lists.props (codes "HOTPLUG") ≡ entry (codes "HOTPLUG") (codes "1"))
          × (R.find out.lists.props (codes "ID_PATH")
              ≡ path_of busid (R.find ud.lists.props (codes "ID_PATH")))
          × ((lists : ParentLists R) × (out.parent ≡ some (sysname, lists))
              × (R.find lists.props (codes "PCI_ID")
                  ≡ pci_id_of id (R.find fresh.props (codes "PCI_ID"))))
    unfolding create_drm_handler create_xorg_parent
    create_drm_handler_lem fresh syspath sysname devpath n ud h p r c v w =
        let parent = fill_parent R (λ n. true) (codes "drm parent") none none fresh in
        let hot = set_property R true (codes "HOTPLUG") (codes "1") ud.lists in
        let attached : Node R = record ud { lists = hot; parent = some (sysname, parent) } in
        rw (p, create_drm_handler)
          (rw (c, create_drm_handler, create_xorg_parent)
            (rw (ask_kernel-answers devpath n attached h r)
              (answers-found _ _ sysname fresh ud v w)))
