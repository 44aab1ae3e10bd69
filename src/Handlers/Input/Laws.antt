-- ===== src/Handlers/Input/Laws.antt =====
-- What the handlers of input devices tell clients.
use libudev_devd.Common.{
  ℕ, ◌≡◌, refl, ap, ◌∙◌, Bool, true, false, Option, none, some, [], ◌∷◌, ◌++◌, Text, codes,
  if◌then◌else◌, any, text_eq, Option-cases, inl, inr, leb, length, take, drop, ◌==◌,
}
use libudev_devd.UdevList.{RbTree}
use libudev_devd.UdevList.Laws.{IsValid}
use libudev_devd.Str.Paths.{syspathlen_wo_units}
use libudev_devd.Input.Evdev.{InputType, keyboard, mouse, touchpad, touchscreen, joystick}
use libudev_devd.Input.Properties.{
  ParentLists, create_xorg_parent, set_input_device_type_lem, type_properties,
}
use libudev_devd.Handlers.Parent.{
  Node, attach_parent, set_parent, asked_parent, known_parent, print_mib, print_product,
  bus_virtual,
}
use libudev_devd.Devd.{dev_path_max}
use libudev_devd.Str.Copy.{strlcpy}
use libudev_devd.Handlers.Input.{
  announce, create_typed, create_keyboard_handler, create_mouse_handler, create_joystick_handler,
  create_touchpad_handler, create_touchscreen_handler,
}

either :
    {R : RbTree}
    → (b : Bool) (x y z : Node R) → x.lists ≡ z.lists
    → y.lists ≡ z.lists
    → (if b then x else y).lists ≡ z.lists
either true x y z h k = h
either false x y z h k = k

module _ (R : RbTree) (memory : ℕ → Bool) (created : Text → Option (ParentLists R)) where
  pub attach_parent-lists :
      (sysname name : Text) (product pnp_id : Option Text) (ud : Node R)
      → (attach_parent R memory created sysname name product pnp_id ud).lists ≡ ud.lists
  unfolding attach_parent
  attach_parent-lists sysname name product pnp_id ud =
      elim (Option-cases (create_xorg_parent R memory (created sysname) name product pnp_id)) [
        | inl failed ↦ rw (failed, attach_parent) refl
        | inr (lists, made) ↦ rw (made, attach_parent) refl
      ]

  module _ (have_sysctl : Bool) (sysctl : Text → ℕ → Option Text) where
    asked_parent-lists :
        (sysname devname unit : Text) (ud : Node R)
        → (asked_parent R memory created have_sysctl sysctl sysname devname unit ud).lists
          ≡ ud.lists
    unfolding asked_parent known_parent
    asked_parent-lists sysname devname unit ud =
        elim (Option-cases (sysctl (print_mib 17 devname unit (codes "%desc")) 80)) [
          | inl failed ↦ rw (failed, asked_parent) refl
          | inr (desc, d) ↦
              elim (Option-cases (sysctl (print_mib 14 devname unit (codes "%pnpinfo")) 1024)) [
                | inl failed ↦ rw (d, asked_parent) (rw (failed, asked_parent) refl)
                | inr (pnpinfo, i) ↦
                    elim (Option-cases (sysctl (print_mib 15 devname unit (codes "%parent")) 80)) [
                      | inl failed ↦
                          rw (d, asked_parent)
                            (rw (i, asked_parent) (rw (failed, asked_parent) refl))
                      | inr (parentname, p) ↦
                          rw (d, asked_parent)
                            (rw (i, asked_parent)
                              (rw (p, asked_parent) (attach_parent-lists sysname _ _ _ ud)))
                    ]
              ]
        ]

    -- Both ways to make a parent leave the lists of the device itself as they are.
    set_parent-lists :
        (sysname : Text) (ud : Node R)
        → (set_parent R memory created have_sysctl sysctl sysname ud).lists ≡ ud.lists
    unfolding set_parent
    set_parent-lists sysname ud =
        let len = syspathlen_wo_units sysname in
        either (length sysname == len) ud _ ud refl (
          either have_sysctl
            (if leb dev_path_max len
              then record ud { overrun = true }
              else asked_parent R memory created have_sysctl sysctl sysname (take len sysname)
                  (drop len sysname) ud)
            (attach_parent R memory created sysname (strlcpy [] sysname 80).0
              (some (print_product (record { bus = bus_virtual; vendor = 0; prod = 0 }))) none ud)
            ud
            (either (leb dev_path_max len) (record ud { overrun = true }) _ ud refl
              (asked_parent-lists sysname (take len sysname) (drop len sysname) ud))
            (attach_parent-lists sysname _ _ _ ud))

module _ (R : RbTree) where
  -- What clients find in a list that has announced a type.
  abbrev pub Tells : InputType → (old new : ParentLists R) → Type 0
  Tells type old new =
      (n : Text)
      → R.find new.props n ≡ (
          if any (λ m. text_eq m n) (type_properties type ++ codes "ID_INPUT" ∷ [])
          then some (record { name = n; value = some (codes "1") })
          else R.find old.props n)

  pub announce-Tells :
      (created : Text → Option (ParentLists R)) (type : InputType) (ud : Node R)
      → IsValid R ud.lists.props
      → Tells type ud.lists (announce R (λ n. true) (λ n. true) created type ud).lists
  unfolding announce
  announce-Tells created type ud v n =
      (set_input_device_type_lem R (λ n. true) ud.lists.props type n v (λ k. refl)).0

  module _ (created : Text → Option (ParentLists R)) (have_sysctl : Bool)
      (sysctl : Text → ℕ → Option Text) where
    pub create_typed-Tells :
        (type : InputType) (sysname : Text) (ud : Node R)
        → IsValid R ud.lists.props
        → Tells type ud.lists
            (create_typed R
              (λ n. true)
              (λ n. true)
              created
              have_sysctl
              sysctl
              type
              sysname
              ud).lists
    unfolding create_typed
    create_typed-Tells type sysname ud v n =
        ap (λ (l : ParentLists R). R.find l.props n)
          (set_parent-lists R (λ n. true) created have_sysctl sysctl sysname _)
        ∙ announce-Tells created type ud v n

    -- With memory at hand, each of the five handlers of the older drivers announces its type among
    -- the device's properties and leaves the others as they were, whatever the kernel answers and
    -- whether or not a parent can be created.
    pub older_handlers-Tells :
        (sysname : Text) (ud : Node R)
        → IsValid R ud.lists.props
        → let after =
            λ (handler : (R : RbTree) (type_memory memory : ℕ → Bool)
                  (created : Text → Option (ParentLists R)) (have_sysctl : Bool)
                  (sysctl : Text → ℕ → Option Text)
                → Text
                → Node R
                → Node R).
              (handler R (λ n. true) (λ n. true) created have_sysctl sysctl sysname ud).lists in
          Tells keyboard ud.lists (after create_keyboard_handler)
          × Tells mouse ud.lists (after create_mouse_handler)
          × Tells joystick ud.lists (after create_joystick_handler)
          × Tells touchpad ud.lists (after create_touchpad_handler)
          × Tells touchscreen ud.lists (after create_touchscreen_handler)
    unfolding create_keyboard_handler create_mouse_handler create_joystick_handler
        create_touchpad_handler create_touchscreen_handler
    older_handlers-Tells sysname ud v = (
      create_typed-Tells keyboard sysname ud v,
      create_typed-Tells mouse sysname ud v,
      create_typed-Tells joystick sysname ud v,
      create_typed-Tells touchpad sysname ud v,
      create_typed-Tells touchscreen sysname ud v,
    )
