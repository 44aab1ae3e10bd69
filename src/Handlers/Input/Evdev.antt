-- ===== src/Handlers/Input/Evdev.antt =====
-- What create_evdev_handler tells clients, and the parent that it makes.
use libudev_devd.Common.{
  ◌≡◌, Option, none, some, [], ◌∷◌, Text, codes, if◌then◌else◌, before, text_eq, ◌⊎◌,
}
use libudev_devd.UdevList.{RbTree}
use libudev_devd.Input.Properties.{ParentLists}
use libudev_devd.Devd.Dbsf.{print_hex}
use libudev_devd.Handlers.Parent.{Node}
use libudev_devd.Handlers.Input.{EvdevInfo}

module _ (R : RbTree) where
  -- What becomes of the parent of an evdev device that has a type.
  abbrev pub HasParent : (Text → Option (ParentLists R)) → EvdevInfo → (ud out : Node R) → Type 0
  HasParent created i ud out =
      let place = if text_eq i.phys [] then codes "uinput" else i.phys in
      ((created place ≡ none) × (out.parent ≡ ud.parent))
      ⊎ ((lists : ParentLists R) × (out.parent ≡ some (place, lists))
          × (R.find lists.props (codes "PRODUCT")
              ≡ some (record {
                name = codes "PRODUCT";
                value = some (
                    print_hex 1 i.id.bustype (
                      b'/'
                      ∷ print_hex 1 i.id.vendor
                          (b'/' ∷ print_hex 1 i.id.product (b'/' ∷ print_hex 1 i.id.version []))));
              }))
          × (R.find lists.props (codes "NAME")
              ≡ some (record { name = codes "NAME"; value = some (before b',' i.name) })))
