-- ===== src/Input/Properties.antt =====
-- set_input_device_type and create_xorg_parent of udev-dev.c: the entries that tell a client what an
-- input device is.
use mathlib.Core.Option
use mathlib.Core.Path.{fun_ext}
use libudev_devd.Common.{
  ℕ, ◌≡◌, refl, ◌∙◌, ap, Bool, true, ◌||◌, Option, none, some, List, [], ◌∷◌, ◌++◌, Text, codes,
  text_eq, String, if◌then◌else◌, any, arith, Status, ok, failed, text_eq_iff, text_eq_self,
}
use libudev_devd.UdevList.{ListEntry, RbTree, udev_list_insert}
use libudev_devd.UdevList.Laws.{IsValid, udev_list_insert-IsValid, find-udev_list_insert}
use libudev_devd.Input.Evdev.{
  InputType, it_none, keyboard, mouse, touchpad, touchscreen, joystick, tablet, accelerometer,
  switch,
}

-- The properties that announce a type.
abbrev pub type_properties : InputType → List Text
type_properties it_none = []
type_properties keyboard = codes "ID_INPUT_KEYBOARD" ∷ codes "ID_INPUT_KEY" ∷ []
type_properties mouse = codes "ID_INPUT_MOUSE" ∷ []
type_properties touchpad = codes "ID_INPUT_TOUCHPAD" ∷ codes "ID_INPUT_MOUSE" ∷ []
type_properties touchscreen = codes "ID_INPUT_TOUCHSCREEN" ∷ []
type_properties joystick = codes "ID_INPUT_JOYSTICK" ∷ []
type_properties tablet = codes "ID_INPUT_TABLET" ∷ []
type_properties accelerometer = codes "ID_INPUT_ACCELEROMETER" ∷ []
type_properties switch = codes "ID_INPUT_SWITCH" ∷ []

replaced_one :
    (m n : Text) (names : List Text) (found old : Option ListEntry)
    → found ≡ (
        if any (λ k. text_eq k n) names
        then some (record { name = n; value = some (codes "1") })
        else old)
    → (if text_eq m n then some (record { name = m; value = some (codes "1") }) else found) ≡ (
        if text_eq m n || any (λ k. text_eq k n) names
        then some (record { name = n; value = some (codes "1") })
        else old)
replaced_one m n names found old h = ground (arith, text_eq_iff m n)

module _ (R : RbTree) where
  open R use {Tree}

  -- udev_list_insert(ul, name, "1"), the n-th call of calloc, with its result dropped.
  insert_one : (ℕ → Bool) → ℕ → Tree → String → Tree
  insert_one memory n ul name = (udev_list_insert R (memory n) ul (codes name) (some (codes "1"))).0

  -- The `switch` on the type, from the second call of calloc on.
  insert_class : (ℕ → Bool) → Tree → InputType → Tree
  unfolding insert_one
  insert_class memory ul it_none = ul
  insert_class memory ul keyboard =
      insert_one memory 2 (insert_one memory 1 ul "ID_INPUT_KEY") "ID_INPUT_KEYBOARD"
  insert_class memory ul mouse = insert_one memory 1 ul "ID_INPUT_MOUSE"
  insert_class memory ul touchpad =
      insert_one memory 2 (insert_one memory 1 ul "ID_INPUT_MOUSE") "ID_INPUT_TOUCHPAD"
  insert_class memory ul touchscreen = insert_one memory 1 ul "ID_INPUT_TOUCHSCREEN"
  insert_class memory ul joystick = insert_one memory 1 ul "ID_INPUT_JOYSTICK"
  insert_class memory ul tablet = insert_one memory 1 ul "ID_INPUT_TABLET"
  insert_class memory ul accelerometer = insert_one memory 1 ul "ID_INPUT_ACCELEROMETER"
  insert_class memory ul switch = insert_one memory 1 ul "ID_INPUT_SWITCH"

  typed : (ℕ → Bool) → InputType → Tree × Status → Tree × Status
  unfolding insert_class
  typed memory t (ul, failed) = (ul, failed)
  typed memory t (ul, ok) = (insert_class memory ul t, ok)

  unfoldable pub set_input_device_type : (ℕ → Bool) → Tree → InputType → Tree × Status
  unfolding typed
  set_input_device_type memory ul input_type =
      typed memory input_type
        (udev_list_insert R (memory 0) ul (codes "ID_INPUT") (some (codes "1")))

  -- The two lists of a device that its creator fills.
  pub record ParentLists : Type 0 where
    pub props : Tree
    pub sysattrs : Tree

  -- The entries of the parent, from the lists that udev_device_new_common leaves in it. The name may
  -- be NULL where the caller passes none.
  unfoldable pub fill_parent :
      (ℕ → Bool) → Text → Option Text → Option Text → ParentLists → ParentLists
  fill_parent memory name product pnp_id d =
      let props = (udev_list_insert R (memory 0) d.props (codes "NAME") (some name)).0 in
      let attrs = (udev_list_insert R (memory 1) d.sysattrs (codes "name") (some name)).0 in
      record {
        props = elim product [
          | none ↦ props
          | some p ↦ (udev_list_insert R (memory 2) props (codes "PRODUCT") (some p)).0
        ];
        sysattrs = elim pnp_id [
          | none ↦ attrs
          | some _ ↦ (udev_list_insert R (memory 3) attrs (codes "id") product).0
        ];
      }

  -- `created` is the device that udev_device_new_common gives for the parent's sysname.
  unfoldable pub create_xorg_parent :
      (ℕ → Bool) → Option ParentLists → Text → Option Text → Option Text → Option ParentLists
  unfolding fill_parent
  create_xorg_parent memory none name product pnp_id = none
  create_xorg_parent memory (some d) name product pnp_id =
      some (fill_parent memory name product pnp_id d)

  -- A list in which the names given stand for "1", and which agrees with `old` elsewhere.
  record Announces (names : List Text) (old new : Tree) : Type 0 where
    valid : IsValid R new
    found :
        (n : Text)
        → R.find new n ≡ (
            if any (λ m. text_eq m n) names
            then some (record { name = n; value = some (codes "1") })
            else R.find old n)

  Announces-none : (ul : Tree) → IsValid R ul → Announces [] ul ul
  Announces-none ul v = record { valid = v; found = λ n. refl }

  Announces-insert :
      (names : List Text) (old ul : Tree) (name : Text)
      → Announces names old ul
      → Announces (name ∷ names) old (udev_list_insert R true ul name (some (codes "1"))).0
  Announces-insert names old ul name a = record {
    valid = udev_list_insert-IsValid R true ul name _ a.valid;
    found = λ n.
        (find-udev_list_insert R ul name (some (codes "1")) n a.valid).0
        ∙ replaced_one name n names (R.find ul n) (R.find old n) (a.found n);
  }

  Announces-class :
      (t : InputType) (ul : Tree) (start : Tree)
      → Announces (codes "ID_INPUT" ∷ []) start ul
      → Announces (type_properties t ++ codes "ID_INPUT" ∷ []) start (insert_class (λ _. true) ul t)
  unfolding insert_class
  Announces-class it_none ul start a = a
  Announces-class keyboard ul start a =
      Announces-insert _ start _ _ (Announces-insert _ start ul _ a)
  Announces-class mouse ul start a = Announces-insert _ start ul _ a
  Announces-class touchpad ul start a =
      Announces-insert _ start _ _ (Announces-insert _ start ul _ a)
  Announces-class touchscreen ul start a = Announces-insert _ start ul _ a
  Announces-class joystick ul start a = Announces-insert _ start ul _ a
  Announces-class tablet ul start a = Announces-insert _ start ul _ a
  Announces-class accelerometer ul start a = Announces-insert _ start ul _ a
  Announces-class switch ul start a = Announces-insert _ start ul _ a

  typed_ok :
      (memory : ℕ → Bool) (t : InputType) (w : Tree × Status)
      → w.1 ≡ ok
      → typed memory t w ≡ (insert_class memory w.0 t, ok)
  unfolding typed
  typed_ok memory t (ul, ok) h = refl
  typed_ok memory t (ul, failed) h = cc

  set_all :
      (ul : Tree) (t : InputType) (n : Text)
      → IsValid R ul
      → let w =
          typed (λ _. true) t (udev_list_insert R true ul (codes "ID_INPUT") (some (codes "1"))) in
        (R.find w.0 n ≡ (
          if any (λ m. text_eq m n) (type_properties t ++ codes "ID_INPUT" ∷ [])
          then some (record { name = n; value = some (codes "1") })
          else R.find ul n))
        × (w.1 ≡ ok)
  set_all ul t n v =
      let first = udev_list_insert R true ul (codes "ID_INPUT") (some (codes "1")) in
      let done =
        typed_ok (λ _. true) t first
          (find-udev_list_insert R ul (codes "ID_INPUT") (some (codes "1")) n v).1 in
      rw done (
        (Announces-class t first.0 ul
              (Announces-insert [] ul ul (codes "ID_INPUT") (Announces-none ul v))).found
            n,
        refl,
      )

  -- With memory at hand, set_input_device_type sets ID_INPUT and the properties of the type to "1",
  -- leaves every other property of the device as it was, and says so.
  pub set_input_device_type_lem :
      (memory : ℕ → Bool) (ul : Tree) (t : InputType) (n : Text)
      → IsValid R ul
      → ((k : ℕ) → memory k ≡ true)
      → (R.find (set_input_device_type memory ul t).0 n ≡ (
          if any (λ m. text_eq m n) (type_properties t ++ codes "ID_INPUT" ∷ [])
          then some (record { name = n; value = some (codes "1") })
          else R.find ul n))
        × ((set_input_device_type memory ul t).1 ≡ ok)
  unfolding set_input_device_type
  set_input_device_type_lem memory ul t n v h = rw (fun_ext h) (set_all ul t n v)

  fill_id :
      (memory : ℕ → Bool) (name product pnp_id : Text) (d : ParentLists)
      → IsValid R d.sysattrs
      → ((k : ℕ) → memory k ≡ true)
      → R.find (fill_parent memory name (some product) (some pnp_id) d).sysattrs (codes "id")
        ≡ some (record { name = codes "id"; value = some product })
  unfolding fill_parent
  fill_id memory name product pnp_id d v h = rw (fun_ext h) (
      (find-udev_list_insert R _ (codes "id") (some product) (codes "id")
        (udev_list_insert-IsValid R true d.sysattrs (codes "name") (some name) v)).0
      ∙ rw (text_eq_self (codes "id")) refl)

  -- With memory at hand, the attribute `id` of the parent that create_xorg_parent makes is the
  -- product, whatever PNP id was given.
  pub create_xorg_parent-id :
      (memory : ℕ → Bool) (d : ParentLists) (name product pnp_id : Text)
      → IsValid R d.sysattrs
      → ((k : ℕ) → memory k ≡ true)
      → Option.map
          (λ (q : ParentLists). R.find q.sysattrs (codes "id"))
          (create_xorg_parent memory (some d) name (some product) (some pnp_id))
        ≡ some (some (record { name = codes "id"; value = some product }))
  unfolding create_xorg_parent
  create_xorg_parent-id memory d name product pnp_id v h =
      ap some (fill_id memory name product pnp_id d v h)
