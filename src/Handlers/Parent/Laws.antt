-- ===== src/Handlers/Parent/Laws.antt =====
-- The parent that set_parent makes of what the kernel knows of a device.
use libudev_devd.Common.{
  ℕ, suc, ◌+◌, ◌^◌, ◌<◌, ◌≤◌, ◌≡◌, refl, ap, ◌∙◌, true, false, Bool, Option, Option-cases, inl, inr,
  some, ◌∷◌, ◌++◌, Text, codes, ◌==◌, leb, before, drop, take, length, text_eq, arith,
  length-append, length-take, take-eq_self,
}
use libudev_devd.Str.Paths.{syspathlen_wo_units}
use libudev_devd.Str.KernProp.{get_kern_prop_value}
use libudev_devd.UdevList.{RbTree, udev_list_insert}
use libudev_devd.UdevList.Laws.{IsValid, udev_list_insert-IsValid, find-udev_list_insert}
use libudev_devd.Devd.Dbsf.{print_hex, first_is}
use libudev_devd.Input.Properties.{ParentLists, create_xorg_parent, fill_parent}
use libudev_devd.Handlers.Hex.{is_hex, is_x}
use libudev_devd.Handlers.Strtol.{strtol, strtol-print_hex}
use libudev_devd.Handlers.Parent.{
  identify, print_mib, print_product, Node, attach_parent, known_parent, asked_parent, set_parent,
}

-- The names that set_parent asks the kernel for are never cut off by their buffer.
print_mib_whole :
    (limit : ℕ) (devname unit leaf : Text)
    → limit + length leaf ≤ 22
    → print_mib limit devname unit leaf
      ≡ codes "dev." ++ (take limit devname ++ (b'.' ∷ (take 3 unit ++ b'.' ∷ leaf)))
unfolding print_mib
print_mib_whole limit devname unit leaf h = take-eq_self 31 _ (
    omega (
      arith,
      length-append (take limit devname) (b'.' ∷ (take 3 unit ++ b'.' ∷ leaf)),
      length-append (take 3 unit) (b'.' ∷ leaf),
      length-take limit devname,
      length-take 3 unit,
    ))

-- A value of pnpinfo that is written as a hexadecimal number, and what follows it.
abbrev pub IsNumber : Text → ℕ → Type 0
IsNumber value n =
    (width : ℕ) × (out : Text) × (value ≡ codes "0x" ++ print_hex (suc width) n out)
    × (n < 2 ^ 32)
    × (first_is is_hex out ≡ false)
    × (first_is is_x out ≡ false)

strtol-IsNumber : (value : Text) (n : ℕ) → IsNumber value n → strtol value ≡ n
strtol-IsNumber value n (width, out, same, b, h, k) =
    ap strtol same ∙ strtol-print_hex width n out b h k

module _ (R : RbTree) where
  -- With memory at hand, the parent's properties are the name and the product.
  pub attach_parent-props :
      (created : Text → Option (ParentLists R)) (fresh : ParentLists R)
      (sysname name product : Text) (pnp_id : Option Text) (ud : Node R)
      → created sysname ≡ some fresh
      → IsValid R fresh.props
      → (lists : ParentLists R) × ((attach_parent R
            (λ n. true)
            created
            sysname
            name
            (some product)
            pnp_id
            ud).parent
          ≡ some (sysname, lists))
        × (R.find lists.props (codes "PRODUCT")
            ≡ some (record { name = codes "PRODUCT"; value = some product }))
        × (R.find lists.props (codes "NAME")
            ≡ some (record { name = codes "NAME"; value = some name }))
  unfolding attach_parent create_xorg_parent fill_parent text_eq
  attach_parent-props created fresh sysname name product pnp_id ud c v =
      let v1 = udev_list_insert-IsValid R true fresh.props (codes "NAME") (some name) v in
      let named = (udev_list_insert R true fresh.props (codes "NAME") (some name)).0 in
      (
        fill_parent R (λ n. true) name (some product) pnp_id fresh,
        rw (c, attach_parent) refl,
        (find-udev_list_insert R named (codes "PRODUCT") (some product) (codes "PRODUCT") v1).0,
        (find-udev_list_insert R named (codes "PRODUCT") (some product) (codes "NAME") v1).0
            ∙ (find-udev_list_insert R fresh.props (codes "NAME") (some name) (codes "NAME") v).0,
      )

  attach_parent-overrun :
      (memory : ℕ → Bool) (created : Text → Option (ParentLists R)) (sysname name : Text)
      (product pnp_id : Option Text) (ud : Node R)
      → (attach_parent R memory created sysname name product pnp_id ud).overrun ≡ ud.overrun
  unfolding attach_parent
  attach_parent-overrun memory created sysname name product pnp_id ud =
      elim (Option-cases (create_xorg_parent R memory (created sysname) name product pnp_id)) [
        | inl failed ↦ rw (failed, attach_parent) refl
        | inr (lists, made) ↦ rw (made, attach_parent) refl
      ]

  module _ (created : Text → Option (ParentLists R)) (sysctl : Text → ℕ → Option Text) where
    -- For a device with a unit number and a stem that fits `devname`, whose description, pnpinfo and
    -- parent the kernel gives under the names "dev.<stem>.<unit>.…" with stem and unit cut as the
    -- formats say, and whose pnpinfo holds a vendor and a product as hexadecimal numbers, set_parent
    -- makes a parent that is named by the description up to a comma and whose PRODUCT is bus 3, the
    -- vendor, the product and 0, in hexadecimal, memory being at hand. It writes past no buffer.
    pub set_parent_usb :
        (fresh : ParentLists R) (ud : Node R)
        (sysname desc pnpinfo parentname vendorstr prodstr : Text)
        (vendor prod vendorlen prodlen : ℕ)
        → let len = syspathlen_wo_units sysname in
          let mib = λ (limit : ℕ) (leaf : Text).
            codes "dev."
            ++ (take limit (take len sysname)
                ++ (b'.' ∷ (take 3 (drop len sysname) ++ b'.' ∷ leaf))) in
          created sysname ≡ some fresh
          → IsValid R fresh.props
          → (length sysname == len) ≡ false
          → leb 80 len ≡ false
          → sysctl (mib 17 (codes "%desc")) 80 ≡ some desc
          → sysctl (mib 14 (codes "%pnpinfo")) 1024 ≡ some pnpinfo
          → sysctl (mib 15 (codes "%parent")) 80 ≡ some parentname
          → get_kern_prop_value pnpinfo (codes "vendor") ≡ some (vendorstr, vendorlen)
          → get_kern_prop_value pnpinfo (codes "product") ≡ some (prodstr, prodlen)
          → IsNumber vendorstr vendor
          → IsNumber prodstr prod
          → let out = set_parent R (λ n. true) created true sysctl sysname ud in
            (out.overrun ≡ ud.overrun)
            × ((lists : ParentLists R) × (out.parent ≡ some (sysname, lists))
                × (R.find lists.props (codes "PRODUCT")
                    ≡ some (record {
                      name = codes "PRODUCT";
                      value =
                          some (
                            codes "3/"
                            ++ print_hex 1 vendor (b'/' ∷ print_hex 1 prod (codes "/0")));
                    }))
                × (R.find lists.props (codes "NAME")
                    ≡ some (record { name = codes "NAME"; value = some (before b',' desc) })))
    unfolding set_parent asked_parent known_parent identify print_product
    set_parent_usb fresh ud sysname desc pnpinfo parentname vendorstr prodstr vendor prod vendorlen
          prodlen c v unit room d i p ev ep nv np =
        let len = syspathlen_wo_units sysname in
        let asked = λ (limit size : ℕ) (leaf : Text) (h : limit + length leaf ≤ 22).
          ap (λ m. sysctl m size)
            (print_mib_whole limit (take len sysname) (drop len sysname) leaf h) in
        rw (unit, room)
          (rw (asked 17 80 (codes "%desc") (omega arith) ∙ d, asked_parent)
            (rw (asked 14 1024 (codes "%pnpinfo") (omega arith) ∙ i, asked_parent)
              (rw (asked 15 80 (codes "%parent") (omega arith) ∙ p, asked_parent)
                (rw (ev, known_parent)
                  (rw (ep, known_parent)
                    (rw (strtol-IsNumber vendorstr vendor nv, known_parent, identify)
                      (rw (strtol-IsNumber prodstr prod np, known_parent, identify)
                        (
                          attach_parent-overrun (λ n. true) created sysname (before b',' desc) _ _
                              ud,
                          attach_parent-props created fresh sysname (before b',' desc) _ _ ud c v,
                        ))))))))
