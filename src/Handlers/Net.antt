-- ===== src/Handlers/Net.antt =====
-- create_net_handler of udev-net.c: the entries of a network interface.
use libudev_devd.Common.{
  ℕ, ◌≡◌, refl, ap, ◌∙◌, Bool, true, ◌&&◌, not, Option, none, some, List, [], ◌∷◌, ◌++◌, Text,
  String, text_eq, ◌==◌, if◌then◌else◌, take, get_or, all, codes, arith, Bool-cases, inl, inr,
}
use libudev_devd.Str.Paths.{get_sysname_by_syspath}
use libudev_devd.UdevList.{ListEntry, RbTree}
use libudev_devd.UdevList.Laws.{IsValid}
use libudev_devd.Devd.Dbsf.{print_hex, print_hex-append}
use libudev_devd.Input.Properties.{ParentLists}
use libudev_devd.Handlers.Entries.{
  Memory, plenty, insert_all-IsValid, insert_all, find-insert_all, last_value, Value, printed,
  given,
}
use libudev_devd.Handlers.Decimal.{print_unsigned}

-- An address of getifaddrs, with what a `struct sockaddr_dl` holds.
pub record LinkAddress : Type 0 where
  pub ifa_name : Text
  pub is_link : Bool
  pub sdl_index : ℕ
  pub sdl_alen : ℕ
  pub lladdr : List ℕ

-- Where the interface's number comes from: getifaddrs, `none` where it fails, or if_nametoindex.
pub data NetInfo : Type 0 where
  ifaddrs : Option (List LinkAddress) → NetInfo
  nametoindex : (Text → ℕ) → NetInfo

abbrev ether_addr_len : ℕ
ether_addr_len = 6

abbrev pub index_entry : String → ℕ → List (String × Value)
index_entry name index = if index == 0 then [] else (name, printed (print_unsigned index [])) ∷ []

-- "%02x:%02x:%02x:%02x:%02x:%02x"
unfoldable pub print_lladdr : List ℕ → Text
unfolding print_hex
print_lladdr a = print_hex 2 (get_or a 0 0) (
    b':'
    ∷ print_hex 2 (get_or a 1 0) (
        b':'
        ∷ print_hex 2 (get_or a 2 0) (
            b':'
            ∷ print_hex 2 (get_or a 3 0)
                (b':' ∷ print_hex 2 (get_or a 4 0) (b':' ∷ print_hex 2 (get_or a 5 0) [])))))

abbrev pub address_entry : LinkAddress → List (String × Value)
address_entry ifa =
    if ifa.sdl_alen == ether_addr_len
    then ("address", printed (print_lladdr ifa.lladdr)) ∷ []
    else []

abbrev pub net_sysattrs : LinkAddress → List (String × Value)
net_sysattrs ifa =
    index_entry "ifindex" ifa.sdl_index
    ++ ("addr_len", printed (print_unsigned ifa.sdl_alen [])) ∷ address_entry ifa

abbrev pub found : Text → Text → Option ListEntry
found name value = some (record { name = name; value = some value })

-- "%02x" of the n-th byte
abbrev pub byte : List ℕ → ℕ → Text
byte a n = print_hex 2 (get_or a n 0) []

-- "%02x" of six bytes, with colons between them
abbrev pub six_bytes : List ℕ → Text
six_bytes a =
    byte a 0
    ++ (b':'
        ∷ (byte a 1
            ++ (b':'
                ∷ (byte a 2 ++ (b':' ∷ (byte a 3 ++ (b':' ∷ (byte a 4 ++ (b':' ∷ byte a 5)))))))))

print_lladdr-bytes : (a : List ℕ) → print_lladdr a ≡ six_bytes a
unfolding print_lladdr
print_lladdr-bytes a =
    let from = λ (n : ℕ) (t : Text). print_hex-append 2 (get_or a n 0) t in
    from 0 _
    ∙ ap (λ t. byte a 0 ++ (b':' ∷ t))
        (from 1 _
          ∙ ap (λ t. byte a 1 ++ (b':' ∷ t))
              (from 2 _
                ∙ ap (λ t. byte a 2 ++ (b':' ∷ t))
                    (from 3 _ ∙ ap (λ t. byte a 3 ++ (b':' ∷ t)) (from 4 _))))

-- What the attributes and the index of an address are found to be.
last_sysattrs :
    (ifa : LinkAddress) (old : Text → Option ListEntry)
    → let last = λ (n : Text). last_value n (net_sysattrs ifa) (old n) in
      (last (codes "address") ≡ (
        if ifa.sdl_alen == 6
        then found (codes "address") (print_lladdr ifa.lladdr)
        else old (codes "address")))
      × (last (codes "addr_len") ≡ found (codes "addr_len") (print_unsigned ifa.sdl_alen []))
      × (last (codes "ifindex") ≡ (
          if ifa.sdl_index == 0
          then old (codes "ifindex")
          else found (codes "ifindex") (print_unsigned ifa.sdl_index [])))
unfolding text_eq
last_sysattrs ifa old = elim (Bool-cases (ifa.sdl_alen == 6)) [
  | inl six ↦ elim (Bool-cases (ifa.sdl_index == 0)) [
    | inl zero_index ↦ rw (six, zero_index) (refl, refl, refl)
    | inr index ↦ rw (six, index) (refl, refl, refl)
  ]
  | inr other ↦ elim (Bool-cases (ifa.sdl_index == 0)) [
    | inl zero_index ↦ rw (other, zero_index) (refl, refl, refl)
    | inr index ↦ rw (other, index) (refl, refl, refl)
  ]
]

last_props :
    (ifname : Text) (index : ℕ) (old : Text → Option ListEntry)
    → let last = λ (n : Text).
      last_value n
        (index_entry "IFINDEX" index)
        (last_value n (("INTERFACE", given ifname) ∷ []) (old n)) in
      (last (codes "IFINDEX") ≡ (
        if index == 0
        then old (codes "IFINDEX")
        else found (codes "IFINDEX") (print_unsigned index [])))
      × (last (codes "INTERFACE") ≡ found (codes "INTERFACE") ifname)
unfolding text_eq
last_props ifname index old = elim (Bool-cases (index == 0)) [
  | inl none_given ↦ rw none_given (refl, refl)
  | inr some_given ↦ rw some_given (refl, refl)
]

module _ (R : RbTree) (ifnamsiz : ℕ) where
  -- `ifa_addr` is of AF_LINK, and the first IFNAMSIZ bytes of the names agree.
  unfoldable pub is_wanted : Text → LinkAddress → Bool
  is_wanted ifname ifa = ifa.is_link && text_eq (take ifnamsiz ifname) (take ifnamsiz ifa.ifa_name)

  -- The first call of the library is that for INTERFACE, the second that for IFINDEX.
  unfoldable pub fill_net : Memory → ℕ → List (String × Value) → ParentLists R → ParentLists R
  unfolding insert_all
  fill_net m index sysattrs ud = record {
    props = insert_all R m 1 ud.props (index_entry "IFINDEX" index);
    sysattrs = insert_all R m 2 ud.sysattrs sysattrs;
  }

  unfoldable pub search_link : Memory → Text → List LinkAddress → ParentLists R → ParentLists R
  unfolding is_wanted fill_net
  search_link m ifname [] ud = ud
  search_link m ifname (ifa ∷ rest) ud =
      let further = search_link m ifname rest ud in
      if is_wanted ifname ifa then fill_net m ifa.sdl_index (net_sysattrs ifa) ud else further

  unfoldable pub by_info : Memory → Text → NetInfo → ParentLists R → ParentLists R
  unfolding search_link fill_net
  by_info m ifname (ifaddrs none) ud = ud
  by_info m ifname (ifaddrs (some ifap)) ud = search_link m ifname ifap ud
  by_info m ifname (nametoindex index) ud =
      fill_net m (index ifname) (index_entry "ifindex" (index ifname)) ud

  unfoldable pub create_net_handler : Memory → NetInfo → Text → ParentLists R → ParentLists R
  unfolding by_info
  create_net_handler m info syspath ud = elim (get_sysname_by_syspath syspath) [
    | none ↦ ud
    | some ifname ↦
        by_info m ifname info
          (record ud { props = insert_all R m 0 ud.props (("INTERFACE", given ifname) ∷ []) })
  ]

  search_link-first :
      (m : Memory) (ifname : Text) (front : List LinkAddress) (ifa : LinkAddress)
      (rest : List LinkAddress) (ud : ParentLists R)
      → all (λ a. not (is_wanted ifname a)) front ≡ true
      → is_wanted ifname ifa ≡ true
      → search_link m ifname (front ++ ifa ∷ rest) ud
        ≡ fill_net m ifa.sdl_index (net_sysattrs ifa) ud
  unfolding search_link
  search_link-first m ifname [] ifa rest ud h k = rw k refl
  search_link-first m ifname (a ∷ front) ifa rest ud h k = elim (Bool-cases (is_wanted ifname a)) [
    | inl hit ↦ ground arith
    | inr miss ↦ rw miss (search_link-first m ifname front ifa rest ud (ground arith) k)
  ]

  create_net_handler-first :
      (m : Memory) (syspath ifname : Text) (front : List LinkAddress) (ifa : LinkAddress)
      (rest : List LinkAddress) (ud : ParentLists R)
      → get_sysname_by_syspath syspath ≡ some ifname
      → all (λ a. not (is_wanted ifname a)) front ≡ true
      → is_wanted ifname ifa ≡ true
      → create_net_handler m (ifaddrs (some (front ++ ifa ∷ rest))) syspath ud
        ≡ fill_net m ifa.sdl_index
            (net_sysattrs ifa)
            (record ud { props = insert_all R m 0 ud.props (("INTERFACE", given ifname) ∷ []) })
  unfolding create_net_handler by_info
  create_net_handler-first m syspath ifname front ifa rest ud s h k =
      rw (s, create_net_handler) (search_link-first m ifname front ifa rest _ h k)

  -- With memory at hand, create_net_handler takes the first address that is of the link layer and has
  -- the name of the interface in its first IFNAMSIZ bytes, whatever stands before and behind it: the
  -- attribute `address` is set to its six bytes where its length is six and else kept, `addr_len` is
  -- its length, `ifindex` and the property IFINDEX are its index and are kept where that is 0, and
  -- INTERFACE is the name.
  pub create_net_handler_lem :
      (syspath ifname : Text) (front : List LinkAddress) (ifa : LinkAddress)
      (rest : List LinkAddress) (ud : ParentLists R)
      → get_sysname_by_syspath syspath ≡ some ifname
      → all
          (λ a. not (a.is_link && text_eq (take ifnamsiz ifname) (take ifnamsiz a.ifa_name)))
          front
        ≡ true
      → ifa.is_link ≡ true
      → text_eq (take ifnamsiz ifname) (take ifnamsiz ifa.ifa_name) ≡ true
      → IsValid R ud.props
      → IsValid R ud.sysattrs
      → let new = create_net_handler plenty (ifaddrs (some (front ++ ifa ∷ rest))) syspath ud in
        (R.find new.sysattrs (codes "address") ≡ (
          if ifa.sdl_alen == 6
          then found (codes "address") (six_bytes ifa.lladdr)
          else R.find ud.sysattrs (codes "address")))
        × (R.find new.sysattrs (codes "addr_len")
            ≡ found (codes "addr_len") (print_unsigned ifa.sdl_alen []))
        × (R.find new.sysattrs (codes "ifindex") ≡ (
            if ifa.sdl_index == 0
            then R.find ud.sysattrs (codes "ifindex")
            else found (codes "ifindex") (print_unsigned ifa.sdl_index [])))
        × (R.find new.props (codes "IFINDEX") ≡ (
            if ifa.sdl_index == 0
            then R.find ud.props (codes "IFINDEX")
            else found (codes "IFINDEX") (print_unsigned ifa.sdl_index [])))
        × (R.find new.props (codes "INTERFACE") ≡ found (codes "INTERFACE") ifname)
  unfolding fill_net is_wanted
  create_net_handler_lem syspath ifname front ifa rest ud s h k t vp va =
      let named : List (String × Value) = ("INTERFACE", given ifname) ∷ [] in
      let attr = λ (n : Text). find-insert_all R 2 ud.sysattrs (net_sysattrs ifa) n va in
      let prop = λ (n : Text).
        find-insert_all R 1 _ (index_entry "IFINDEX" ifa.sdl_index) n
          (insert_all-IsValid R plenty 0 ud.props named vp)
        ∙ ap (last_value n (index_entry "IFINDEX" ifa.sdl_index))
            (find-insert_all R 0 ud.props named n vp) in
      let attrs = last_sysattrs ifa (R.find ud.sysattrs) in
      let props = last_props ifname ifa.sdl_index (R.find ud.props) in
      rw (create_net_handler-first plenty syspath ifname front ifa rest ud s h (rw k t)) (
        rw (← print_lladdr-bytes ifa.lladdr) (attr (codes "address") ∙ attrs.0),
        attr (codes "addr_len") ∙ attrs.1,
        attr (codes "ifindex") ∙ attrs.2,
        prop (codes "IFINDEX") ∙ props.0,
        prop (codes "INTERFACE") ∙ props.1,
      )
