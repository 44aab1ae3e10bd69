-- ===== src/Context/Balance.antt =====
-- How many references of a context its objects hold, and what each operation does to them.
use libudev_devd.Common.{
  ℕ, zero, suc, ◌+◌, ◌≤◌, ◌≡◌, refl, ap, Bool, true, false, ◌||◌, not, Option, some, List, [], ◌∷◌,
  ◌++◌, Text, length, get_or, all, ◌==◌, arith, length-append,
}
use libudev_devd.Device.Parents.{Linked, udev_device_free}
use libudev_devd.Context.{Udev, udev_ref, udev_unref, release}
use libudev_devd.Context.Objects.{
  Object, queue, hwdb, enumerator, monitor, device, gone, Handle, freed, set_at, new_chain,
  free_chain, passed_over, udev_monitor_queue_drop, free_object,
}

-- The devices in the queue of a monitor.
unfoldable pub queued_uses : List (List Linked) → ℕ
queued_uses [] = 0
queued_uses (ud ∷ queued) = length ud + queued_uses queued

-- The references that stand for an object; a parent that was passed over has never given up its own.
unfoldable pub uses : Object → ℕ
unfolding queued_uses
uses (queue fd) = 1
uses hwdb = 0
uses enumerator = 1
uses (monitor queued) = suc (queued_uses queued)
uses (device chain) = length chain
uses (gone passed) = length passed

unfoldable pub all_uses : List Handle → ℕ
unfolding uses
all_uses [] = 0
all_uses (h ∷ objects) = uses h.object + all_uses objects

unfoldable pub is_gone : Object → Bool
is_gone (gone passed) = true
is_gone (queue fd) = false
is_gone hwdb = false
is_gone enumerator = false
is_gone (monitor queued) = false
is_gone (device chain) = false

-- An object with references has not been freed.
unfoldable pub is_sound : Handle → Bool
unfolding is_gone
is_sound h = h.refcount == 0 || not (is_gone h.object)

pub all_uses-append : (os ps : List Handle) → all_uses (os ++ ps) ≡ all_uses os + all_uses ps
unfolding all_uses
all_uses-append [] ps = omega arith
all_uses-append (o ∷ os) ps = omega (arith, all_uses-append os ps)

pub all-append_one :
    (os : List Handle) (h : Handle)
    → all is_sound os ≡ true
    → is_sound h ≡ true
    → all is_sound (os ++ h ∷ []) ≡ true
all-append_one [] h v w = ground arith
all-append_one (o ∷ os) h v w = ground (arith, all-append_one os h)

-- The place of an object that is not freed.
pub all_uses-set_at :
    (i : ℕ) (h : Handle) (os : List Handle)
    → 1 ≤ (get_or os i freed).refcount
    → all_uses (set_at i h os) + uses (get_or os i freed).object ≡ all_uses os + uses h.object
unfolding all_uses set_at
all_uses-set_at i h [] k = absurd (omega arith)
all_uses-set_at zero h (o ∷ os) k = omega arith
all_uses-set_at (suc i) h (o ∷ os) k = omega (arith, all_uses-set_at i h os k)

pub all-set_at :
    (i : ℕ) (h : Handle) (os : List Handle)
    → all is_sound os ≡ true
    → is_sound h ≡ true
    → all is_sound (set_at i h os) ≡ true
unfolding set_at
all-set_at i h [] v w = v
all-set_at zero h (o ∷ os) v w = ground arith
all-set_at (suc i) h (o ∷ os) v w = ground (arith, all-set_at i h os)

pub all-get_or :
    (i : ℕ) (os : List Handle) → all is_sound os ≡ true → is_sound (get_or os i freed) ≡ true
unfolding is_sound is_gone
all-get_or i [] v = refl
all-get_or zero (o ∷ os) v = ground arith
all-get_or (suc i) (o ∷ os) v = all-get_or i os (ground arith)

-- What udev_device_free frees and what it passes over make the chain.
pub split_chain :
    (chain : List Linked)
    → length (udev_device_free chain) + length (passed_over chain) ≡ length chain
unfolding udev_device_free passed_over
split_chain [] = refl
split_chain (ud ∷ parents) = ground (arith, split_chain parents)

-- The call gives a context whose count is lower by what is given up.
abbrev pub Gives : ℕ → Udev → Option Udev → Type 0
Gives n udev result = (udev' : Udev) × (result ≡ some udev') × (udev'.refcount + n ≡ udev.refcount)

unref_at : (udev : Udev) (r : ℕ) → udev.refcount ≡ r → 1 ≤ r → Gives 1 udev (udev_unref udev)
unfolding udev_unref
unref_at udev zero e h = absurd (omega arith)
unref_at udev (suc n) e h = (record udev { refcount = n }, rw e refl, omega arith)

pub udev_unref-Gives : (udev : Udev) → 1 ≤ udev.refcount → Gives 1 udev (udev_unref udev)
udev_unref-Gives udev h = unref_at udev udev.refcount refl h

ref_at :
    (udev : Udev) (r : ℕ)
    → udev.refcount ≡ r
    → 1 ≤ r
    → (udev' : Udev) × (udev_ref udev ≡ some udev') × (udev'.refcount ≡ suc udev.refcount)
unfolding udev_ref
ref_at udev zero e h = absurd (omega arith)
ref_at udev (suc n) e h = (record udev { refcount = suc (suc n) }, rw e refl, omega arith)

pub udev_ref-adds :
    (udev : Udev)
    → 1 ≤ udev.refcount
    → (udev' : Udev) × (udev_ref udev ≡ some udev') × (udev'.refcount ≡ suc udev.refcount)
udev_ref-adds udev h = ref_at udev udev.refcount refl h

pub release-Gives : (n : ℕ) (udev : Udev) → n ≤ udev.refcount → Gives n udev (release n udev)
unfolding release
release-Gives zero udev h = (udev, refl, omega arith)
release-Gives (suc n) udev h =
    let (udev1, e1, k1) = udev_unref-Gives udev (omega arith) in
    let (udev2, e2, k2) = release-Gives n udev1 (omega arith) in
    (udev2, rw (e1, release) e2, omega arith)

pub free_chain-Gives :
    (chain : List Linked) (udev : Udev)
    → length chain ≤ udev.refcount
    → Gives (length (udev_device_free chain)) udev (free_chain chain udev)
unfolding free_chain
free_chain-Gives chain udev h = release-Gives _ udev (omega (arith, split_chain chain))

-- The call gives up what the uses were, but for what is passed over.
abbrev pub Frees : ℕ → Udev → Option (Udev × List Linked) → Type 0
Frees n udev result =
    (udev' : Udev) × (passed : List Linked) × (result ≡ some (udev', passed))
    × (udev'.refcount + n ≡ udev.refcount + length passed)

queue_drop-Frees :
    (queued : List (List Linked)) (udev : Udev)
    → queued_uses queued ≤ udev.refcount
    → Frees (queued_uses queued) udev (udev_monitor_queue_drop queued udev)
unfolding udev_monitor_queue_drop queued_uses
queue_drop-Frees [] udev h = (udev, [], refl, omega arith)
queue_drop-Frees (ud ∷ queued) udev h =
    let (udev1, e1, k1) = free_chain-Gives ud udev (omega arith) in
    let split = split_chain ud in
    let (udev2, passed, e2, k2) = queue_drop-Frees queued udev1 (omega arith) in
    (
      udev2,
      passed_over ud ++ passed,
      rw (e1, udev_monitor_queue_drop) (rw (e2, udev_monitor_queue_drop) refl),
      omega (arith, length-append (passed_over ud) passed),
    )

pub free_object-Frees :
    (o : Object) (udev : Udev)
    → is_gone o ≡ false
    → uses o ≤ udev.refcount
    → Frees (uses o) udev (free_object o udev)
unfolding free_object uses is_gone
free_object-Frees (queue fd) udev g h =
    let (udev', e, k) = udev_unref-Gives udev h in
    (udev', [], rw (e, free_object) refl, omega arith)
free_object-Frees hwdb udev g h = (udev, [], refl, omega arith)
free_object-Frees enumerator udev g h =
    let (udev', e, k) = udev_unref-Gives udev h in
    (udev', [], rw (e, free_object) refl, omega arith)
free_object-Frees (monitor queued) udev g h =
    let (udev1, passed, e1, k1) = queue_drop-Frees queued udev (omega arith) in
    let (udev2, e2, k2) = udev_unref-Gives udev1 (omega arith) in
    (udev2, passed, rw (e1, free_object) (rw (e2, free_object) refl), omega arith)
free_object-Frees (device chain) udev g h =
    let (udev', e, k) = free_chain-Gives chain udev h in
    (udev', passed_over chain, rw (e, free_object) refl, omega (arith, split_chain chain))
free_object-Frees (gone passed) udev g h = absurd (ground arith)

-- A new chain takes a reference for each of its devices.
pub new_chain-takes :
    (syspath : Text) (parents : List Text) (udev : Udev)
    → 1 ≤ udev.refcount
    → (udev' : Udev) × (chain : List Linked) × (new_chain syspath parents udev
        ≡ some (udev', chain))
      × (udev'.refcount ≡ udev.refcount + length chain)
      × (length (udev_device_free chain) ≡ length chain)
unfolding new_chain udev_device_free
new_chain-takes syspath [] udev h =
    let (udev', e, k) = udev_ref-adds udev h in
    (
      udev',
      record { syspath = syspath; parent_ref = false } ∷ [],
      rw (e, new_chain) refl,
      omega arith,
      refl,
    )
new_chain-takes syspath (parent ∷ parents) udev h =
    let (udev1, e1, k1) = udev_ref-adds udev h in
    let (udev2, chain, e2, k2, whole) = new_chain-takes parent parents udev1 (omega arith) in
    (
      udev2,
      record { syspath = syspath; parent_ref = false } ∷ chain,
      rw (e1, new_chain) (rw (e2, new_chain) refl),
      omega arith,
      ap suc whole,
    )
