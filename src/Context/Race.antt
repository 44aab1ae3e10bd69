-- ===== src/Context/Race.antt =====
-- The count of a context when two threads change it: a client, and the thread of a monitor, whose
-- udev_device_new_common takes a reference. `++refcount` and `--refcount` are a load and a store, and
-- nothing keeps the other thread from coming between them.
use libudev_devd.Common.{ℕ, zero, suc, ◌≤◌, ◌≡◌, refl, ◌+◌, subst, ◌⊎◌, inl, arith}

-- Where a thread stands: outside, or with the value that it has loaded.
pub data Access : Type 0 where
  outside : Access
  taking : (loaded : ℕ) → Access  -- in _udev_ref
  giving : (loaded : ℕ) → Access  -- in _udev_unref

-- `references` is a history: the references that have been taken and not given up. The context is
-- freed by the store of a 0.
pub record Count : Type 0 where
  pub refcount : ℕ
  pub references : ℕ
  pub client : Access
  pub thread : Access

-- A load from a context that is freed is undefined, and no step.
pub data Tick (c : Count) : Count → Type 0 where
  client_loads_take :
      c.client ≡ outside → 1 ≤ c.refcount → Tick c (record c { client = taking c.refcount })
  client_stores_take :
      (n : ℕ)
      → c.client ≡ taking n
      → Tick c (record c { refcount = suc n; references = suc c.references; client = outside })
  client_loads_give :
      c.client ≡ outside
      → 1 ≤ c.refcount
      → 1 ≤ c.references
      → Tick c (record c { client = giving c.refcount })
  client_stores_give :
      (n held : ℕ)
      → c.client ≡ giving (suc n)
      → c.references ≡ suc held
      → Tick c (record c { refcount = n; references = held; client = outside })
  thread_loads_take :
      c.thread ≡ outside → 1 ≤ c.refcount → Tick c (record c { thread = taking c.refcount })
  thread_stores_take :
      (n : ℕ)
      → c.thread ≡ taking n
      → Tick c (record c { refcount = suc n; references = suc c.references; thread = outside })

pub data Ticks (c : Count) : Count → Type 0 where
  none_yet : Ticks c c
  and_tick : {d e : Count} → Ticks c d → Tick d e → Ticks c e

-- Both threads are outside.
abbrev pub still : ℕ → ℕ → Count
still refcount references = record {
  refcount = refcount;
  references = references;
  client = outside;
  thread = outside;
}

Ticks-append : {c d e : Count} → Ticks c d → Ticks d e → Ticks c e
Ticks-append first none_yet = first
Ticks-append first (and_tick more t) = and_tick (Ticks-append first more) t

-- Both load the same value, and both store it with one added.
lost_update : (n m : ℕ) → Ticks (still (suc n) m) (still (suc (suc n)) (suc (suc m)))
lost_update n m =
    and_tick
      (and_tick
        (and_tick (and_tick none_yet (client_loads_take refl (omega arith)))
          (thread_loads_take refl (omega arith)))
        (client_stores_take (suc n) refl))
      (thread_stores_take (suc n) refl)

given : (n m : ℕ) → Ticks (still (suc n) (suc m)) (still n m)
given n m =
    and_tick (and_tick none_yet (client_loads_give refl (omega arith) (omega arith)))
      (client_stores_give n m refl refl)

given_all : (n m held : ℕ) → held ≡ n + m → Ticks (still n held) (still 0 m)
given_all zero m held e = subst (λ k. Ticks (still 0 k) (still 0 m)) (omega arith) none_yet
given_all (suc n) m zero e = absurd (omega arith)
given_all (suc n) m (suc held) e = Ticks-append (given n held) (given_all n m held (omega arith))

-- However many references there are, and although the count is right: there is an interleaving in
-- which a client and the thread of a monitor both take one and the client then gives up all but one,
-- at the end of which the context is freed while that reference is still held.
pub race-frees_held :
    (n : ℕ) → (c : Count) × Ticks (still (suc n) (suc n)) c × (c.refcount ≡ 0) × (c.references ≡ 1)
race-frees_held n = (
  still 0 1,
  Ticks-append (lost_update n (suc n))
      (given_all (suc (suc n)) 1 (suc (suc (suc n))) (omega arith)),
  refl,
  refl,
)

-- The other thread is outside while one is inside.
abbrev pub IsSerial : Count → Type 0
IsSerial c = (c.client ≡ outside) ⊎ (c.thread ≡ outside)

-- Ticks that never find both threads inside.
pub data SerialTicks (c : Count) : Count → Type 0 where
  none_yet : SerialTicks c c
  and_tick : {d e : Count} → SerialTicks c d → Tick d e → IsSerial e → SerialTicks c e

-- The count is right, and so is a value that a thread has loaded.
abbrev Loaded : Access → ℕ → Type 0
Loaded outside refcount = Unit
Loaded (taking loaded) refcount = loaded ≡ refcount
Loaded (giving loaded) refcount = loaded ≡ refcount

record IsRight (c : Count) : Type 0 where
  exact : c.refcount ≡ c.references
  by_client : Loaded c.client c.refcount
  by_thread : Loaded c.thread c.refcount

Tick-IsRight : {c d : Count} → Tick c d → IsSerial c → IsRight c → IsRight d
Tick-IsRight (client_loads_take e h) serial r = ground arith
Tick-IsRight (client_stores_take n e) serial r = ground arith
Tick-IsRight (client_loads_give e h k) serial r = ground arith
Tick-IsRight (client_stores_give n held e k) serial r = ground arith
Tick-IsRight (thread_loads_take e h) serial r = ground arith
Tick-IsRight (thread_stores_take n e) serial r = ground arith

SerialTicks-IsRight : (n : ℕ) {c : Count} → SerialTicks (still n n) c → IsSerial c × IsRight c
SerialTicks-IsRight n none_yet = (inl refl, record { exact = refl; by_client = tt; by_thread = tt })
SerialTicks-IsRight n (and_tick ticks t serial) =
    let (before, r) = SerialTicks-IsRight n ticks in (serial, Tick-IsRight t before r)

-- It takes both threads inside to get there: as long as one of them is outside, the count of a
-- context with n references is the number of those held.
pub serial-exact : (n : ℕ) {c : Count} → SerialTicks (still n n) c → c.refcount ≡ c.references
serial-exact n ticks = (SerialTicks-IsRight n ticks).1.exact
