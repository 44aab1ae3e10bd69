-- ===== src/Monitor/Queue.antt =====
-- udev_monitor_send_device, run by the monitor's thread, and udev_monitor_receive_device, run by its
-- client: interleavings of their accesses to the queue and the pipe. An access to the queue under
-- the mutex is one step, and so are the test STAILQ_EMPTY, a write and a read.
use libudev_devd.Common.{ℕ, suc, ◌≡◌, ◌≢◌, true, List, [], ◌∷◌, ◌++◌, ◌==◌, if◌then◌else◌, lacks}

-- A queue entry with its device, named by the address of the entry.
abbrev pub QueueEntry : Type 0
QueueEntry = ℕ

-- Where the thread stands in udev_monitor_send_device.
pub data Sender : Type 0 where
  resting : Sender  -- outside, or before the entry is in the queue
  queued : QueueEntry → Sender  -- before the write

-- Where the client stands in udev_monitor_receive_device.
pub data Receiver : Type 0 where
  resting : Receiver  -- outside, or before the read
  woken : Receiver  -- before STAILQ_EMPTY
  claiming : Receiver  -- before STAILQ_FIRST and STAILQ_REMOVE_HEAD

-- The last two fields are a history: the entries whose write succeeded, and those that the client
-- was given, each in order.
pub record Channel : Type 0 where
  pub queue : List QueueEntry
  pub pipe : ℕ  -- bytes in the pipe
  pub sender : Sender
  pub receiver : Receiver
  pub sent : List QueueEntry
  pub received : List QueueEntry

-- STAILQ_REMOVE: the first entry that is the one given.
unfoldable pub remove_entry : QueueEntry → List QueueEntry → List QueueEntry
remove_entry u [] = []
remove_entry u (x ∷ q) = if x == u then q else x ∷ remove_entry u q

pub data Step (c : Channel) : Channel → Type 0 where
  -- The entry is fresh from calloc, so it is none of those in the queue.
  insert :
      (u : QueueEntry)
      → c.sender ≡ Sender.resting
      → lacks u c.queue ≡ true
      → Step c (record c { queue = c.queue ++ u ∷ []; sender = queued u })
  write :
      (u : QueueEntry)
      → c.sender ≡ queued u
      → Step c (record c { pipe = suc c.pipe; sender = Sender.resting; sent = c.sent ++ u ∷ [] })
  write_fails :
      (u : QueueEntry)
      → c.sender ≡ queued u
      → Step c (record c { queue = remove_entry u c.queue; sender = Sender.resting })
  read :
      (n : ℕ)
      → c.receiver ≡ Receiver.resting
      → c.pipe ≡ suc n
      → Step c (record c { pipe = n; receiver = woken })
  find_empty : c.receiver ≡ woken → c.queue ≡ [] → Step c (record c { receiver = Receiver.resting })
  find_entry : c.receiver ≡ woken → c.queue ≢ [] → Step c (record c { receiver = claiming })
  take :
      (u : QueueEntry) (q : List QueueEntry)
      → c.receiver ≡ claiming
      → c.queue ≡ u ∷ q
      → Step c
          (record c { queue = q; receiver = Receiver.resting; received = c.received ++ u ∷ [] })

-- The state that udev_monitor_new_from_netlink sets up.
abbrev pub new_channel : Channel
new_channel = record {
  queue = [];
  pipe = 0;
  sender = Sender.resting;
  receiver = Receiver.resting;
  sent = [];
  received = [];
}

pub data Reach : Channel → Type 0 where
  start : Reach new_channel
  later : {c d : Channel} → Reach c → Step c d → Reach d
