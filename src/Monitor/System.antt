-- ===== src/Monitor/System.antt =====
-- udev-monitor.c as a whole: the thread that reads devd's messages and sends devices, and the client
-- that receives them, with the devices that the queue's entries hold.
use libudev_devd.Common.{
  ℕ, suc, ◌≡◌, ◌≢◌, Bool, true, false, Option, none, some, List, [], ◌∷◌, ◌++◌, Text, ◌==◌,
  if◌then◌else◌, lacks,
}
use libudev_devd.Devd.{Event}
use libudev_devd.Monitor.Queue.{
  QueueEntry, Sender, Receiver, queued, woken, claiming, Channel, remove_entry, new_channel,
}
use libudev_devd.Monitor.Thread.{
  Round, ThreadState, Turn, break, continue, thread_round, new_thread,
}
pub mod History
pub mod Laws
pub mod Served

-- A call of udev_monitor_send_device that has returned, with whether it succeeded.
abbrev pub Outcome : Type 0
Outcome = Event × Bool

-- The last three fields are a history: what poll(2) and the other calls answered in each round, the
-- calls of udev_monitor_send_device that have returned, and the devices that the client was given.
pub record System : Type 0 where
  pub channel : Channel
  pub device : QueueEntry → Event  -- `ud` of an entry: its action and its syspath
  pub thread : ThreadState
  pub ended : Bool  -- the thread has left its loop
  pub sending : Option Event  -- the arguments of udev_monitor_send_device while it runs
  pub rounds : List Round
  pub outcomes : List Outcome
  pub got : List Event

-- `umqe->ud = ud`
unfoldable pub store : (QueueEntry → Event) → QueueEntry → Event → QueueEntry → Event
store device u e v = if v == u then e else device v

-- The state with the result of a call of udev_monitor_send_device.
unfoldable pub with_outcome : System → Channel → Event → Bool → System
with_outcome s c e success = record s {
  channel = c;
  sending = none;
  outcomes = s.outcomes ++ (e, success) ∷ [];
}

module _ (have_devinfo : Bool) (ifnamsiz : ℕ) (accepts : Text → Bool) where
  pub data Move (s : System) : System → Type 0 where
    -- A round of the thread that sends nothing, that sends an event, and that leaves the loop.
    quiet :
        (r : Round) (t : ThreadState)
        → s.ended ≡ false
        → s.sending ≡ none
        → thread_round have_devinfo ifnamsiz accepts r s.thread ≡ continue t none
        → Move s (record s { thread = t; rounds = s.rounds ++ r ∷ [] })
    event :
        (r : Round) (t : ThreadState) (e : Event)
        → s.ended ≡ false
        → s.sending ≡ none
        → thread_round have_devinfo ifnamsiz accepts r s.thread ≡ continue t (some e)
        → Move s (record s { thread = t; rounds = s.rounds ++ r ∷ []; sending = some e })
    stop :
        (r : Round) (t : ThreadState)
        → s.ended ≡ false
        → s.sending ≡ none
        → thread_round have_devinfo ifnamsiz accepts r s.thread ≡ break t
        → Move s (record s { thread = t; rounds = s.rounds ++ r ∷ []; ended = true })
    -- calloc or udev_device_new_common gives NULL.
    no_device :
        (e : Event)
        → s.sending ≡ some e
        → s.channel.sender ≡ Sender.resting
        → Move s (with_outcome s s.channel e false)
    insert :
        (u : QueueEntry) (e : Event)
        → s.sending ≡ some e
        → s.channel.sender ≡ Sender.resting
        → lacks u s.channel.queue ≡ true
        → Move s (record s {
          channel = record s.channel { queue = s.channel.queue ++ u ∷ []; sender = queued u };
          device = store s.device u e;
        })
    write :
        (u : QueueEntry) (e : Event)
        → s.sending ≡ some e
        → s.channel.sender ≡ queued u
        → Move s (
            with_outcome s
              (record s.channel {
                pipe = suc s.channel.pipe;
                sender = Sender.resting;
                sent = s.channel.sent ++ u ∷ [];
              })
              e
              true)
    write_fails :
        (u : QueueEntry) (e : Event)
        → s.sending ≡ some e
        → s.channel.sender ≡ queued u
        → Move s (
            with_outcome s
              (record s.channel { queue = remove_entry u s.channel.queue; sender = Sender.resting })
              e
              false)
    read :
        (n : ℕ)
        → s.channel.receiver ≡ Receiver.resting
        → s.channel.pipe ≡ suc n
        → Move s (record s { channel = record s.channel { pipe = n; receiver = woken } })
    find_empty :
        s.channel.receiver ≡ woken
        → s.channel.queue ≡ []
        → Move s (record s { channel = record s.channel { receiver = Receiver.resting } })
    find_entry :
        s.channel.receiver ≡ woken
        → s.channel.queue ≢ []
        → Move s (record s { channel = record s.channel { receiver = claiming } })
    take :
        (u : QueueEntry) (q : List QueueEntry)
        → s.channel.receiver ≡ claiming
        → s.channel.queue ≡ u ∷ q
        → Move s (record s {
          channel = record s.channel {
            queue = q;
            receiver = Receiver.resting;
            received = s.channel.received ++ u ∷ [];
          };
          got = s.got ++ s.device u ∷ [];
        })

-- The state behind udev_monitor_new_from_netlink and udev_monitor_enable_receiving; the entries that
-- are not allocated yet hold anything.
abbrev pub new_system : (QueueEntry → Event) → System
new_system device = record {
  channel = new_channel;
  device = device;
  thread = new_thread;
  ended = false;
  sending = none;
  rounds = [];
  outcomes = [];
  got = [];
}

module _ (have_devinfo : Bool) (ifnamsiz : ℕ) (accepts : Text → Bool) where
  pub data Runs (device : QueueEntry → Event) : System → Type 0 where
    start : Runs device (new_system device)
    then_move :
        {s t : System} → Runs device s → Move have_devinfo ifnamsiz accepts s t → Runs device t
