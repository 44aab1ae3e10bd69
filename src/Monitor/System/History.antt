-- ===== src/Monitor/System/History.antt =====
-- The histories of a monitor and of its client, and runs of the thread with more rounds behind them.
use libudev_devd.Common.{
  ℕ, suc, ◌≡◌, refl, ap, Bool, true, false, Option, none, some, List, [], ◌∷◌, ◌++◌, map, Text,
  ==_self, lacks, length, arith,
}
use libudev_devd.Devd.{Event}
use libudev_devd.Monitor.Queue.{QueueEntry, Sender, queued}
use libudev_devd.Monitor.Thread.{
  Round, ThreadState, Turn, break, continue, thread_round, Run, after_round, udev_monitor_thread,
}
use libudev_devd.Monitor.System.{Outcome, store}

-- The events whose sending succeeded, in their order.
abbrev pub succeeded : List Outcome → List Event
succeeded [] = []
succeeded ((e, true) ∷ outcomes) = e ∷ succeeded outcomes
succeeded ((e, false) ∷ outcomes) = succeeded outcomes

abbrev pub attempted : List Outcome → List Event
attempted [] = []
attempted ((e, success) ∷ outcomes) = e ∷ attempted outcomes

-- The event that is being sent.
abbrev pub current : Option Event → List Event
current none = []
current (some e) = e ∷ []

pub succeeded-append : (xs ys : List Outcome) → succeeded (xs ++ ys) ≡ succeeded xs ++ succeeded ys
succeeded-append [] ys = refl
succeeded-append ((e, true) ∷ xs) ys = ap (λ t. e ∷ t) (succeeded-append xs ys)
succeeded-append ((e, false) ∷ xs) ys = succeeded-append xs ys

pub attempted-append : (xs ys : List Outcome) → attempted (xs ++ ys) ≡ attempted xs ++ attempted ys
attempted-append [] ys = refl
attempted-append ((e, success) ∷ xs) ys = ap (λ t. e ∷ t) (attempted-append xs ys)

-- An entry that is not in a list can be filled without a change to the devices of the list.
pub map-store :
    (device : QueueEntry → Event) (u : QueueEntry) (e : Event) (q : List QueueEntry)
    → lacks u q ≡ true
    → map (store device u e) q ≡ map device q
unfolding store
map-store device u e [] h = refl
map-store device u e (x ∷ q) h = ground (arith, map-store device u e q)

-- The entry that is in the queue for a byte to be written holds the device that is being sent.
abbrev pub Sends : Sender → Option Event → (QueueEntry → Event) → Type 0
Sends Sender.resting sending device = Unit {0}
Sends (queued u) sending device = sending ≡ some (device u)

pub resting_of_idle :
    (sender : Sender) (device : QueueEntry → Event) {sending : Option Event} (next : Option Event)
    → Sends sender sending device
    → sending ≡ none
    → Sends sender next device
resting_of_idle Sender.resting device next h e = tt
resting_of_idle (queued u) device next h e = cc

pub length-map : (f : QueueEntry → Event) (q : List QueueEntry) → length (map f q) ≡ length q
length-map f [] = refl
length-map f (x ∷ q) = ap suc (length-map f q)

pub store_self : (device : QueueEntry → Event) (u : QueueEntry) (e : Event) → store device u e u ≡ e
unfolding store
store_self device u e = rw (==_self u) refl

pub held_device :
    (sender : Sender) (device : QueueEntry → Event) {sending : Option Event} (u : QueueEntry)
    (e : Event)
    → Sends sender sending device
    → sender ≡ queued u
    → sending ≡ some e
    → e ≡ device u
held_device Sender.resting device u e h at busy = cc
held_device (queued v) device u e h at busy = cc

module _ (have_devinfo : Bool) (ifnamsiz : ℕ) (accepts : Text → Bool) where
  abbrev pub run : List Round → ThreadState → Run
  run = udev_monitor_thread have_devinfo ifnamsiz accepts

  -- A run with another behind it.
  abbrev pub joined : (ThreadState → Run) → Run → Run
  joined behind (es, t, ended) = (es ++ (behind t).0, (behind t).1, (behind t).2)

  joined_after :
      (behind rest more : ThreadState → Run) (turn : Turn)
      → ((s : ThreadState) → (rest s).2 ≡ false → more s ≡ joined behind (rest s))
      → (after_round have_devinfo ifnamsiz accepts turn rest).2 ≡ false
      → after_round have_devinfo ifnamsiz accepts turn more
        ≡ joined behind (after_round have_devinfo ifnamsiz accepts turn rest)
  unfolding after_round
  joined_after behind rest more (break s) ih h = cc
  joined_after behind rest more (continue s none) ih h = ih s h
  joined_after behind rest more (continue s (some e)) ih h = rw (ih s h) refl

  pub run-append :
      (rs : List Round) (r : Round) (s : ThreadState)
      → (run rs s).2 ≡ false
      → run (rs ++ r ∷ []) s ≡ joined (run (r ∷ [])) (run rs s)
  unfolding udev_monitor_thread
  run-append [] r s h = refl
  run-append (x ∷ rs) r s h =
      joined_after (run (r ∷ [])) (run rs) (run (rs ++ r ∷ []))
        (thread_round have_devinfo ifnamsiz accepts x s) (run-append rs r) h
