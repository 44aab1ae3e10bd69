-- ===== src/Monitor/System/Served.antt =====
-- From a message that devd writes to the device that the client is given.
use libudev_devd.Common.{
  ℕ, ◌+◌, ◌≤◌, ◌≡◌, refl, sym, ap, ◌∙◌, Bool, true, false, none, List, [], ◌∷◌, ◌++◌, map,
  append-nil, Text, all, length, arith, inl,
}
use libudev_devd.Devd.{Event}
use libudev_devd.Monitor.Queue.{QueueEntry}
use libudev_devd.Monitor.Delivery.{held}
use libudev_devd.Monitor.Thread.{udev_monitor_thread, new_thread}
use libudev_devd.Monitor.Thread.Events.{all_accepted, thread-accepted}
use libudev_devd.Monitor.Thread.Notices.{
  Notice, hearing, notice_line, is_notice, notice_events, notices-sent,
}
use libudev_devd.Monitor.System.{Outcome, System, Runs}
use libudev_devd.Monitor.System.History.{succeeded, attempted, current}
use libudev_devd.Monitor.System.Laws.{Runs-delivered}

all_accepted-front :
    (accepts : Text → Bool) (xs ys : List Event)
    → all_accepted accepts (xs ++ ys) ≡ true
    → all_accepted accepts xs ≡ true
all_accepted-front accepts [] ys h = refl
all_accepted-front accepts (x ∷ xs) ys h = ground (arith, all_accepted-front accepts xs ys)

all_accepted-succeeded :
    (accepts : Text → Bool) (outcomes : List Outcome)
    → all_accepted accepts (attempted outcomes) ≡ true
    → all_accepted accepts (succeeded outcomes) ≡ true
all_accepted-succeeded accepts [] h = refl
all_accepted-succeeded accepts ((e, true) ∷ outcomes) h =
    ground (arith, all_accepted-succeeded accepts outcomes)
all_accepted-succeeded accepts ((e, false) ∷ outcomes) h =
    ground (arith, all_accepted-succeeded accepts outcomes)

-- No call of udev_monitor_send_device has failed.
abbrev pub all_sent : List Outcome → Bool
all_sent outcomes = all (λ o. o.1) outcomes

succeeded_all :
    (outcomes : List Outcome) → all_sent outcomes ≡ true → succeeded outcomes ≡ attempted outcomes
succeeded_all [] h = refl
succeeded_all ((e, true) ∷ outcomes) h = ap (λ t. e ∷ t) (succeeded_all outcomes h)
succeeded_all ((e, false) ∷ outcomes) h = cc

empty_of_length : (es : List Event) → length es ≡ 0 → es ≡ []
empty_of_length [] h = refl
empty_of_length (x ∷ es) h = absurd (omega arith)

module _ (have_devinfo : Bool) (ifnamsiz : ℕ) (accepts : Text → Bool) where
  -- In every state that the thread and the client reach, each device that the client was given has a
  -- syspath that the filters of the monitor accept.
  pub got-accepted :
      {device : QueueEntry → Event} {s : System}
      → Runs have_devinfo ifnamsiz accepts device s
      → all_accepted accepts s.got ≡ true
  got-accepted {s} r =
      let (waiting, delivered, _, calls) = Runs-delivered have_devinfo ifnamsiz accepts r in
      let all_calls : all_accepted accepts (attempted s.outcomes) ≡ true =
        all_accepted-front accepts (attempted s.outcomes) (current s.sending) (
          ap (all_accepted accepts) calls
          ∙ thread-accepted have_devinfo ifnamsiz accepts s.rounds new_thread) in
      all_accepted-front accepts s.got waiting (
        ap (all_accepted accepts) (sym delivered)
        ∙ all_accepted-succeeded accepts s.outcomes all_calls)

  -- Where the thread has heard devd's notices `ns` about nodes and about the devices of buses, on a
  -- connection with a positive descriptor, and no call of udev_monitor_send_device has failed or is
  -- running, and the client has answered every byte: it was given exactly the devices of the notices
  -- whose syspath the filters accept, each with its action, once and in the order of the notices.
  pub notices-received :
      {device : QueueEntry → Event} {s : System} (fd : ℕ) (ns : List Notice)
      → Runs have_devinfo ifnamsiz accepts device s
      → s.rounds ≡ map (λ n. hearing fd (notice_line n)) ns
      → 1 ≤ fd
      → all (is_notice have_devinfo) ns ≡ true
      → all_sent s.outcomes ≡ true
      → s.sending ≡ none
      → s.channel.pipe + held s.channel.receiver ≡ 0
      → s.got ≡ notice_events accepts ns
  notices-received {s} fd ns r heard pos named sent idle drained =
      let (waiting, delivered, count, calls) = Runs-delivered have_devinfo ifnamsiz accepts r in
      let nothing : waiting ≡ [] = empty_of_length waiting (count ∙ drained) in
      sym (append-nil s.got)
      ∙ ap (λ t. s.got ++ t) (sym nothing)
      ∙ sym delivered
      ∙ succeeded_all s.outcomes sent
      ∙ sym (append-nil (attempted s.outcomes))
      ∙ ap (λ x. attempted s.outcomes ++ current x) (sym idle)
      ∙ calls
      ∙ ap (λ rs. (udev_monitor_thread have_devinfo ifnamsiz accepts rs new_thread).0) heard
      ∙ notices-sent have_devinfo ifnamsiz accepts fd ns new_thread pos (inl refl) named
