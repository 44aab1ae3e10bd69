-- ===== src/Monitor/Thread/Events.antt =====
-- The events that udev_monitor_thread sends pass the filters.
use libudev_devd.Common.{
  ℕ, ◌-◌, ◌≡◌, refl, Bool, true, Option, none, some, List, [], ◌∷◌, Text, if◌then◌else◌, all,
  before, length, take, arith, Bool-cases, inl, inr,
}
use libudev_devd.Devd.{Event, dev_path_max, parse_devd_message}
use libudev_devd.Monitor.Thread.{
  Round, PollResult, ready, ThreadState, Turn, break, continue, thread_round, serve, after_round,
  udev_monitor_thread, Run, after_poll, receive,
}

-- Every event passes a test on its syspath.
abbrev pub all_accepted : (Text → Bool) → List Event → Bool
all_accepted accepts es = all (λ e. accepts e.1) es

module _ (have_devinfo : Bool) (ifnamsiz : ℕ) (accepts : Text → Bool) where
  -- What is sent passes the test.
  abbrev EventAccepted : Option Event → Type 0
  EventAccepted none = Unit {0}
  EventAccepted (some e) = accepts e.1 ≡ true

  abbrev TurnAccepted : Turn → Type 0
  TurnAccepted (break s) = Unit {0}
  TurnAccepted (continue s o) = EventAccepted o

  parsed-accepted :
      (parsed : Option Event)
      → EventAccepted (elim parsed [
        | none ↦ none
        | some (action, path) ↦ if accepts path then some (action, path) else none
      ])
  parsed-accepted none = tt
  parsed-accepted (some (action, path)) = elim (Bool-cases (accepts path)) [
    | inl fits ↦ rw fits fits
    | inr rejected ↦ rw rejected tt
  ]

  serve-accepted : (ev : List ℕ) → EventAccepted (serve have_devinfo ifnamsiz accepts ev)
  unfolding serve
  serve-accepted ev = parsed-accepted (
      parse_devd_message have_devinfo ifnamsiz (before 0 (take (length ev - 1) ev)) [] dev_path_max)

  receive-accepted :
      (ev : List ℕ) (devd_hup : Bool) (s : ThreadState)
      → TurnAccepted (receive have_devinfo ifnamsiz accepts ev devd_hup s)
  unfolding receive
  receive-accepted [] devd_hup s = tt
  receive-accepted (e ∷ ev) devd_hup s = serve-accepted (e ∷ ev)

  poll-accepted :
      (poll : PollResult) (ev : List ℕ) (s : ThreadState)
      → TurnAccepted (after_poll have_devinfo ifnamsiz accepts poll ev s)
  unfolding after_poll
  poll-accepted PollResult.interrupted ev s = tt
  poll-accepted PollResult.error ev s = tt
  poll-accepted (ready ret client_hup devd_in devd_hup) ev s =
      ground (arith, receive-accepted ev devd_hup s)

  round-accepted :
      (rest : ThreadState → Run) (turn : Turn)
      → TurnAccepted turn
      → ((s : ThreadState) → all_accepted accepts (rest s).0 ≡ true)
      → all_accepted accepts (after_round have_devinfo ifnamsiz accepts turn rest).0 ≡ true
  unfolding after_round
  round-accepted rest (break s) h k = refl
  round-accepted rest (continue s none) h k = k s
  round-accepted rest (continue s (some e)) h k = ground (arith, k s)

  pub thread-accepted :
      (rs : List Round) (s : ThreadState)
      → all_accepted accepts (udev_monitor_thread have_devinfo ifnamsiz accepts rs s).0 ≡ true
  unfolding udev_monitor_thread thread_round
  thread-accepted [] s = refl
  thread-accepted (r ∷ rs) s =
      round-accepted _ _ (poll-accepted r.poll r.recv _) (thread-accepted rs)
