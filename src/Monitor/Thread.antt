-- ===== src/Monitor/Thread.antt =====
-- udev_monitor_thread of udev-monitor.c, round by round of its loop. What the system calls of a
-- round answer is the round's input.
use libudev_devd.Common.{
  ℕ, suc, ◌+◌, ◌-◌, ◌≡◌, Bool, true, false, ◌||◌, Option, none, some, List, [], ◌∷◌, ◌++◌, Text,
  before, ltb, ◌==◌, if◌then◌else◌, length, take,
}
use libudev_devd.Devd.{Event, dev_path_max, parse_devd_message}
pub mod Descriptors
pub mod Events
pub mod Notices

-- poll(2): a failure, or the number of descriptors that are ready with the bits asked for.
pub data PollResult : Type 0 where
  interrupted : PollResult  -- -1 with EINTR
  error : PollResult  -- -1 with another errno
  ready : (ret : ℕ) (client_hup devd_in devd_hup : Bool) → PollResult

pub record Round : Type 0 where
  pub socket : Option ℕ  -- socket(2), if it is called
  pub connected : Bool  -- whether connect(2) succeeds
  pub poll : PollResult
  pub recv : List ℕ  -- the bytes that recv(2) stores, none where it returns 0 or -1

-- `devd_fd`, with the numbers of descriptors that the thread has opened and closed.
pub record ThreadState : Type 0 where
  pub devd_fd : Option ℕ
  pub opened : ℕ
  pub closed : ℕ

-- How a round ends: by `break`, or with the event that was sent to the client, if any.
pub data Turn : Type 0 where
  break : ThreadState → Turn
  continue : ThreadState → Option Event → Turn

open_devd : Round → ThreadState → ThreadState
open_devd r s = elim r.socket [
  | none ↦ s
  | some fd ↦
      if r.connected
      then record s { devd_fd = some fd; opened = suc s.opened }
      else record s { opened = suc s.opened; closed = suc s.closed }
]

connect_devd : Round → ThreadState → ThreadState
unfolding open_devd
connect_devd r s = elim s.devd_fd [ some _ ↦ s | none ↦ open_devd r s ]

close_devd : ThreadState → ThreadState
close_devd s = record s { devd_fd = none; closed = suc s.closed }

-- `devd_fd < 1`
below_one : Option ℕ → Bool
below_one none = true
below_one (some fd) = ltb fd 1

-- The events sent, the state behind them, and whether the thread has ended.
abbrev pub Run : Type 0
Run = List Event × ThreadState × Bool

module _ (have_devinfo : Bool) (ifnamsiz : ℕ) (accepts : Text → Bool) where
  -- The event of a message that passes the filters. The last byte is made the NUL.
  serve : List ℕ → Option Event
  serve ev =
      elim (parse_devd_message have_devinfo ifnamsiz (before 0 (take (length ev - 1) ev)) []
        dev_path_max) [
          | none ↦ none
          | some (action, syspath) ↦ if accepts syspath then some (action, syspath) else none
        ]

  -- `if (fds[1].revents & POLLHUP)`
  hang_up : Bool → ThreadState → ThreadState
  unfolding close_devd
  hang_up devd_hup s = if devd_hup then close_devd s else s

  receive : List ℕ → Bool → ThreadState → Turn
  unfolding hang_up close_devd serve
  receive [] devd_hup s = continue (close_devd s) none
  receive (b ∷ bs) devd_hup s = continue (hang_up devd_hup s) (serve (b ∷ bs))

  after_poll : PollResult → List ℕ → ThreadState → Turn
  unfolding receive hang_up below_one
  after_poll interrupted ev s = continue s none
  after_poll error ev s = break s
  after_poll (ready ret client_hup devd_in devd_hup) ev s =
      if client_hup
      then break s
      else if ret == 0 || below_one s.devd_fd
      then continue s none
      else if devd_in
      then receive ev devd_hup s
      else continue (hang_up devd_hup s) none

  unfoldable pub thread_round : Round → ThreadState → Turn
  unfolding after_poll connect_devd
  thread_round r s = after_poll r.poll r.recv (connect_devd r s)

  -- `if (devd_fd >= 0) close(devd_fd);` behind the loop
  pub finish : ThreadState → ThreadState
  unfolding close_devd
  finish s = elim s.devd_fd [ none ↦ s | some _ ↦ close_devd s ]

  -- What follows a round, where `rest` are the rounds behind it.
  unfoldable pub after_round : Turn → (ThreadState → Run) → Run
  unfolding finish
  after_round (break s) rest = ([], finish s, true)
  after_round (continue s none) rest = rest s
  after_round (continue s (some e)) rest = let (es, t, ended) = rest s in (e ∷ es, t, ended)

  unfoldable pub udev_monitor_thread : List Round → ThreadState → Run
  unfolding thread_round after_round
  udev_monitor_thread [] s = ([], s, false)
  udev_monitor_thread (r ∷ rs) s = after_round (thread_round r s) (udev_monitor_thread rs)

-- `int devd_fd = -1`
abbrev pub new_thread : ThreadState
new_thread = record { devd_fd = none; opened = 0; closed = 0 }
