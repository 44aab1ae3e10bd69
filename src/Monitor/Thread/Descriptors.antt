-- ===== src/Monitor/Thread/Descriptors.antt =====
-- The descriptors of the monitor's thread.
use libudev_devd.Common.{
  ℕ, ◌+◌, ◌≡◌, refl, Bool, true, false, none, some, List, [], ◌∷◌, Text, arith, Bool-cases, ◌||◌,
  ◌==◌, if◌then◌else◌, ◌⊎◌, inl, inr,
}
use libudev_devd.Monitor.Thread.{
  PollResult, interrupted, error, ready, Round, ThreadState, Turn, break, continue, thread_round,
  after_round, Run, finish, udev_monitor_thread, new_thread, after_poll, connect_devd, receive,
  hang_up, close_devd, below_one,
}

-- The socket of devd is the one descriptor that is open.
abbrev pub open_sockets : ThreadState → ℕ
open_sockets s = elim s.devd_fd [ none ↦ 0 | some _ ↦ 1 ]

abbrev pub Balanced : ThreadState → Type 0
Balanced s = s.opened ≡ s.closed + open_sockets s

abbrev TurnBalanced : Turn → Type 0
TurnBalanced (break s) = Balanced s
TurnBalanced (continue s e) = Balanced s

-- What holds of the state in which a run is left.
abbrev Left : Bool → ThreadState → Type 0
Left true s = s.opened ≡ s.closed
Left false s = Balanced s

||-eq_false : (a b : Bool) → (a || b) ≡ false → (a ≡ false) × (b ≡ false)
||-eq_false a b h = ground arith

module _ (b : Bool) (ifnamsiz : ℕ) (accepts : Text → Bool) where
  connect_devd-Balanced : (r : Round) (s : ThreadState) → Balanced s → Balanced (connect_devd r s)
  unfolding connect_devd
  connect_devd-Balanced r s h = ground arith

  hang_up-Balanced :
      (devd_hup : Bool) (s : ThreadState)
      → below_one s.devd_fd ≡ false
      → Balanced s
      → Balanced (hang_up b ifnamsiz accepts devd_hup s)
  unfolding hang_up below_one
  hang_up-Balanced devd_hup s k h = ground arith

  close_devd-Balanced :
      (s : ThreadState) → below_one s.devd_fd ≡ false → Balanced s → Balanced (close_devd s)
  unfolding close_devd below_one
  close_devd-Balanced s k h = ground arith

  receive-Balanced :
      (ev : List ℕ) (devd_hup : Bool) (s : ThreadState)
      → below_one s.devd_fd ≡ false
      → Balanced s
      → TurnBalanced (receive b ifnamsiz accepts ev devd_hup s)
  unfolding receive
  receive-Balanced [] devd_hup s k h = close_devd-Balanced s k h
  receive-Balanced (e ∷ ev) devd_hup s k h = hang_up-Balanced devd_hup s k h

  served :
      (devd_in : Bool) (ev : List ℕ) (devd_hup : Bool) (s : ThreadState)
      → below_one s.devd_fd ≡ false
      → Balanced s
      → TurnBalanced (
          if devd_in
          then receive b ifnamsiz accepts ev devd_hup s
          else continue (hang_up b ifnamsiz accepts devd_hup s) none)
  served true ev devd_hup s k h = receive-Balanced ev devd_hup s k h
  served false ev devd_hup s k h = hang_up-Balanced devd_hup s k h

  after_poll-Balanced :
      (p : PollResult) (ev : List ℕ) (s : ThreadState)
      → Balanced s
      → TurnBalanced (after_poll b ifnamsiz accepts p ev s)
  unfolding after_poll
  after_poll-Balanced interrupted ev s h = h
  after_poll-Balanced error ev s h = h
  after_poll-Balanced (ready ret true devd_in devd_hup) ev s h = h
  after_poll-Balanced (ready ret false devd_in devd_hup) ev s h =
      elim (Bool-cases (ret == 0 || below_one s.devd_fd)) [
        | inl idle ↦ rw idle h
        | inr busy ↦ rw busy (served devd_in ev devd_hup s (||-eq_false (ret == 0) _ busy).1 h)
      ]

  zero_poll :
      (p : PollResult) (ev : List ℕ) (s : ThreadState)
      → s.devd_fd ≡ some 0
      → (after_poll b ifnamsiz accepts p ev s ≡ continue s none)
        ⊎ (after_poll b ifnamsiz accepts p ev s ≡ break s)
  unfolding after_poll below_one
  zero_poll interrupted ev s h = inl refl
  zero_poll error ev s h = inr refl
  zero_poll (ready ret true devd_in devd_hup) ev s h = inr refl
  zero_poll (ready ret false devd_in devd_hup) ev s h = inl (ground arith)

  round-Balanced :
      (r : Round) (s : ThreadState)
      → Balanced s
      → TurnBalanced (thread_round b ifnamsiz accepts r s)
  unfolding thread_round
  round-Balanced r s h = after_poll-Balanced r.poll r.recv _ (connect_devd-Balanced r s h)

  finish-closed :
      (s : ThreadState)
      → Balanced s
      → (finish b ifnamsiz accepts s).opened ≡ (finish b ifnamsiz accepts s).closed
  unfolding finish
  finish-closed s h = ground arith

  after_round-Left :
      (t : Turn) (rest : ThreadState → Run)
      → TurnBalanced t
      → ((s : ThreadState) → Balanced s → Left (rest s).2 (rest s).1)
      → Left (after_round b ifnamsiz accepts t rest).2 (after_round b ifnamsiz accepts t rest).1
  unfolding after_round
  after_round-Left (break s) rest h k = finish-closed s h
  after_round-Left (continue s none) rest h k = k s h
  after_round-Left (continue s (some e)) rest h k = k s h

  run-Left :
      (rs : List Round) (s : ThreadState)
      → Balanced s
      → Left
          (udev_monitor_thread b ifnamsiz accepts rs s).2
          (udev_monitor_thread b ifnamsiz accepts rs s).1
  unfolding udev_monitor_thread
  run-Left [] s h = h
  run-Left (r ∷ rs) s h =
      after_round-Left (thread_round b ifnamsiz accepts r s) _ (round-Balanced r s h) (run-Left rs)

  Left-opened :
      (ended : Bool) (s : ThreadState)
      → Left ended s
      → s.opened ≡ s.closed + (if ended then 0 else open_sockets s)
  Left-opened true s h = omega arith
  Left-opened false s h = h

  -- However the system calls answer, the thread has at most the socket of devd open after each of
  -- its rounds, and when it ends it has closed every descriptor that it opened.
  pub udev_monitor_thread-descriptors :
      (rs : List Round)
      → let (events, s, ended) = udev_monitor_thread b ifnamsiz accepts rs new_thread in
        s.opened ≡ s.closed + (if ended then 0 else open_sockets s)
  udev_monitor_thread-descriptors rs = Left-opened _ _ (run-Left rs new_thread refl)

  connected_zero : (r : Round) (s : ThreadState) → s.devd_fd ≡ some 0 → connect_devd r s ≡ s
  unfolding connect_devd
  connected_zero r s h = ground arith

  -- A socket that is descriptor 0 is taken for none: while it stays open, no message is received
  -- and the thread only polls again, unless it ends.
  pub descriptor_zero_ignored :
      (r : Round) (s : ThreadState)
      → s.devd_fd ≡ some 0
      → (thread_round b ifnamsiz accepts r s ≡ continue s none)
        ⊎ (thread_round b ifnamsiz accepts r s ≡ break s)
  unfolding thread_round
  descriptor_zero_ignored r s h = rw (connected_zero r s h) (zero_poll r.poll r.recv s h)
