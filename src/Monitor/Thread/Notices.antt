-- ===== src/Monitor/Thread/Notices.antt =====
-- devd's notices about nodes and about the devices of buses, as udev_monitor_thread hears them.
use libudev_devd.Common.{
  subst, sym, ltb, ℕ, ◌-◌, ◌≤◌, ◌≡◌, refl, ap, ◌∙◌, Bool, true, false, ◌&&◌, Option, none, some,
  List, [], ◌∷◌, ◌++◌, map, Text, codes, leb, if◌then◌else◌, lacks, all, before, length,
  length-append, take, drop, take-append_self, arith, ◌⊎◌, inl, inr, &&-eq_true, leb→le,
}
use libudev_devd.Devd.{Action, add, remove, hotplug, Event, dev_path_max, parse_devd_message}
use libudev_devd.Devd.Dispatch.{BusAction, parse_devd_message-bus}
use libudev_devd.Devd.Cdev.{cdev_notice, parse_devd_message-cdev_notice}
use libudev_devd.Monitor.Thread.{
  Round, ready, ThreadState, continue, thread_round, serve, after_round, udev_monitor_thread, Run,
  after_poll, connect_devd, receive, hang_up, below_one, open_devd,
}

-- A round in which devd's message `ev` comes, on a connection that is there or is made.
abbrev pub hearing : ℕ → List ℕ → Round
hearing fd ev = record {
  socket = some fd;
  connected = true;
  poll = ready 1 false true false;
  recv = ev;
}

-- What devd tells: that a node was created, destroyed or changed, or that a device of a bus was attached
-- or detached, with the text behind its first byte.
pub data Notice : Type 0 where
  node : (action : Action) → (name : Text) → Notice
  attached : (words : Text) → Notice
  detached : (words : Text) → Notice

abbrev pub notice_text : Notice → Text
notice_text (node action name) = cdev_notice action name
notice_text (attached words) = b'+' ∷ words
notice_text (detached words) = b'-' ∷ words

-- The message, with the line feed that ends it.
abbrev pub notice_line : Notice → List ℕ
notice_line n = notice_text n ++ 10 ∷ []

-- What becomes of it: a device of a bus is named by the first word, as far as the buffer holds it.
abbrev pub notice_event : Notice → Event
notice_event (node action name) = (action, codes "/dev/" ++ name)
notice_event (attached words) = (add, codes "/sys/" ++ take 74 (before b' ' words))
notice_event (detached words) = (remove, codes "/sys/" ++ take 74 (before b' ' words))

-- A name of a node that devd's notice and the buffer for a path can hold.
abbrev pub is_name : Text → Bool
is_name name = lacks b' ' name && (lacks 0 name && leb (length name) 74)

-- A notice that the library can read: those about buses are for builds with devinfo, and have to fit
-- the 1024 bytes of `ev`.
abbrev pub is_notice : Bool → Notice → Bool
is_notice have_devinfo (node action name) = is_name name
is_notice have_devinfo (attached words) = have_devinfo && (lacks 0 words && leb (length words) 1022)
is_notice have_devinfo (detached words) = have_devinfo && (lacks 0 words && leb (length words) 1022)

-- Their events, with the filters applied.
abbrev pub notice_events : (Text → Bool) → List Notice → List Event
notice_events accepts [] = []
notice_events accepts (n ∷ ns) =
    if accepts (notice_event n).1
    then notice_event n ∷ notice_events accepts ns
    else notice_events accepts ns

before_self : (c : ℕ) (s : Text) → lacks c s ≡ true → before c s ≡ s
unfolding before
before_self c [] h = refl
before_self c (x ∷ s) h = ground (arith, before_self c s)

notice_lacks_nul :
    (action : Action) (name : Text) → lacks 0 name ≡ true → lacks 0 (cdev_notice action name) ≡ true
notice_lacks_nul add name h = h
notice_lacks_nul remove name h = h
notice_lacks_nul hotplug name h = h

module _ (have_devinfo : Bool) (ifnamsiz : ℕ) (accepts : Text → Bool) where
  -- The event of a message with the filters applied.
  abbrev filtered : Option Event → Option Event
  filtered parsed = elim parsed [
    | none ↦ none
    | some (action, path) ↦ if accepts path then some (action, path) else none
  ]

  serve-line :
      (msg : Text) (e : Event)
      → lacks 0 msg ≡ true
      → parse_devd_message have_devinfo ifnamsiz msg [] dev_path_max ≡ some e
      → serve have_devinfo ifnamsiz accepts (msg ++ 10 ∷ [])
        ≡ (if accepts e.1 then some e else none)
  unfolding serve
  serve-line msg e l parsed =
      let whole : take (length (msg ++ 10 ∷ []) - 1) (msg ++ 10 ∷ []) ≡ msg =
        ap (λ k. take k (msg ++ 10 ∷ [])) (omega (arith, length-append msg (10 ∷ [])))
        ∙ take-append_self msg (10 ∷ []) in
      ap (λ t. filtered (parse_devd_message have_devinfo ifnamsiz (before 0 t) [] dev_path_max))
        whole
      ∙ ap (λ t. filtered (parse_devd_message have_devinfo ifnamsiz t [] dev_path_max))
          (before_self 0 msg l)
      ∙ ap filtered parsed

  bus_parsed :
      (c : ℕ) (action : Action) (words : Text)
      → BusAction c action
      → is_notice have_devinfo (attached words) ≡ true
      → parse_devd_message have_devinfo ifnamsiz (c ∷ words) [] dev_path_max
        ≡ some (action, codes "/sys/" ++ take 74 (before b' ' words))
  bus_parsed c action words at h =
      subst
        (λ b.
          parse_devd_message b ifnamsiz (c ∷ words) [] dev_path_max
          ≡ some (action, codes "/sys/" ++ take 74 (before b' ' words)))
        (sym (&&-eq_true have_devinfo (lacks 0 words && leb (length words) 1022) h).0)
        (parse_devd_message-bus ifnamsiz c action words [] dev_path_max at (omega arith))

  bus_nulless :
      (words : Text) → is_notice have_devinfo (attached words) ≡ true → lacks 0 words ≡ true
  bus_nulless words h =
      let (built, text) = &&-eq_true have_devinfo (lacks 0 words && leb (length words) 1022) h in
      (&&-eq_true (lacks 0 words) (leb (length words) 1022) text).0

  serve-notice :
      (n : Notice)
      → is_notice have_devinfo n ≡ true
      → serve have_devinfo ifnamsiz accepts (notice_line n)
        ≡ (if accepts (notice_event n).1 then some (notice_event n) else none)
  serve-notice (node action name) h =
      let (spaceless, others) =
        &&-eq_true (lacks b' ' name) (lacks 0 name && leb (length name) 74) h in
      let (nulless, fits) = &&-eq_true (lacks 0 name) (leb (length name) 74) others in
      serve-line (cdev_notice action name) (action, codes "/dev/" ++ name)
        (notice_lacks_nul action name nulless)
        (parse_devd_message-cdev_notice have_devinfo ifnamsiz action name [] dev_path_max spaceless
          (leb→le (length name) 74 fits) (omega arith))
  serve-notice (attached words) h =
      serve-line (b'+' ∷ words) (notice_event (attached words)) (bus_nulless words h)
        (bus_parsed b'+' add words (inl (refl, refl)) h)
  serve-notice (detached words) h =
      serve-line (b'-' ∷ words) (notice_event (detached words)) (bus_nulless words h)
        (bus_parsed b'-' remove words (inr (refl, refl)) h)

  -- A notice is not empty.
  notice_cons : (n : Notice) → (c : ℕ) × (ev : List ℕ) × (notice_line n ≡ c ∷ ev)
  notice_cons (node action name) = (b'!', drop 1 (notice_line (node action name)), refl)
  notice_cons (attached words) = (b'+', words ++ 10 ∷ [], refl)
  notice_cons (detached words) = (b'-', words ++ 10 ∷ [], refl)

  -- The connection is made or is there, with a positive descriptor.
  connected_to :
      (fd : ℕ) (ev : List ℕ) (s : ThreadState)
      → (s.devd_fd ≡ none) ⊎ (s.devd_fd ≡ some fd)
      → (connect_devd (hearing fd ev) s).devd_fd ≡ some fd
  unfolding connect_devd open_devd
  connected_to fd ev s (inl e) = rw (e, connect_devd) refl
  connected_to fd ev s (inr e) = rw (e, connect_devd) e

  -- A round that hears a message on such a connection.
  hearing_round :
      (fd c : ℕ) (ev : List ℕ) (s : ThreadState)
      → 1 ≤ fd
      → (s.devd_fd ≡ none) ⊎ (s.devd_fd ≡ some fd)
      → thread_round have_devinfo ifnamsiz accepts (hearing fd (c ∷ ev)) s
        ≡ continue
            (connect_devd (hearing fd (c ∷ ev)) s)
            (serve have_devinfo ifnamsiz accepts (c ∷ ev))
  unfolding thread_round after_poll receive hang_up below_one
  hearing_round fd c ev s pos at =
      let positive : ltb fd 1 ≡ false = ground arith in
      rw (connected_to fd (c ∷ ev) s at, positive) refl

  -- Such a round, for a notice.
  pub hears_notice :
      (fd : ℕ) (n : Notice) (s : ThreadState)
      → 1 ≤ fd
      → (s.devd_fd ≡ none) ⊎ (s.devd_fd ≡ some fd)
      → is_notice have_devinfo n ≡ true
      → (t : ThreadState) × (t.devd_fd ≡ some fd)
        × (thread_round have_devinfo ifnamsiz accepts (hearing fd (notice_line n)) s
            ≡ continue t (if accepts (notice_event n).1 then some (notice_event n) else none))
  hears_notice fd n s pos at known =
      let (c, ev, e) = notice_cons n in
      let t = connect_devd (hearing fd (notice_line n)) s in
      (
        t,
        connected_to fd (notice_line n) s at,
        subst
              (λ l.
                thread_round have_devinfo ifnamsiz accepts (hearing fd l) s
                ≡ continue (connect_devd (hearing fd l) s) (serve have_devinfo ifnamsiz accepts l))
              (sym e) (hearing_round fd c ev s pos at)
            ∙ ap (continue t) (serve-notice n known),
      )

  event_behind :
      (fits : Bool) (e : Event) (t : ThreadState) (rest : ThreadState → Run)
      → (after_round have_devinfo ifnamsiz accepts
          (continue t (if fits then some e else none))
          rest).0
        ≡ (if fits then e ∷ (rest t).0 else (rest t).0)
  unfolding after_round
  event_behind true e t rest = refl
  event_behind false e t rest = refl

  -- On a connection that is there or is made, with a positive descriptor, the thread sends for devd's
  -- notices the events of those that the filters accept, in the order of the notices.
  pub notices-sent :
      (fd : ℕ) (ns : List Notice) (s : ThreadState)
      → 1 ≤ fd
      → (s.devd_fd ≡ none) ⊎ (s.devd_fd ≡ some fd)
      → all (is_notice have_devinfo) ns ≡ true
      → (udev_monitor_thread have_devinfo ifnamsiz accepts
          (map (λ n. hearing fd (notice_line n)) ns)
          s).0
        ≡ notice_events accepts ns
  unfolding udev_monitor_thread
  notices-sent fd [] s pos at known = refl
  notices-sent fd (n ∷ ns) s pos at known =
      let (here, others) =
        &&-eq_true (is_notice have_devinfo n) (all (is_notice have_devinfo) ns) known in
      let rest =
        udev_monitor_thread have_devinfo ifnamsiz accepts
          (map (λ n. hearing fd (notice_line n)) ns) in
      let (t, connected, turn) = hears_notice fd n s pos at here in
      ap (λ w. (after_round have_devinfo ifnamsiz accepts w rest).0) turn
      ∙ event_behind (accepts (notice_event n).1) (notice_event n) t rest
      ∙ ap (λ es. if accepts (notice_event n).1 then notice_event n ∷ es else es)
          (notices-sent fd ns t pos (inr connected) others)
