-- ===== src/Monitor/Handle/Laws.antt =====
-- What any sequence of calls leaves of a monitor, and what its client is given under its rules.
use libudev_devd.Common.{
  ℕ, ◌+◌, ◌-◌, ◌≤◌, ◌≡◌, refl, sym, ap, subst, ◌∙◌, Bool, true, false, Option, some, List, [], ◌∷◌,
  ◌++◌, append-nil, append_assoc, all, Text, ◌==◌, ltb, if◌then◌else◌, arith,
}
use mathlib.Core.Path.{fun_ext}
use libudev_devd.Subsystem.{Platform}
use libudev_devd.Filter.{DeviceLists}
use libudev_devd.Filter.Spec.{accepts, udev_filter_match-eq-accepts}
use libudev_devd.Devd.{Event}
use libudev_devd.Monitor.Queue.{QueueEntry}
use libudev_devd.Monitor.Thread.Events.{all_accepted}
use libudev_devd.Monitor.System.{System, Runs}
use libudev_devd.Monitor.System.Served.{got-accepted}
use libudev_devd.Monitor.Handle.{
  UdevMonitor, udev_monitor_new_from_netlink, udev_monitor_get_fd, Released, kept, freed, undefined,
  udev_monitor_unref, thread_accepts,
}
use libudev_devd.Monitor.Handle.Calls.{
  MonitorCall, match_subsystem, match_tag, enable_receiving, buffer_size, filter_update,
  filter_remove, ref, unref, monitor_call, if_kept, monitor_calls, rule_of, rules_of, threads_of,
  refs_of, unrefs_of, is_quiet,
}

-- What calls make of a monitor that they do not free.
pub record Behind (cs : List MonitorCall) (um um' : UdevMonitor) : Type 0 where
  pub rules : um'.filters ≡ um.filters ++ rules_of cs
  pub threads : um'.threads ≡ um.threads + threads_of cs
  pub references : um'.refcount + unrefs_of cs ≡ um.refcount + refs_of cs
  pub alive : 1 ≤ um'.refcount
  pub descriptors : um'.fds ≡ um.fds

call-Behind :
    (c : MonitorCall) (um um' : UdevMonitor)
    → 1 ≤ um.refcount
    → monitor_call c um ≡ kept um'
    → Behind (c ∷ []) um um'
unfolding monitor_call
call-Behind (match_subsystem true name devtype) um um' h e = ground (arith, append-nil um.filters)
call-Behind (match_subsystem false name devtype) um um' h e = ground (arith, append-nil um.filters)
call-Behind (match_tag true name) um um' h e = ground (arith, append-nil um.filters)
call-Behind (match_tag false name) um um' h e = ground (arith, append-nil um.filters)
call-Behind (enable_receiving true) um um' h e = ground (arith, append-nil um.filters)
call-Behind (enable_receiving false) um um' h e = ground (arith, append-nil um.filters)
call-Behind (buffer_size size) um um' h e = ground (arith, append-nil um.filters)
call-Behind filter_update um um' h e = ground (arith, append-nil um.filters)
call-Behind filter_remove um um' h e = ground (arith, append-nil um.filters)
call-Behind ref um um' h e = ground (arith, append-nil um.filters)
call-Behind unref um um' h e = ground (arith, append-nil um.filters)

Behind-cons :
    (c : MonitorCall) (cs : List MonitorCall) (um mid um' : UdevMonitor)
    → Behind (c ∷ []) um mid
    → Behind cs mid um'
    → Behind (c ∷ cs) um um'
Behind-cons c cs um mid um' h k =
    let first = h.threads in
    let second = k.threads in
    let took = h.references in
    let took' = k.references in
    record {
      rules =
          k.rules
          ∙ ap (λ t. t ++ rules_of cs)
              (h.rules ∙ ap (λ t. um.filters ++ t) (append-nil (rule_of c)))
          ∙ append_assoc um.filters (rule_of c) (rules_of cs);
      threads = omega arith;
      references = omega arith;
      alive = k.alive;
      descriptors = k.descriptors ∙ h.descriptors;
    }

if_kept-eq_kept :
    (r : Released) (rest : UdevMonitor → Released) {um' : UdevMonitor}
    → if_kept r rest ≡ kept um'
    → (mid : UdevMonitor) × (r ≡ kept mid) × (rest mid ≡ kept um')
unfolding if_kept
if_kept-eq_kept (kept mid) rest h = (mid, refl, h)
if_kept-eq_kept (freed unjoined) rest h = cc
if_kept-eq_kept undefined rest h = cc

calls-Behind :
    (cs : List MonitorCall) (um um' : UdevMonitor)
    → 1 ≤ um.refcount
    → monitor_calls cs um ≡ kept um'
    → Behind cs um um'
unfolding monitor_calls
calls-Behind [] um um' h e = ground (arith, append-nil um.filters)
calls-Behind (c ∷ cs) um um' h e =
    let (mid, made, rest) = if_kept-eq_kept (monitor_call c um) (monitor_calls cs) e in
    let first = call-Behind c um mid h made in
    Behind-cons c cs um mid um' first (calls-Behind cs mid um' first.alive rest)

unref_counts :
    (um : UdevMonitor) (took gave threads : ℕ)
    → um.refcount + gave ≡ 1 + took
    → 1 ≤ um.refcount
    → um.threads ≡ threads
    → udev_monitor_unref um ≡ (
        if ltb gave took
        then kept (record um { refcount = took - gave })
        else if threads == 0
        then undefined
        else freed (threads - 1))
unfolding udev_monitor_unref
unref_counts um took gave threads h alive same = ground arith

-- After any calls on a new monitor that do not free it, its rules are those that the calls asked
-- for with memory at hand, in order (udev_monitor_filter_remove and udev_monitor_filter_update take
-- none away), and its descriptors are those of the pipe; a further udev_monitor_unref keeps the
-- monitor while more references were taken than given up, and otherwise frees it with all but one of
-- its threads unjoined, or joins a thread that was never created.
pub monitor_calls-unref :
    (fds : ℕ × ℕ) (um um' : UdevMonitor) (cs : List MonitorCall)
    → udev_monitor_new_from_netlink true (some fds) ≡ some um
    → monitor_calls cs um ≡ kept um'
    → (um'.filters ≡ rules_of cs)
      × (udev_monitor_get_fd um' ≡ fds.0)
      × (udev_monitor_unref um' ≡ (
          if ltb (unrefs_of cs) (refs_of cs)
          then kept (record um' { refcount = refs_of cs - unrefs_of cs })
          else if threads_of cs == 0
          then undefined
          else freed (threads_of cs - 1)))
unfolding udev_monitor_new_from_netlink udev_monitor_get_fd
monitor_calls-unref fds um um' cs new e =
    let um₀ : UdevMonitor = record { refcount = 1; fds = fds; filters = []; threads = 0 } in
    let same : um ≡ um₀ = cc in
    let b =
      calls-Behind cs um₀ um' (omega arith) (subst (λ m. monitor_calls cs m ≡ kept um') same e) in
    let created = b.threads in
    let threads : um'.threads ≡ threads_of cs = omega arith in
    (
      b.rules,
      ap (λ (f : ℕ × ℕ). f.0) b.descriptors,
      unref_counts um' (refs_of cs) (unrefs_of cs) (threads_of cs) b.references b.alive threads,
    )

adds_none : (cs : List MonitorCall) → all is_quiet cs ≡ true → rules_of cs ≡ []
adds_none [] h = refl
adds_none (match_subsystem memory name devtype ∷ cs) h = cc
adds_none (match_tag memory name ∷ cs) h = cc
adds_none (enable_receiving true ∷ cs) h = cc
adds_none (enable_receiving false ∷ cs) h = adds_none cs h
adds_none (buffer_size size ∷ cs) h = adds_none cs h
adds_none (filter_update ∷ cs) h = adds_none cs h
adds_none (filter_remove ∷ cs) h = adds_none cs h
adds_none (ref ∷ cs) h = adds_none cs h
adds_none (unref ∷ cs) h = adds_none cs h

rules_of-append : (xs ys : List MonitorCall) → rules_of (xs ++ ys) ≡ rules_of xs ++ rules_of ys
rules_of-append [] ys = refl
rules_of-append (c ∷ xs) ys =
    ap (λ t. rule_of c ++ t) (rules_of-append xs ys)
    ∙ sym (append_assoc (rule_of c) (rules_of xs) (rules_of ys))

-- A client that makes the calls `before` on a new monitor, of which none creates a thread, then starts
-- the thread by udev_monitor_enable_receiving, and adds no rule and starts no thread from there on: at each moment of
-- `during`, the calls that it makes while the thread runs, the thread finds the same rules, those of
-- `before`. Under these, and where creating a device for a syspath always gives the same, in every
-- state that thread and client reach the syspath of each device that the client was given is one that
-- the match rules which `before` asked for, with memory at hand, accept, as they are said without the
-- loops of udev_filter_match.
pub received-rules :
    (p : Platform) (new_device : Text → ℕ → Option DeviceLists) (o : Text → Option DeviceLists)
    (have_devinfo : Bool) (ifnamsiz : ℕ) (fds : ℕ × ℕ) (um um' : UdevMonitor)
    (before during : List MonitorCall) {device : QueueEntry → Event} {s : System}
    → ((path : Text) (n : ℕ) → new_device path n ≡ o path)
    → udev_monitor_new_from_netlink true (some fds) ≡ some um
    → threads_of before ≡ 0
    → all is_quiet during ≡ true
    → monitor_calls (before ++ enable_receiving true ∷ during) um ≡ kept um'
    → Runs have_devinfo ifnamsiz (thread_accepts p new_device um') device s
    → (um'.filters ≡ rules_of before)
      × (all_accepted (λ path. accepts p (o path) (rules_of before) path) s.got ≡ true)
unfolding thread_accepts
received-rules p new_device o have_devinfo ifnamsiz fds um um' before during {s} constant new idle
      quiet e r =
    let cs = before ++ enable_receiving true ∷ during in
    let rules : um'.filters ≡ rules_of before =
      (monitor_calls-unref fds um um' cs new e).0
      ∙ rules_of-append before (enable_receiving true ∷ during)
      ∙ ap (λ t. rules_of before ++ t) (adds_none during quiet)
      ∙ append-nil (rules_of before) in
    (
      rules,
      ap (λ f. all_accepted f s.got)
            (fun_ext (λ path.
              ap (λ t. accepts p (o path) t path) (sym rules)
              ∙ sym (
                  udev_filter_match-eq-accepts p (new_device path) (o path) um'.filters path
                    (constant path))))
          ∙ got-accepted have_devinfo ifnamsiz (thread_accepts p new_device um') r,
    )
