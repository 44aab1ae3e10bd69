-- ===== src/Monitor/System/Laws.antt =====
-- What the client of a monitor is given, against what the monitor's thread has read.
use libudev_devd.Common.{
  ℕ, ◌+◌, ◌≡◌, refl, sym, ap, ◌∙◌, subst, Bool, true, false, none, some, List, [], ◌∷◌, ◌++◌, map,
  append-nil, append_assoc, Text, lacks, length, arith,
}
use mathlib.Core.List.{map-append}
use libudev_devd.Devd.{Event}
use libudev_devd.Monitor.Queue.{
  QueueEntry, Sender, Receiver, queued, woken, claiming, Channel, remove_entry, Step, Reach,
}
use libudev_devd.Monitor.Queue
use libudev_devd.Monitor.Delivery.{
  Inv, held, Holds-resting, Step-Inv, new-Inv, take-pending, queue_waits,
}
use libudev_devd.Monitor.Thread.{
  Round, ThreadState, Turn, break, continue, thread_round, new_thread, Run, after_round,
  udev_monitor_thread,
}
use libudev_devd.Monitor.System.History.{
  succeeded, attempted, current, succeeded-append, attempted-append, map-store, Sends,
  resting_of_idle, store_self, held_device, length-map, run, joined, run-append,
}
use libudev_devd.Monitor.System.{
  System, with_outcome, Move, quiet, event, stop, no_device, insert, write, write_fails, read,
  find_empty, find_entry, take, Runs, start, then_move,
}

module _ (have_devinfo : Bool) (ifnamsiz : ℕ) (accepts : Text → Bool) where
  -- What connects the parts of a reachable state.
  record Tracks (s : System) : Type 0 where
    inv : Inv s.channel
    delivered : succeeded s.outcomes ≡ s.got ++ map s.device inv.pending
    sends : Sends s.channel.sender s.sending s.device
    calls :
        attempted s.outcomes ++ current s.sending
        ≡ (run have_devinfo ifnamsiz accepts s.rounds new_thread).0
    place :
        s.ended ≡ false
        → ((run have_devinfo ifnamsiz accepts s.rounds new_thread).1 ≡ s.thread)
          × ((run have_devinfo ifnamsiz accepts s.rounds new_thread).2 ≡ false)

  -- Rounds behind those that have been made.
  more_rounds :
      (s : System) (i : Tracks s) (r : Round) (turn : Turn)
      → s.ended ≡ false
      → s.sending ≡ none
      → thread_round have_devinfo ifnamsiz accepts r s.thread ≡ turn
      → run have_devinfo ifnamsiz accepts (s.rounds ++ r ∷ []) new_thread ≡ (
        attempted s.outcomes
            ++ (after_round have_devinfo ifnamsiz accepts turn
                (run have_devinfo ifnamsiz accepts [])).0,
        (after_round have_devinfo ifnamsiz accepts turn (run have_devinfo ifnamsiz accepts [])).1,
        (after_round have_devinfo ifnamsiz accepts turn (run have_devinfo ifnamsiz accepts [])).2,
      )
  unfolding udev_monitor_thread
  more_rounds s i r turn alive idle e =
      let (here, still) = i.place alive in
      let made : (run have_devinfo ifnamsiz accepts s.rounds new_thread).0 ≡ attempted s.outcomes =
        sym i.calls
        ∙ ap (λ x. attempted s.outcomes ++ current x) idle
        ∙ append-nil (attempted s.outcomes) in
      run-append have_devinfo ifnamsiz accepts s.rounds r new_thread still
      ∙ ap {B = Run}
          (joined have_devinfo ifnamsiz accepts (run have_devinfo ifnamsiz accepts (r ∷ [])))
          (λ j. (made j, here j, still j))
      ∙ ap {B = Run}
          (λ t.
            joined have_devinfo ifnamsiz accepts
              (λ _.
                after_round have_devinfo ifnamsiz accepts t (run have_devinfo ifnamsiz accepts []))
              (attempted s.outcomes, s.thread, false))
          e

  quiet-Tracks :
      {s : System} (r : Round) (t : ThreadState) (alive : s.ended ≡ false) (idle : s.sending ≡ none)
      (e : thread_round have_devinfo ifnamsiz accepts r s.thread ≡ continue t none)
      → Tracks s
      → Tracks (record s { thread = t; rounds = s.rounds ++ r ∷ [] })
  unfolding after_round udev_monitor_thread
  quiet-Tracks {s} r t alive idle e i =
      let more = more_rounds s i r (continue t none) alive idle e in
      record {
        inv = i.inv;
        delivered = i.delivered;
        sends = i.sends;
        calls = ap (λ x. attempted s.outcomes ++ current x) idle ∙ sym (ap (λ w. w.0) more);
        place = λ _. (ap (λ w. w.1) more, ap (λ w. w.2) more);
      }

  event-Tracks :
      {s : System} (r : Round) (t : ThreadState) (e : Event) (alive : s.ended ≡ false)
      (idle : s.sending ≡ none)
      (made : thread_round have_devinfo ifnamsiz accepts r s.thread ≡ continue t (some e))
      → Tracks s
      → Tracks (record s { thread = t; rounds = s.rounds ++ r ∷ []; sending = some e })
  unfolding after_round udev_monitor_thread
  event-Tracks {s} r t e alive idle made i =
      let more = more_rounds s i r (continue t (some e)) alive idle made in
      record {
        inv = i.inv;
        delivered = i.delivered;
        sends = resting_of_idle s.channel.sender s.device (some e) i.sends idle;
        calls = sym (ap (λ w. w.0) more);
        place = λ _. (ap (λ w. w.1) more, ap (λ w. w.2) more);
      }

  stop-Tracks :
      {s : System} (r : Round) (t : ThreadState) (alive : s.ended ≡ false) (idle : s.sending ≡ none)
      (e : thread_round have_devinfo ifnamsiz accepts r s.thread ≡ break t)
      → Tracks s
      → Tracks (record s { thread = t; rounds = s.rounds ++ r ∷ []; ended = true })
  unfolding after_round udev_monitor_thread
  stop-Tracks {s} r t alive idle e i =
      let more = more_rounds s i r (break t) alive idle e in
      record {
        inv = i.inv;
        delivered = i.delivered;
        sends = i.sends;
        calls = ap (λ x. attempted s.outcomes ++ current x) idle ∙ sym (ap (λ w. w.0) more);
        place = λ h. cc;
      }

  -- A call of udev_monitor_send_device returns.
  returned_calls :
      (s : System) (e : Event) (success : Bool)
      → s.sending ≡ some e
      → attempted s.outcomes ++ current s.sending
        ≡ (run have_devinfo ifnamsiz accepts s.rounds new_thread).0
      → attempted (s.outcomes ++ (e, success) ∷ []) ++ []
        ≡ (run have_devinfo ifnamsiz accepts s.rounds new_thread).0
  returned_calls s e success busy h =
      append-nil _
      ∙ attempted-append s.outcomes ((e, success) ∷ [])
      ∙ ap (λ x. attempted s.outcomes ++ current x) (sym busy)
      ∙ h

  -- One that fails changes nothing of what the client is still to be given.
  failed_delivered :
      (s : System) (e : Event) (rest : List Event)
      → succeeded s.outcomes ≡ rest
      → succeeded (s.outcomes ++ (e, false) ∷ []) ≡ rest
  failed_delivered s e rest h =
      succeeded-append s.outcomes ((e, false) ∷ []) ∙ append-nil (succeeded s.outcomes) ∙ h

  Move-Tracks : {s t : System} → Move have_devinfo ifnamsiz accepts s t → Tracks s → Tracks t
  unfolding Step-Inv with_outcome
  Move-Tracks (quiet r t alive idle e) i = quiet-Tracks r t alive idle e i
  Move-Tracks (event r t e alive idle made) i = event-Tracks r t e alive idle made i
  Move-Tracks (stop r t alive idle e) i = stop-Tracks r t alive idle e i
  Move-Tracks {s} (no_device e busy rests) i = record {
    inv = i.inv;
    delivered = failed_delivered s e _ i.delivered;
    sends = subst (λ x. Sends x none s.device) (sym rests) tt;
    calls = returned_calls s e false busy i.calls;
    place = i.place;
  }
  Move-Tracks {s} (insert u e busy rests fresh) i = record {
    inv = Step-Inv (Queue.insert u rests fresh) i.inv;
    delivered =
        i.delivered
        ∙ ap (λ q. s.got ++ q)
            (sym (
              map-store s.device u e i.inv.pending (
                subst (λ q. lacks u q ≡ true)
                  (Holds-resting i.inv.pending s.channel.queue i.inv.holds rests) fresh)));
    sends = busy ∙ ap some (sym (store_self s.device u e));
    calls = i.calls;
    place = i.place;
  }
  Move-Tracks {s} (write u e busy at) i = record {
    inv = Step-Inv (Queue.write u at) i.inv;
    delivered =
        succeeded-append s.outcomes ((e, true) ∷ [])
        ∙ ap (λ t. t ++ e ∷ []) i.delivered
        ∙ append_assoc s.got (map s.device i.inv.pending) (e ∷ [])
        ∙ ap (λ x. s.got ++ (map s.device i.inv.pending ++ x ∷ []))
            (held_device s.channel.sender s.device u e i.sends at busy)
        ∙ ap (λ t. s.got ++ t) (sym (map-append s.device i.inv.pending (u ∷ [])));
    sends = tt;
    calls = returned_calls s e true busy i.calls;
    place = i.place;
  }
  Move-Tracks {s} (write_fails u e busy at) i = record {
    inv = Step-Inv (Queue.write_fails u at) i.inv;
    delivered = failed_delivered s e _ i.delivered;
    sends = tt;
    calls = returned_calls s e false busy i.calls;
    place = i.place;
  }
  Move-Tracks {s} (read n rests e) i = record {
    inv = Step-Inv (Queue.read n rests e) i.inv;
    delivered = i.delivered;
    sends = i.sends;
    calls = i.calls;
    place = i.place;
  }
  Move-Tracks {s} (find_empty at e) i = absurd (queue_waits i.inv (ap held at) e)
  Move-Tracks {s} (find_entry at e) i = record {
    inv = Step-Inv (Queue.find_entry at e) i.inv;
    delivered = i.delivered;
    sends = i.sends;
    calls = i.calls;
    place = i.place;
  }
  Move-Tracks {s} (take u q at e) i = record {
    inv = Step-Inv (Queue.take u q at e) i.inv;
    delivered =
        i.delivered
        ∙ ap (λ t. s.got ++ map s.device t) (take-pending u q at e i.inv)
        ∙ sym (append_assoc s.got (s.device u ∷ []) _);
    sends = i.sends;
    calls = i.calls;
    place = i.place;
  }

  Runs-Tracks :
      {device : QueueEntry → Event} {s : System}
      → Runs have_devinfo ifnamsiz accepts device s
      → Tracks s
  unfolding udev_monitor_thread new-Inv
  Runs-Tracks start = record {
    inv = new-Inv;
    delivered = refl;
    sends = tt;
    calls = refl;
    place = λ _. (refl, refl);
  }
  Runs-Tracks (then_move r m) = Move-Tracks m (Runs-Tracks r)

  -- In every state that the thread and the client of a monitor reach: the events whose sending has
  -- succeeded are, in this order, those of the devices that the client was given and those of as many
  -- devices as there are bytes in the pipe, and one more while the client is answering a byte; and the
  -- calls of udev_monitor_send_device that have returned, successful or not, with the one that is
  -- running, are in order for the events that udev_monitor_thread sends in the rounds it has made.
  pub Runs-delivered :
      {device : QueueEntry → Event} {s : System}
      → Runs have_devinfo ifnamsiz accepts device s
      → (waiting : List Event) × (succeeded s.outcomes ≡ s.got ++ waiting)
        × (length waiting ≡ s.channel.pipe + held s.channel.receiver)
        × (attempted s.outcomes ++ current s.sending
            ≡ (udev_monitor_thread have_devinfo ifnamsiz accepts s.rounds new_thread).0)
  Runs-delivered {s} r =
      let i = Runs-Tracks r in
      (
        map s.device i.inv.pending,
        i.delivered,
        omega (arith, i.inv.tokens, length-map s.device i.inv.pending),
        i.calls,
      )
