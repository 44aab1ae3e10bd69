-- ===== src/Monitor/Delivery.antt =====
-- What the client of a monitor can rely on, whatever the interleaving.
use mathlib.Core.Path.{subst, subst₂}
use libudev_devd.Common.{
  ℕ, ◌+◌, ◌≡◌, ◌≢◌, refl, sym, ap, ◌∙◌, ◌⊎◌, true, List, [], ◌∷◌, ◌++◌, lacks, length,
  length-append, append_assoc, arith,
}
use libudev_devd.Monitor.Queue.{
  QueueEntry, Sender, Receiver, queued, woken, claiming, Channel, remove_entry, Step, insert, write,
  write_fails, read, find_empty, find_entry, take, Reach, start, later, new_channel,
}

-- The bytes that the client has read and not yet answered by taking an entry.
abbrev pub held : Receiver → ℕ
held Receiver.resting = 0
held woken = 1
held claiming = 1

-- The queue holds the pending entries, and behind them the one whose byte is not written yet.
abbrev pub Holds : Sender → List QueueEntry → List QueueEntry → Type 0
Holds Sender.resting pending queue = queue ≡ pending
Holds (queued u) pending queue = (queue ≡ pending ++ u ∷ []) × (lacks u pending ≡ true)

-- `pending` are the entries sent and not yet received: as many as there are bytes for.
pub record Inv (c : Channel) : Type 0 where
  pub pending : List QueueEntry
  pub history : c.sent ≡ c.received ++ pending
  pub tokens : length pending ≡ c.pipe + held c.receiver
  pub holds : Holds c.sender pending c.queue

pub remove_entry-last :
    (u : QueueEntry) (q : List QueueEntry) → lacks u q ≡ true → remove_entry u (q ++ u ∷ []) ≡ q
unfolding remove_entry
remove_entry-last u [] h = ground arith
remove_entry-last u (x ∷ q) h = ground (arith, remove_entry-last u q)

held_one : (r : Receiver) → (r ≡ woken) ⊎ (r ≡ claiming) → held r ≡ 1
held_one r h = ground arith

-- What holds of the sender, seen from an equation about it.
pub Holds-resting : {s : Sender} (p q : List QueueEntry) → Holds s p q → s ≡ Sender.resting → q ≡ p
Holds-resting {s = Sender.resting} p q h e = h
Holds-resting {s = queued u} p q h e = cc

pub Holds-queued :
    {s : Sender} (u : QueueEntry) (p q : List QueueEntry)
    → Holds s p q
    → s ≡ queued u
    → (q ≡ p ++ u ∷ []) × (lacks u p ≡ true)
Holds-queued {s = Sender.resting} u p q h e = cc
Holds-queued {s = queued v} u p q h e = ground arith

-- The head of the queue is the first pending entry.
pub Holds-head :
    (s : Sender) (x : QueueEntry) (p : List QueueEntry) (u : QueueEntry) (q : List QueueEntry)
    → Holds s (x ∷ p) (u ∷ q)
    → (x ≡ u) × Holds s p q
Holds-head Sender.resting x p u q h = ground arith
Holds-head (queued v) x p u q h = ground arith

pending_cons :
    (p : List QueueEntry) (n : ℕ)
    → length p ≡ n + 1
    → (x : QueueEntry) × (p' : List QueueEntry) × (p ≡ x ∷ p') × (length p' ≡ n)
pending_cons [] n h = absurd (omega arith)
pending_cons (x ∷ p) n h = (x, p, refl, omega arith)

pub Holds-cons : (s : Sender) (x : QueueEntry) (p q : List QueueEntry) → Holds s (x ∷ p) q → q ≢ []
Holds-cons Sender.resting x p q h e = ground arith
Holds-cons (queued u) x p q h e = ground arith

-- A client that has read a byte finds an entry: its byte was written behind the entry.
pub claim_pending :
    {c : Channel} (i : Inv c)
    → held c.receiver ≡ 1
    → (x : QueueEntry) × (p : List QueueEntry) × (i.pending ≡ x ∷ p) × (length p ≡ c.pipe)
claim_pending {c} i e = pending_cons i.pending c.pipe (omega (arith, i.tokens))

-- A client that has read a byte finds an entry.
pub queue_waits : {c : Channel} → Inv c → held c.receiver ≡ 1 → c.queue ≢ []
queue_waits {c} i e =
    let (x, p, ep, len) = claim_pending i e in
    Holds-cons c.sender x p c.queue (subst (λ t. Holds c.sender t c.queue) ep i.holds)

unfoldable pub take-Inv :
    {c : Channel} (u : QueueEntry) (q : List QueueEntry)
    → c.receiver ≡ claiming
    → c.queue ≡ u ∷ q
    → Inv c
    → Inv (record c { queue = q; receiver = Receiver.resting; received = c.received ++ u ∷ [] })
take-Inv {c} u q e k i =
    let (x, p, ep, len) = claim_pending i (ap held e) in
    let (same, rest) = Holds-head c.sender x p u q (subst₂ (Holds c.sender) ep k i.holds) in
    record {
      pending = p;
      history =
          i.history
          ∙ ap (λ t. c.received ++ t) (ep ∙ ap (λ t. t ∷ p) same)
          ∙ sym (append_assoc c.received (u ∷ []) p);
      tokens = omega (arith, len);
      holds = rest;
    }

-- The entry that is taken is the first pending one.
pub take-pending :
    {c : Channel} (u : QueueEntry) (q : List QueueEntry) (e : c.receiver ≡ claiming)
    (k : c.queue ≡ u ∷ q) (i : Inv c)
    → i.pending ≡ u ∷ (take-Inv u q e k i).pending
unfolding take-Inv
take-pending {c} u q e k i =
    let (x, p, ep, len) = claim_pending i (ap held e) in
    let (same, rest) = Holds-head c.sender x p u q (subst₂ (Holds c.sender) ep k i.holds) in
    ep ∙ ap (λ t. t ∷ p) same

-- Every step keeps the invariant.
unfoldable pub Step-Inv : {c d : Channel} → Step c d → Inv c → Inv d
Step-Inv {c} (insert u e fresh) i =
    let same = Holds-resting i.pending c.queue i.holds e in
    record {
      pending = i.pending;
      history = i.history;
      tokens = i.tokens;
      holds = (ap (λ t. t ++ u ∷ []) same, rw (← same) fresh);
    }
Step-Inv {c} (write u e) i = record {
  pending = i.pending ++ u ∷ [];
  history = ap (λ t. t ++ u ∷ []) i.history ∙ append_assoc c.received i.pending (u ∷ []);
  tokens = omega (arith, i.tokens, length-append i.pending (u ∷ []));
  holds = (Holds-queued u i.pending c.queue i.holds e).0;
}
Step-Inv {c} (write_fails u e) i =
    let (same, fresh) = Holds-queued u i.pending c.queue i.holds e in
    record {
      pending = i.pending;
      history = i.history;
      tokens = i.tokens;
      holds = ap (remove_entry u) same ∙ remove_entry-last u i.pending fresh;
    }
Step-Inv {c} (read n e k) i = record {
  pending = i.pending;
  history = i.history;
  tokens = omega (arith, i.tokens, ap held e);
  holds = i.holds;
}
Step-Inv {c} (find_empty e k) i =
    let (x, p, ep, len) = claim_pending i (ap held e) in
    absurd (Holds-cons c.sender x p c.queue (subst (λ t. Holds c.sender t c.queue) ep i.holds) k)
Step-Inv {c} (find_entry e k) i = record {
  pending = i.pending;
  history = i.history;
  tokens = omega (arith, i.tokens, ap held e);
  holds = i.holds;
}
Step-Inv {c} (take u q e k) i = take-Inv u q e k i

unfoldable pub new-Inv : Inv new_channel
new-Inv = record { pending = []; history = refl; tokens = refl; holds = refl }

pub Reach-Inv : {c : Channel} → Reach c → Inv c
Reach-Inv start = new-Inv
Reach-Inv (later r s) = Step-Inv s (Reach-Inv r)

-- In every reachable state a client that has read a byte from the pipe finds the queue not empty,
-- so udev_monitor_receive_device returns a device after every read that succeeds.
pub receive-finds_entry :
    {c : Channel} → Reach c → (c.receiver ≡ woken) ⊎ (c.receiver ≡ claiming) → c.queue ≢ []
receive-finds_entry {c} r h =
    let i = Reach-Inv r in
    let (x, p, ep, len) = claim_pending i (held_one c.receiver h) in
    Holds-cons c.sender x p c.queue (subst (λ t. Holds c.sender t c.queue) ep i.holds)

-- In every reachable state the client has been given the entries that were sent, each once and in
-- the order of their sending, but for some that come last: those number the bytes in the pipe, and
-- one more while the client is answering a byte.
pub received_prefix :
    {c : Channel}
    → Reach c
    → (pending : List QueueEntry) × (c.sent ≡ c.received ++ pending)
      × (length pending ≡ c.pipe + held c.receiver)
received_prefix r = let i = Reach-Inv r in (i.pending, i.history, i.tokens)

-- In every reachable state in which the write of a byte is still to be made or has failed,
-- taking the thread's entry out of the queue again leaves exactly the entries that were sent and
-- not yet received.
pub write_fails-restores :
    {c : Channel} (u : QueueEntry)
    → Reach c
    → c.sender ≡ queued u
    → c.sent ≡ c.received ++ remove_entry u c.queue
write_fails-restores {c} u r e =
    let i = Reach-Inv r in
    let (same, fresh) = Holds-queued u i.pending c.queue i.holds e in
    i.history
    ∙ ap (λ t. c.received ++ t)
        (sym (ap (remove_entry u) same ∙ remove_entry-last u i.pending fresh))
