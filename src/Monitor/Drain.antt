-- ===== src/Monitor/Drain.antt =====
-- What udev_monitor_receive_device achieves when the client goes on calling it and the monitor's
-- thread stands still.
use libudev_devd.Common.{
  ℕ, zero, suc, subst, ◌+◌, ◌*◌, ◌≡◌, ◌≢◌, refl, sym, ap, ◌∙◌, Bool, true, false, List, [], ◌∷◌,
  ◌++◌, length, append-nil, arith,
}
use libudev_devd.Monitor.Queue.{
  QueueEntry, Receiver, woken, claiming, Channel, Step, insert, write, write_fails, read,
  find_empty, find_entry, take, Reach,
}
use libudev_devd.Monitor.Delivery.{Inv, held, Step-Inv, Reach-Inv, queue_waits}

-- The steps that the client makes.
abbrev pub is_client : {c d : Channel} → Step c d → Bool
is_client (insert u e k) = false
is_client (write u e) = false
is_client (write_fails u e) = false
is_client (read n e k) = true
is_client (find_empty e k) = true
is_client (find_entry e k) = true
is_client (take u q e k) = true

-- Steps of the client alone, and their number.
pub data Served : ℕ → Channel → Channel → Type 0 where
  done : {c : Channel} → Served zero c c
  step :
      {n : ℕ} {c d e : Channel} (s : Step c d)
      → is_client s ≡ true
      → Served n d e
      → Served (suc n) c e

-- The client can go on to a state in which it has all that was sent.
abbrev pub Drained : ℕ → Channel → Type 0
Drained n c = (d : Channel) × Served n c d × (d.received ≡ c.sent) × (d.pipe ≡ 0)

-- The steps for `pipe` bytes: a read, the test and the removal for each.
abbrev rounds : ℕ → ℕ
rounds zero = zero
rounds (suc n) = suc (suc (suc (rounds n)))

rounds_lem : (n : ℕ) → rounds n ≡ 3 * n
rounds_lem zero = refl
rounds_lem (suc n) = omega (arith, rounds_lem n)

nonempty :
    (q : List QueueEntry) → q ≢ [] → (u : QueueEntry) × (rest : List QueueEntry) × (q ≡ u ∷ rest)
nonempty [] h = absurd (h refl)
nonempty (u ∷ rest) h = (u, rest, refl)

empty_of_length : (q : List QueueEntry) → length q ≡ 0 → q ≡ []
empty_of_length [] h = refl
empty_of_length (x ∷ q) h = absurd (omega arith)

no_pending : {c : Channel} (i : Inv c) → c.pipe + held c.receiver ≡ 0 → i.pending ≡ []
no_pending {c} i h = empty_of_length i.pending (i.tokens ∙ h)

-- How the client goes on from a state in which it is between two calls.
abbrev Resumes : ℕ → Type 0
Resumes n =
    (c : Channel) → Inv c → c.receiver ≡ Receiver.resting → c.pipe ≡ n → Drained (rounds n) c

drain_claiming :
    (n : ℕ)
    → Resumes n
    → (c : Channel) → Inv c
    → c.receiver ≡ claiming
    → c.pipe ≡ n
    → Drained (suc (rounds n)) c
drain_claiming n resumes c i e k =
    let (u, q, w) = nonempty c.queue (queue_waits i (ap held e)) in
    let (d, path, all, empty) = resumes _ (Step-Inv (take u q e w) i) refl k in
    (d, step (take u q e w) refl path, all, empty)

drain_woken :
    (n : ℕ)
    → Resumes n
    → (c : Channel) → Inv c
    → c.receiver ≡ woken
    → c.pipe ≡ n
    → Drained (suc (suc (rounds n))) c
drain_woken n resumes c i e k =
    let waits = queue_waits i (ap held e) in
    let (d, path, all, empty) =
      drain_claiming n resumes _ (Step-Inv (find_entry e waits) i) refl k in
    (d, step (find_entry e waits) refl path, all, empty)

drain_resting : (n : ℕ) → Resumes n
drain_resting zero c i e k =
    let none_left = no_pending i (omega (arith, i.tokens, ap held e)) in
    (c, done, sym (i.history ∙ ap (λ t. c.received ++ t) none_left ∙ append-nil c.received), k)
drain_resting (suc n) c i e k =
    let (d, path, all, empty) =
      drain_woken n (drain_resting n) _ (Step-Inv (read n e k) i) refl refl in
    (d, step (read n e k) refl path, all, empty)

-- The steps of the client that are left of its call.
abbrev pub owed : Receiver → ℕ
owed Receiver.resting = 0
owed woken = 2
owed claiming = 1

drain_from :
    (r : Receiver) (c : Channel) → Inv c → c.receiver ≡ r → Drained (rounds c.pipe + owed r) c
drain_from Receiver.resting c i e =
    subst (λ n. Drained n c) (omega arith) (drain_resting c.pipe c i e refl)
drain_from woken c i e =
    subst (λ n. Drained n c) (omega arith) (drain_woken c.pipe (drain_resting c.pipe) c i e refl)
drain_from claiming c i e =
    subst (λ n. Drained n c) (omega arith) (drain_claiming c.pipe (drain_resting c.pipe) c i e refl)

-- From every reachable state the client alone gets to a state in which it has been given every
-- device that was sent and the pipe is empty, in three steps for each byte in the pipe and those
-- that its current call still has to make.
pub client-Drained : {c : Channel} → Reach c → Drained (3 * c.pipe + owed c.receiver) c
client-Drained {c} r =
    subst (λ n. Drained n c) (omega (arith, rounds_lem c.pipe))
      (drain_from c.receiver c (Reach-Inv r) refl)
