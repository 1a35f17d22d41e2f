-- ===== src/Taskq/Joining.antt =====
-- `join_tasks` against threads that go on spawning tasks. The queue is the list of its threads, which
-- Taskq/Queue shows it to be; a step is one critical section, one end of a thread, or one return from
-- `Pthread_join`.
use computer_science.Prelude.{
  ℕ, ◌+◌, ◌<◌, ◌≡◌, ◌∙◌, refl, ap, arith, ◌⊎◌, inl, inr, Bool, true, false, List, [], ◌∷◌, ◌++◌,
  ◌==◌, if◌then◌else◌, Bool-cases, ==_iff,
}
-- What the thread that calls `spawn_task` and then `join_tasks` is doing.
use mathlib.Core.Path.{subst}

pub data Reaper : Type 0 where
  spawning : Reaper
  looking : Reaper
  waiting : (tid : ℕ) → Reaper
  returned : Reaper

-- Threads are numbered as they are created; `finished` says which have returned from their routine.
pub record System : Type 0 where
  pub created : ℕ
  pub finished : ℕ → Bool
  pub queue : List ℕ
  pub reaper : Reaper

abbrev pub spawned : System → System
spawned s = record s { created = s.created + 1; queue = s.queue ++ s.created ∷ [] }

pub data Step (s t : System) : Type 0 where
  -- `spawn_task` by the reaper, before it joins, and by a running task
  first_spawn : s.reaper ≡ spawning → t ≡ spawned s → Step s t
  spawn : (tid : ℕ) → tid < s.created → s.finished tid ≡ false → t ≡ spawned s → Step s t
  -- a task returns from its routine
  finish :
      (tid : ℕ)
      → tid < s.created
      → t ≡ record s { finished = λ k. if k == tid then true else s.finished k }
      → Step s t
  -- `join_tasks` is called
  join : s.reaper ≡ spawning → t ≡ record s { reaper = looking } → Step s t
  -- a pass that finds a thread, its `Pthread_join`, and a pass that finds none
  take :
      (tid : ℕ) (rest : List ℕ)
      → s.reaper ≡ looking
      → s.queue ≡ tid ∷ rest
      → t ≡ record s { queue = rest; reaper = waiting tid }
      → Step s t
  reap :
      (tid : ℕ)
      → s.reaper ≡ waiting tid
      → s.finished tid ≡ true
      → t ≡ record s { reaper = looking }
      → Step s t
  return : s.reaper ≡ looking → s.queue ≡ [] → t ≡ record s { reaper = returned } → Step s t

abbrev pub created_queue : System
created_queue = record { created = 0; finished = λ k. false; queue = []; reaper = spawning }

pub data Reach : System → Type 0 where
  fresh : Reach created_queue
  next : {s t : System} → Reach s → Step s t → Reach t

abbrev Queued : ℕ → List ℕ → Type 0
Queued a [] = ⊥
Queued a (q ∷ qs) = (a ≡ q) ⊎ Queued a qs

abbrev Awaited : ℕ → Reaper → Type 0
Awaited a (waiting tid) = a ≡ tid
Awaited a r = ⊥

Queued-append_left : (a b : ℕ) (qs : List ℕ) → Queued a qs → Queued a (qs ++ b ∷ [])
Queued-append_left a b [] h = absurd h
Queued-append_left a b (q ∷ qs) (inl e) = inl e
Queued-append_left a b (q ∷ qs) (inr h) = inr (Queued-append_left a b qs h)

Queued-append_self : (b : ℕ) (qs : List ℕ) → Queued b (qs ++ b ∷ [])
Queued-append_self b [] = inl refl
Queued-append_self b (q ∷ qs) = inr (Queued-append_self b qs)

-- Every thread has finished, is in the queue, or is being waited for; after the return all have
-- finished.
abbrev Known : System → ℕ → Type 0
Known s k = (s.finished k ≡ true) ⊎ (Queued k s.queue ⊎ Awaited k s.reaper)

record IsKept (s : System) : Type 0 where
  known : (k : ℕ) → k < s.created → Known s k
  over : s.reaper ≡ returned → (k : ℕ) → k < s.created → s.finished k ≡ true

spawned-IsKept : (s : System) → (s.reaper ≡ returned → ⊥) → IsKept s → IsKept (spawned s)
spawned-IsKept s open' i = record {
  known = λ k h. elim (Bool-cases (k == s.created)) [
    | inl last ↦ inr (inl (rw ((==_iff k s.created).0 last) (Queued-append_self s.created s.queue)))
    | inr earlier ↦ elim (i.known k (ground arith)) [
      | inl done ↦ inl done
      | inr (inl held) ↦ inr (inl (Queued-append_left k s.created s.queue held))
      | inr (inr awaited) ↦ inr (inr awaited)
    ]
  ];
  over = λ e. absurd (open' e);
}

Step-IsKept : {s t : System} → Step s t → IsKept s → IsKept t
Step-IsKept {s} (first_spawn r e) i = rw e (spawned-IsKept s (λ o. cc) i)
Step-IsKept {s} (spawn tid lt running e) i = rw e (spawned-IsKept s (λ o. cc (i.over o tid lt)) i)
Step-IsKept {s} (finish tid lt e) i = rw e (record {
  known = λ k h. elim (Bool-cases (k == tid)) [
    | inl now ↦ inl (ground (arith, now))
    | inr other ↦ elim (i.known k h) [
      | inl done ↦ inl (ground (arith, other, done))
      | inr held ↦ inr held
    ]
  ];
  over = λ o k h. elim (Bool-cases (k == tid)) [
    | inl now ↦ ground (arith, now)
    | inr other ↦ ground (arith, other, i.over o k h)
  ];
})
Step-IsKept {s} (join r e) i = rw e (record {
  known = λ k h. elim (i.known k h) [
    | inl done ↦ inl done
    | inr (inl held) ↦ inr (inl held)
    | inr (inr awaited) ↦ absurd (subst (Awaited k) r awaited)
  ];
  over = λ o. cc;
})
Step-IsKept {s} (take tid rest r q e) i = rw e (record {
  known = λ k h. elim (i.known k h) [
    | inl done ↦ inl done
    | inr (inl held) ↦ elim (subst (Queued k) q held) [
      | inl first ↦ inr (inr first)
      | inr later ↦ inr (inl later)
    ]
    | inr (inr awaited) ↦ absurd (subst (Awaited k) r awaited)
  ];
  over = λ o. cc;
})
Step-IsKept {s} (reap tid r f e) i = rw e (record {
  known = λ k h. elim (i.known k h) [
    | inl done ↦ inl done
    | inr (inl held) ↦ inr (inl held)
    | inr (inr awaited) ↦ inl (ap s.finished (subst (Awaited k) r awaited) ∙ f)
  ];
  over = λ o. cc;
})
Step-IsKept {s} (return r q e) i =
    let done : (k : ℕ) → k < s.created → s.finished k ≡ true = λ k h. elim (i.known k h) [
      | inl done ↦ done
      | inr (inl held) ↦ absurd (subst (Queued k) q held)
      | inr (inr awaited) ↦ absurd (subst (Awaited k) r awaited)
    ] in
    rw e (record { known = λ k h. inl (done k h); over = λ o. done })

Reach-IsKept : {s : System} → Reach s → IsKept s
Reach-IsKept fresh = record { known = λ k h. absurd (omega (arith, h)); over = λ o. cc }
Reach-IsKept (next r step) = Step-IsKept step (Reach-IsKept r)

-- In every interleaving, `join_tasks` has returned only when every thread that was ever spawned has
-- finished, also the ones that running tasks spawn while it waits; and no thread is running then that
-- could spawn another.
pub Reach-finished :
    (s : System) → Reach s → s.reaper ≡ returned → (k : ℕ) → k < s.created → s.finished k ≡ true
Reach-finished s r = (Reach-IsKept r).over
