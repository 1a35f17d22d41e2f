-- ===== src/Jobs/Order.antt =====
-- procmask2.c deletes a job only behind its addition.
use computer_science.Prelude.{
  ℕ, ◌+◌, ◌-◌, ◌≤◌, ◌<◌, ◌≡◌, ◌⊎◌, ◌∙◌, refl, sym, arith, Bool, true, false, List, [], ◌∷◌, ◌==◌,
  ==_iff, inl, inr, ltb, Bool-cases,
}
use mathlib.Core.Bool.{true≢false}
use computer_science.Jobs.{
  Child, unborn, running, zombie, reaped, Round, ready, shielded, forked, masked, added, Handler,
  off, waiting, caught, guarded, deleted, JobCall, addjob, deletejob, System, set, Step, block,
  fork, mask, add, unmask, die, interrupt, reap, guard, delete, unguard, resume, Reach, fresh, next,
}

abbrev pub Added : ℕ → List JobCall → Type 0
Added pid [] = ⊥
Added pid (addjob p ∷ calls) = (p ≡ pid) ⊎ Added pid calls
Added pid (deletejob p ∷ calls) = Added pid calls

-- Every deletion stands behind the addition of the same child.
abbrev pub InOrder : List JobCall → Type 0
InOrder [] = Unit
InOrder (addjob p ∷ calls) = InOrder calls
InOrder (deletejob p ∷ calls) = Added p calls × InOrder calls

-- Children that have been forked and whose jobs are not still to be added.
abbrev settled : Round → ℕ → ℕ
settled ready forks = forks
settled shielded forks = forks
settled (forked pid) forks = forks - 1
settled (masked pid) forks = forks - 1
settled (added pid) forks = forks

-- What holds of the round: its child is the last one, and SIGCHLD is blocked behind its start.
abbrev Shields : Bool → ℕ → Round → Type 0
Shields blocked forks ready = Unit
Shields blocked forks shielded = blocked ≡ true
Shields blocked forks (forked pid) = (blocked ≡ true) × (pid + 1 ≡ forks)
Shields blocked forks (masked pid) = (blocked ≡ true) × (pid + 1 ≡ forks)
Shields blocked forks (added pid) = blocked ≡ true

-- The handler runs only in front of a round, and has a child that is there.
abbrev Handles : Round → ℕ → Handler → Type 0
Handles round forks off = Unit
Handles round forks waiting = round ≡ ready
Handles round forks (caught pid) = (round ≡ ready) × (pid < forks)
Handles round forks (guarded pid) = (round ≡ ready) × (pid < forks)
Handles round forks (deleted pid) = round ≡ ready

abbrev Births : ℕ → (ℕ → Child) → Type 0
Births forks children = (pid : ℕ) → forks ≤ pid → children pid ≡ unborn

record Orderly (s : System) : Type 0 where
  order : InOrder s.calls
  jobs : (pid : ℕ) → pid < settled s.round s.forks → Added pid s.calls
  shields : Shields s.blocked s.forks s.round
  handles : Handles s.round s.forks s.handler
  births : Births s.forks s.children

abbrev Born : Child → Type 0
Born unborn = ⊥
Born c = Unit

Born-below :
    (forks : ℕ) (children : ℕ → Child) (pid : ℕ)
    → Births forks children
    → Born (children pid)
    → pid < forks
Born-below forks children pid births born = elim (Bool-cases (ltb pid forks)) [
  | inl below ↦ ground (arith, below)
  | inr above ↦ absurd (rw (births pid (ground (arith, above))) at born)
]

Births-set :
    (forks : ℕ) (children : ℕ → Child) (pid : ℕ) (c : Child)
    → pid < forks
    → Births forks children
    → Births forks (set children pid c)
Births-set forks children pid c below births q le =
    let other : (pid == q) ≡ false = ground (arith, below, le) in rw other (births q le)

-- A signal that is not blocked comes in front of a round.
Shields-ready :
    (blocked : Bool) (forks : ℕ) (round : Round)
    → Shields blocked forks round
    → blocked ≡ false
    → round ≡ ready
Shields-ready blocked forks ready h free = refl
Shields-ready blocked forks shielded h free = absurd (true≢false (sym h ∙ free))
Shields-ready blocked forks (forked pid) h free = absurd (true≢false (sym h.0 ∙ free))
Shields-ready blocked forks (masked pid) h free = absurd (true≢false (sym h.0 ∙ free))
Shields-ready blocked forks (added pid) h free = absurd (true≢false (sym h ∙ free))

Added-next :
    (forks pid p : ℕ) (calls : List JobCall)
    → pid + 1 ≡ forks
    → p < forks
    → (p < forks - 1 → Added p calls)
    → Added p (addjob pid ∷ calls)
Added-next forks pid p calls last lt old = elim (Bool-cases (pid == p)) [
  | inl same ↦ inl ((==_iff pid p).0 same)
  | inr other ↦ inr (old (ground (arith, other, last, lt)))
]

Step-Orderly : {s t : System} → Step true s t → Orderly s → Orderly t
Step-Orderly {s} (block sh h r e) c = rw e (record {
  order = c.order;
  jobs = rw r at c.jobs;
  shields = refl;
  handles = rw h tt;
  births = c.births;
})
Step-Orderly {s} (fork h r e) c = rw e (record {
  order = c.order;
  jobs = λ pid lt. (rw r at c.jobs) pid (omega (arith, lt));
  shields = (rw r at c.shields, refl);
  handles = rw h tt;
  births =
      Births-set (s.forks + 1) s.children s.forks running (omega arith)
        (λ pid le. c.births pid (omega arith));
})
Step-Orderly {s} (mask pid h r e) c = rw e (record {
  order = c.order;
  jobs = rw r at c.jobs;
  shields = (refl, (rw r at c.shields).1);
  handles = rw h tt;
  births = c.births;
})
Step-Orderly {s} (add pid h r e) c = rw e (record {
  order = c.order;
  jobs = λ p lt. Added-next s.forks pid p s.calls (rw r at c.shields).1 lt ((rw r at c.jobs) p);
  shields = (rw r at c.shields).0;
  handles = rw h tt;
  births = c.births;
})
Step-Orderly {s} (unmask pid h r e) c = rw e (record {
  order = c.order;
  jobs = rw r at c.jobs;
  shields = tt;
  handles = rw h tt;
  births = c.births;
})
Step-Orderly {s} (die pid alive e) c =
    let born : Born (s.children pid) = rw alive tt in
    rw e (record {
      order = c.order;
      jobs = c.jobs;
      shields = c.shields;
      handles = c.handles;
      births =
          Births-set s.forks s.children pid zombie (Born-below s.forks s.children pid c.births born)
            c.births;
    })
Step-Orderly {s} (interrupt h p free e) c = rw e (record {
  order = c.order;
  jobs = c.jobs;
  shields = c.shields;
  handles = Shields-ready s.blocked s.forks s.round c.shields free;
  births = c.births;
})
Step-Orderly {s} (reap pid h z e) c =
    let born : Born (s.children pid) = rw z tt in
    let below = Born-below s.forks s.children pid c.births born in
    rw e (record {
      order = c.order;
      jobs = c.jobs;
      shields = c.shields;
      handles = (rw h at c.handles, below);
      births = Births-set s.forks s.children pid reaped below c.births;
    })
Step-Orderly {s} (guard pid h e) c = rw e (record {
  order = c.order;
  jobs = c.jobs;
  shields = c.shields;
  handles = rw h at c.handles;
  births = c.births;
})
Step-Orderly {s} (delete pid h e) c =
    let there = rw h at c.handles in
    let job : Added pid s.calls = (rw there.0 at c.jobs) pid there.1 in
    rw e (record {
      order = (job, c.order);
      jobs = c.jobs;
      shields = c.shields;
      handles = there.0;
      births = c.births;
    })
Step-Orderly {s} (unguard pid h e) c = rw e (record {
  order = c.order;
  jobs = c.jobs;
  shields = c.shields;
  handles = rw h at c.handles;
  births = c.births;
})
Step-Orderly {s} (resume h gone e) c = rw e (record {
  order = c.order;
  jobs = c.jobs;
  shields = c.shields;
  handles = tt;
  births = c.births;
})

Reach-Orderly : {s : System} → Reach true s → Orderly s
Reach-Orderly fresh = record {
  order = tt;
  jobs = λ pid lt. absurd (omega (arith, lt));
  shields = tt;
  handles = tt;
  births = λ pid le. refl;
}
Reach-Orderly (next r st) = Step-Orderly st (Reach-Orderly r)

-- In every interleaving of procmask2.c with the ends of its children, each job that the handler deletes was
-- added before.
pub Reach-InOrder : {s : System} → Reach true s → InOrder s.calls
Reach-InOrder r = (Reach-Orderly r).order
