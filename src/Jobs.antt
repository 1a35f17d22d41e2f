-- ===== src/Jobs.antt =====
-- CMU15-213/15-ecf-signals/procmask1.c and procmask2.c: a parent that adds each child to a job list, and a
-- handler of SIGCHLD that reaps children and deletes their jobs. A step is a line of `main`, of the handler,
-- or the end of a child; the handler interrupts `main` in front of any line where a signal is pending and
-- not blocked, and while it runs `main` does not. A signal that comes again while it is pending is not
-- counted. `addjob` and `deletejob`, whose bodies are empty, are recorded. Children are numbered by `Fork`,
-- which does not fail.
pub mod Order
pub mod Stale
use computer_science.Prelude.{
  ℕ, ◌+◌, ◌<◌, ◌≡◌, ◌≢◌, Bool, true, false, List, [], ◌∷◌, ◌==◌, if◌then◌else◌,
}

pub data Child : Type 0 where
  unborn : Child
  running : Child
  zombie : Child
  reaped : Child

-- `main`, by what it has done in the round: nothing; SIGCHLD is blocked, in procmask2.c; the child is there;
-- all signals are blocked; the job is added.
pub data Round : Type 0 where
  ready : Round
  shielded : Round
  forked : (pid : ℕ) → Round
  masked : (pid : ℕ) → Round
  added : (pid : ℕ) → Round

-- The handler: not running, in front of `waitpid`, with a child, with all signals blocked, with the job deleted.
pub data Handler : Type 0 where
  off : Handler
  waiting : Handler
  caught : (pid : ℕ) → Handler
  guarded : (pid : ℕ) → Handler
  deleted : (pid : ℕ) → Handler

pub data JobCall : Type 0 where
  addjob : (pid : ℕ) → JobCall
  deletejob : (pid : ℕ) → JobCall

-- `forks` is the number of children so far, `blocked` whether `main` has blocked SIGCHLD, and `calls` are the
-- calls that change the job list, the newest first.
pub record System : Type 0 where
  pub forks : ℕ
  pub children : ℕ → Child
  pub blocked : Bool
  pub pending : Bool
  pub round : Round
  pub handler : Handler
  pub calls : List JobCall

abbrev pub set : (ℕ → Child) → ℕ → Child → ℕ → Child
set children k c j = if k == j then c else children j

-- The steps of procmask2.c, and at `false` those of procmask1.c, which does not block SIGCHLD in front of
-- `Fork`.
pub data Step (shields : Bool) (s t : System) : Type 0 where
  block :
      shields ≡ true
      → s.handler ≡ off
      → s.round ≡ ready
      → t ≡ record s { blocked = true; round = shielded }
      → Step shields s t
  fork :
      s.handler ≡ off
      → s.round ≡ (if shields then shielded else ready)
      → t ≡ record s {
        forks = s.forks + 1;
        children = set s.children s.forks running;
        round = forked s.forks;
      }
      → Step shields s t
  mask :
      (pid : ℕ)
      → s.handler ≡ off
      → s.round ≡ forked pid
      → t ≡ record s { blocked = true; round = masked pid }
      → Step shields s t
  add :
      (pid : ℕ)
      → s.handler ≡ off
      → s.round ≡ masked pid
      → t ≡ record s { calls = addjob pid ∷ s.calls; round = added pid }
      → Step shields s t
  unmask :
      (pid : ℕ)
      → s.handler ≡ off
      → s.round ≡ added pid
      → t ≡ record s { blocked = false; round = ready }
      → Step shields s t
  -- a child ends
  die :
      (pid : ℕ)
      → s.children pid ≡ running
      → t ≡ record s { children = set s.children pid zombie; pending = true }
      → Step shields s t
  interrupt :
      s.handler ≡ off
      → s.pending ≡ true
      → s.blocked ≡ false
      → t ≡ record s { pending = false; handler = waiting }
      → Step shields s t
  reap :
      (pid : ℕ)
      → s.handler ≡ waiting
      → s.children pid ≡ zombie
      → t ≡ record s { children = set s.children pid reaped; handler = caught pid }
      → Step shields s t
  guard :
      (pid : ℕ) → s.handler ≡ caught pid → t ≡ record s { handler = guarded pid } → Step shields s t
  delete :
      (pid : ℕ)
      → s.handler ≡ guarded pid
      → t ≡ record s { calls = deletejob pid ∷ s.calls; handler = deleted pid }
      → Step shields s t
  unguard :
      (pid : ℕ) → s.handler ≡ deleted pid → t ≡ record s { handler = waiting } → Step shields s t
  -- `waitpid` fails, since no child is left
  resume :
      s.handler ≡ waiting
      → ((pid : ℕ) → (s.children pid ≢ running) × (s.children pid ≢ zombie))
      → t ≡ record s { handler = off }
      → Step shields s t

abbrev pub start : System
start = record {
  forks = 0;
  children = λ k. unborn;
  blocked = false;
  pending = false;
  round = ready;
  handler = off;
  calls = [];
}

pub data Reach (shields : Bool) : System → Type 0 where
  fresh : Reach shields start
  next : {s t : System} → Reach shields s → Step shields s t → Reach shields t
