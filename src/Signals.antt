-- ===== src/Signals.antt =====
-- CMU15-213/14-ecf-procs/forks.c, fork14 and fork15: a parent that counts its children down in a handler of
-- SIGCHLD. A step is a line of the parent or of its handler, or the end of a child. A signal that comes again
-- while it is pending is not counted, and SIGCHLD is blocked while its handler runs. N is a parameter, `fork`
-- does not fail, and what is printed is left out.
pub mod Reaping
pub mod Stopping
pub mod Lost
use computer_science.Prelude.{ℕ, ◌+◌, ◌-◌, ◌<◌, ◌≡◌, Bool, true, false, if◌then◌else◌}

-- The parent: in the loop that forks; in front of the test of `ccount`; behind it; in `pause`; returned.
pub data Parent : Type 0 where
  forking : Parent
  testing : Parent
  tested : Parent
  pausing : Parent
  returned : Parent

-- The handler: not running, in front of `wait`, behind it.
pub data Handler : Type 0 where
  off : Handler
  waiting : Handler
  reaped : Handler

-- `running` and `zombies` are the numbers of children.
pub record System : Type 0 where
  pub forks : ℕ
  pub running : ℕ
  pub zombies : ℕ
  pub pending : Bool
  pub handler : Handler
  pub parent : Parent
  pub ccount : ℕ

-- A `pause` returns with the handler that has interrupted it.
abbrev pub resumed : Parent → Parent
resumed pausing = testing
resumed forking = forking
resumed testing = testing
resumed tested = tested
resumed returned = returned

-- Behind the decrement: child_handler returns, and child_handler2 goes back to its `wait`.
abbrev pub behind_count : Bool → System → System
behind_count true s = record s { ccount = s.ccount - 1; handler = waiting }
behind_count false s = record s { ccount = s.ccount - 1; handler = off; parent = resumed s.parent }

-- Where `wait` fails: child_handler does not look at its result, child_handler2 returns.
abbrev pub behind_failure : Bool → System → System
behind_failure true s = record s { handler = off; parent = resumed s.parent }
behind_failure false s = record s { handler = reaped }

-- The steps for `n` children: at `false` those of fork14, at `true` those of fork15.
pub data Step (loops : Bool) (n : ℕ) (s t : System) : Type 0 where
  fork :
      s.handler ≡ off
      → s.parent ≡ forking
      → s.forks < n
      → t ≡ record s { forks = s.forks + 1; running = s.running + 1 }
      → Step loops n s t
  all_forked :
      s.handler ≡ off
      → s.parent ≡ forking
      → s.forks ≡ n
      → t ≡ record s { parent = testing }
      → Step loops n s t
  test_end :
      s.handler ≡ off
      → s.parent ≡ testing
      → s.ccount ≡ 0
      → t ≡ record s { parent = returned }
      → Step loops n s t
  -- fork14 tests again at once: `while (ccount > 0) ;`
  spin :
      loops ≡ false → s.handler ≡ off → s.parent ≡ testing → 0 < s.ccount → t ≡ s → Step loops n s t
  test_more :
      loops ≡ true
      → s.handler ≡ off
      → s.parent ≡ testing
      → 0 < s.ccount
      → t ≡ record s { parent = tested }
      → Step loops n s t
  pause : s.handler ≡ off → s.parent ≡ tested → t ≡ record s { parent = pausing } → Step loops n s t
  -- a child ends
  die :
      0 < s.running
      → t ≡ record s { running = s.running - 1; zombies = s.zombies + 1; pending = true }
      → Step loops n s t
  interrupt :
      s.handler ≡ off
      → s.pending ≡ true
      → t ≡ record s { pending = false; handler = waiting }
      → Step loops n s t
  wait :
      s.handler ≡ waiting
      → 0 < s.zombies
      → t ≡ record s { zombies = s.zombies - 1; handler = reaped }
      → Step loops n s t
  wait_fails :
      s.handler ≡ waiting
      → s.running ≡ 0
      → s.zombies ≡ 0
      → t ≡ behind_failure loops s
      → Step loops n s t
  count : s.handler ≡ reaped → t ≡ behind_count loops s → Step loops n s t

abbrev pub start : ℕ → System
start n = record {
  forks = 0;
  running = 0;
  zombies = 0;
  pending = false;
  handler = off;
  parent = forking;
  ccount = n;
}

pub data Reach (loops : Bool) (n : ℕ) : System → Type 0 where
  fresh : Reach loops n (start n)
  next : {s t : System} → Reach loops n s → Step loops n s t → Reach loops n t
