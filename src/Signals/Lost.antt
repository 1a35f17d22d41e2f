-- ===== src/Signals/Lost.antt =====
-- Runs in which a signal is lost, and the parent waits for ever.
use mathlib.Core.Path.{subst}
use computer_science.Prelude.{
  ℕ, zero, suc, ◌+◌, ◌-◌, ◌≤◌, ◌<◌, ◌≡◌, refl, ap, ap₂, arith, Bool, true, false, ◌⊎◌, inl, inr,
}
use computer_science.Signals.Reaping.{alarmed}
use computer_science.Signals.Stopping.{parent_rank, handler_rank}
use computer_science.Signals.{
  Parent, testing, tested, pausing, Handler, waiting, System, Step, fork, all_forked, test_end,
  spin, test_more, pause, die, interrupt, wait, wait_fails, count, start, Reach, fresh, next,
}

-- The parent has forked so many of its children.
abbrev forked_so_far : (n k : ℕ) → System
forked_so_far n k = record (start n) { forks = k; running = k }

forks : {loops : Bool} (n k : ℕ) → k ≤ n → Reach loops n (forked_so_far n k)
forks n zero le = fresh
forks n (suc k) le =
    next (forks n k (omega arith))
      (fork refl refl (omega arith) (ap (forked_so_far n) (omega arith)))

-- All are forked, and some have ended.
abbrev ended_so_far : ℕ → Parent → (running zombies : ℕ) → Bool → System
ended_so_far n parent running zombies pending = record (start n) {
  forks = n;
  running = running;
  zombies = zombies;
  pending = pending;
  parent = parent;
}

deaths :
    {loops : Bool} (n : ℕ) (parent : Parent) (r z : ℕ) (b : Bool)
    → Reach loops n (ended_so_far n parent (suc r) z b)
    → Reach loops n (ended_so_far n parent 0 (z + suc r) true)
deaths n parent zero z b run = next run (
    die (omega arith)
      (ap₂ (λ (r m : ℕ). ended_so_far n parent r m true) (omega arith) (omega arith)))
deaths {loops} n parent (suc r) z b run =
    subst (λ (m : ℕ). Reach loops n (ended_so_far n parent 0 m true)) (omega arith)
      (deaths n parent r (z + 1) true (
        next run
          (die (omega arith) (ap (λ (m : ℕ). ended_so_far n parent m (z + 1) true) (omega arith)))))

-- All children of fork14 have ended in front of its first handler.
all_ended : (n : ℕ) → Reach false (suc n) (ended_so_far (suc n) testing 0 (suc n) true)
all_ended n =
    subst (λ (m : ℕ). Reach false (suc n) (ended_so_far (suc n) testing 0 m true)) (omega arith)
      (deaths (suc n) testing n 0 false
        (next (forks (suc n) (suc n) (omega arith)) (all_forked refl refl refl refl)))

-- One child is counted.
abbrev one_counted : ℕ → System
one_counted n = record (start n) { forks = n; zombies = n - 1; parent = testing; ccount = n - 1 }

one_counted-Reach : (n : ℕ) → Reach false (suc n) (one_counted (suc n))
one_counted-Reach n =
    let r1 = next (all_ended n) (interrupt refl refl refl) in
    next (next r1 (wait refl (omega arith) refl)) (count refl refl)

-- Nothing changes any more: fork14 can only test again.
abbrev pub Stuck : Bool → ℕ → System → Type 0
Stuck loops n s = (t : System) → Step loops n s t → t ≡ s

-- No handler, no signal, no child; and the parent in its test with a count left, or in `pause`
abbrev AtRest : Bool → System → Type 0
AtRest loops s =
    (handler_rank s.handler ≡ 0)
    × (alarmed s.pending ≡ 0)
    × (s.running ≡ 0)
    × (((parent_rank s.parent ≡ 3) × (alarmed loops ≡ 0) × (0 < s.ccount))
        ⊎ (parent_rank s.parent ≡ 1))

AtRest-Stuck : (loops : Bool) (n : ℕ) (s : System) → AtRest loops s → Stuck loops n s
AtRest-Stuck loops n s (h, b, r, w) t st = elim st [
  | fork h1 p1 lt e ↦ absurd (omega (arith, w, ap parent_rank p1))
  | all_forked h1 p1 all e ↦ absurd (omega (arith, w, ap parent_rank p1))
  | test_end h1 p1 z e ↦ absurd (omega (arith, w, ap parent_rank p1, z))
  | spin l1 h1 p1 more e ↦ e
  | test_more l1 h1 p1 more e ↦ absurd (omega (arith, w, ap parent_rank p1, ap alarmed l1))
  | pause h1 p1 e ↦ absurd (omega (arith, w, ap parent_rank p1))
  | die more e ↦ absurd (omega (arith, r, more))
  | interrupt h1 b1 e ↦ absurd (omega (arith, b, ap alarmed b1))
  | wait h1 more e ↦ absurd (omega (arith, h, ap handler_rank h1))
  | wait_fails h1 r1 z e ↦ absurd (omega (arith, h, ap handler_rank h1))
  | count h1 e ↦ absurd (omega (arith, h, ap handler_rank h1))
]

-- For two or more children, fork14 can reach a state in which all of them have ended, only one is counted,
-- and nothing changes any more: the signals of the others were lost, and its loop never ends.
Reach-Stuck :
    (n : ℕ)
    → (s : System) × Reach false (suc (suc n)) s
      × (s.running ≡ 0)
      × (s.ccount ≡ n + 1)
      × Stuck false (suc (suc n)) s
Reach-Stuck n = (
  one_counted (suc (suc n)),
  one_counted-Reach (suc n),
  refl,
  omega arith,
  AtRest-Stuck false (suc (suc n)) (one_counted (suc (suc n)))
      (refl, refl, refl, inl (refl, refl, omega arith)),
)

-- fork15, behind its test, with all children ended and the handler running: so many are left to reap.
abbrev reaping : (n left : ℕ) → Handler → System
reaping n left handler = record (start n) {
  forks = n;
  zombies = left;
  handler = handler;
  parent = tested;
  ccount = left;
}

reap_all : (n left : ℕ) → Reach true n (reaping n left waiting) → Reach true n (reaping n 0 waiting)
reap_all n zero r = r
reap_all n (suc left) r =
    let r1 = next r (wait refl (omega arith) refl) in
    reap_all n left (next r1 (count refl (ap (λ (m : ℕ). reaping n m waiting) (omega arith))))

-- The parent is in `pause`, and every child is reaped.
abbrev asleep : ℕ → System
asleep n = record (start n) { forks = n; parent = pausing; ccount = 0 }

asleep-Reach : (n : ℕ) → Reach true (suc n) (asleep (suc n))
asleep-Reach n =
    let r1 = next (forks (suc n) (suc n) (omega arith)) (all_forked refl refl refl refl) in
    let r2 = next r1 (test_more refl refl refl (omega arith) refl) in
    let r3 =
      subst (λ (m : ℕ). Reach true (suc n) (ended_so_far (suc n) tested 0 m true)) (omega arith)
        (deaths (suc n) tested n 0 false r2) in
    let r4 : Reach true (suc n) (reaping (suc n) (suc n) waiting) =
      next r3 (interrupt refl refl refl) in
    let r5 = next (reap_all (suc n) (suc n) r4) (wait_fails refl refl refl refl) in
    next r5 (pause refl refl refl)

-- For one or more children, fork15 can reach a state in which it is in `pause`, every child is reaped and
-- counted, and no signal will come to wake it: they came between its test and its `pause`.
Reach-asleep :
    (n : ℕ)
    → (s : System) × Reach true (suc n) s
      × (s.parent ≡ pausing)
      × (s.ccount ≡ 0)
      × Stuck true (suc n) s
Reach-asleep n = (
  asleep (suc n),
  asleep-Reach n,
  refl,
  refl,
  AtRest-Stuck true (suc n) (asleep (suc n)) (refl, refl, refl, inr refl),
)
