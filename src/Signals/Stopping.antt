-- ===== src/Signals/Stopping.antt =====
-- fork15 stops, and where it does; the busy loop of fork14 need not.
use computer_science.Prelude.{
  ℕ, zero, suc, ◌+◌, ◌-◌, ◌*◌, ◌≤◌, ◌<◌, ◌≡◌, ◌⊎◌, refl, ap, arith, Bool, true, false, inl, inr,
  ltb, Bool-cases,
}
use mathlib.Core.Bool.{true≢false}
use computer_science.Signals.{
  Parent, forking, testing, tested, pausing, returned, Handler, off, waiting, reaped, System,
  resumed, Step, fork, all_forked, test_end, spin, test_more, pause, die, interrupt, wait,
  wait_fails, count, start, Reach, fresh, next,
}
use computer_science.Signals.Reaping.{taken, alarmed, Reaping, Reach-Reaping}

-- How many lines are left to run, at most
abbrev pub parent_rank : Parent → ℕ
parent_rank forking = 4
parent_rank testing = 3
parent_rank tested = 2
parent_rank pausing = 1
parent_rank returned = 0

abbrev pub handler_rank : Handler → ℕ
handler_rank off = 0
handler_rank waiting = 3
handler_rank reaped = 4

measure : ℕ → System → ℕ
measure n s =
    8 * (n - s.forks)
    + 7 * s.running
    + 2 * s.zombies
    + 4 * alarmed s.pending
    + handler_rank s.handler
    + parent_rank s.parent

rank-resumed : (p : Parent) → parent_rank (resumed p) ≤ parent_rank p + 2
rank-resumed forking = omega arith
rank-resumed testing = omega arith
rank-resumed tested = omega arith
rank-resumed pausing = omega arith
rank-resumed returned = omega arith

alarmed-le : (b : Bool) → alarmed b ≤ 1
alarmed-le true = omega arith
alarmed-le false = omega arith

measure-Step :
    {n : ℕ} {s t : System} → Reaping true n s → Step true n s t → measure n t + 1 ≤ measure n s
unfolding measure
measure-Step {n} {s} c (fork h p lt e) = rw e (omega (arith, lt))
measure-Step {n} {s} c (all_forked h p all e) = rw e (omega (arith, ap parent_rank p))
measure-Step {n} {s} c (test_end h p z e) = rw e (omega (arith, ap parent_rank p))
measure-Step {n} {s} c (spin l h p more e) = absurd (true≢false l)
measure-Step {n} {s} c (test_more l h p more e) = rw e (omega (arith, ap parent_rank p))
measure-Step {n} {s} c (pause h p e) = rw e (omega (arith, ap parent_rank p))
measure-Step {n} {s} c (die more e) = rw e (omega (arith, more, alarmed-le s.pending))
measure-Step {n} {s} c (interrupt h p e) = rw e (omega (arith, ap handler_rank h, ap alarmed p))
measure-Step {n} {s} c (wait h more e) = rw e (omega (arith, ap handler_rank h, more))
measure-Step {n} {s} c (wait_fails h r z e) =
    rw e (omega (arith, ap handler_rank h, rank-resumed s.parent))
measure-Step {n} {s} c (count h e) = rw e (omega (arith, ap handler_rank h))

-- A run of so many steps
pub data Steps (loops : Bool) (n : ℕ) : ℕ → System → System → Type 0 where
  stay : {s : System} → Steps loops n 0 s s
  more :
      {k : ℕ} {s t u : System} → Step loops n s t → Steps loops n k t u → Steps loops n (k + 1) s u

Steps-measure :
    {n k : ℕ} {s t : System} → Reach true n s → Steps true n k s t → k + measure n t ≤ measure n s
Steps-measure r stay = omega arith
Steps-measure r (more st rest) =
    omega (arith, measure-Step (Reach-Reaping r) st, Steps-measure (next r st) rest)

-- Every run of fork15 for `n` children has at most 8 * n + 4 steps.
pub Steps-bounded : {n k : ℕ} {s : System} → Steps true n k (start n) s → k ≤ 8 * n + 4
unfolding measure
Steps-bounded run = omega (arith, Steps-measure fresh run)

-- Where fork15 can stop
abbrev pub Stopped : System → Type 0
Stopped s = (s.parent ≡ returned) ⊎ ((s.parent ≡ pausing) × (s.ccount ≡ 0))

abbrev Goes : Bool → ℕ → System → Type 0
Goes loops n s = (t : System) × Step loops n s t

in_wait : (n : ℕ) (s : System) → s.handler ≡ waiting → Goes true n s
in_wait n s e = elim (Bool-cases (ltb 0 s.zombies)) [
  | inl some_zombie ↦ (_, wait e (ground (arith, some_zombie)) refl)
  | inr no_zombie ↦ elim (Bool-cases (ltb 0 s.running)) [
    | inl alive ↦ (_, die (ground (arith, alive)) refl)
    | inr none_alive ↦
        (_, wait_fails e (ground (arith, none_alive)) (ground (arith, no_zombie)) refl)
  ]
]

-- In `pause`, with no handler: a child can end, or a signal is there, or all have been counted.
in_pause :
    (n : ℕ) (s : System)
    → s.handler ≡ off
    → s.forks ≡ n
    → s.ccount + s.forks ≡ n + s.running + s.zombies
    → (s.zombies ≡ 0) ⊎ (s.pending ≡ true)
    → (s.ccount ≡ 0) ⊎ Goes true n s
in_pause n s h all balance (inr p) = inr (_, interrupt h p refl)
in_pause n s h all balance (inl z) = elim (Bool-cases (ltb 0 s.running)) [
  | inl alive ↦ inr (_, die (ground (arith, alive)) refl)
  | inr none_alive ↦ inl (ground (arith, all, balance, z, none_alive))
]

in_parent :
    (n : ℕ) (s : System) (p : Parent)
    → Reaping true n s
    → s.handler ≡ off
    → s.parent ≡ p
    → Stopped s ⊎ Goes true n s
in_parent n s forking c h p = elim (Bool-cases (ltb s.forks n)) [
  | inl left ↦ inr (_, fork h p (ground (arith, left)) refl)
  | inr none_left ↦
      let known : s.forks ≤ n = rw p at c.knows in
      inr (_, all_forked h p (ground (arith, none_left, known)) refl)
]
in_parent n s testing c h p = elim (Bool-cases (ltb 0 s.ccount)) [
  | inl left ↦ inr (_, test_more refl h p (ground (arith, left)) refl)
  | inr none_left ↦ inr (_, test_end h p (ground (arith, none_left)) refl)
]
in_parent n s tested c h p = inr (_, pause h p refl)
in_parent n s pausing c h p =
    let balance : s.ccount + s.forks ≡ n + s.running + s.zombies =
      omega (arith, c.balance, ap taken h) in
    let heard : (s.zombies ≡ 0) ⊎ (s.pending ≡ true) = rw h at c.heard in
    elim (in_pause n s h (rw p at c.knows) balance heard) [
      | inl counted ↦ inl (inr (p, counted))
      | inr goes ↦ inr goes
    ]
in_parent n s returned c h p = inl (inl p)

moves_on :
    (n : ℕ) (s : System) (h : Handler)
    → Reaping true n s
    → s.handler ≡ h
    → Stopped s ⊎ Goes true n s
moves_on n s off c h = in_parent n s s.parent c h refl
moves_on n s waiting c h = inr (in_wait n s h)
moves_on n s reaped c h = inr (_, count h refl)

settles :
    (n fuel : ℕ) (s : System)
    → Reach true n s
    → measure n s < fuel
    → (k : ℕ) × (t : System) × Steps true n k s t × Stopped t
settles n zero s r lt = absurd (omega (arith, lt))
settles n (suc fuel) s r lt = elim (moves_on n s s.handler (Reach-Reaping r) refl) [
  | inl stopped ↦ (0, s, stay, stopped)
  | inr (t, st) ↦
      let (k, u, rest, stopped) =
        settles n fuel t (next r st) (omega (arith, lt, measure-Step (Reach-Reaping r) st)) in
      (k + 1, u, more st rest, stopped)
]

-- From every state that fork15 can reach, some steps lead to where it has returned, or is in a `pause` with
-- every child reaped and counted.
pub Reach-settles :
    {n : ℕ} {s : System} → Reach true n s → (k : ℕ) × (t : System) × Steps true n k s t × Stopped t
Reach-settles {n} {s} r = settles n (measure n s + 1) s r (omega arith)
