-- ===== src/Forks/Counting.antt =====
-- How much the processes of a forest will still print, and how many calls they will make, when none of
-- them waits for another.
use computer_science.Prelude.{ℕ, ◌+◌, ◌<◌, ◌≡◌, refl, arith, List, [], ◌∷◌, ◌++◌, ◌⊎◌, inl, inr}
use computer_science.Forks.{Line, Prog, print, fork, getpid, wait, waitpid, atexit, exit, spin}
use computer_science.Forks.Processes.{
  Status, running, zombie, reaped, Forest, nobody, process, Step, prints, forks, gets_pid, waits,
  waits_for, registers, handles, exits, below, beside,
}

-- A line costs `line_cost`, and any call but printing costs `call_cost`.
module _ (line_cost : Line → ℕ) (call_cost : ℕ) where
  abbrev pub printed : List Line → ℕ
  printed [] = 0
  printed (l ∷ ls) = line_cost l + printed ls

  -- A program with handlers of cost `h` costs `n` whatever numbers its children get, and never waits.
  abbrev pub Costs : Prog → ℕ → ℕ → Type 0
  Costs (print l q) h n = (m : ℕ) × (n ≡ line_cost l + m) × Costs q h m
  Costs (fork k) h n =
      (a : ℕ) × (b : ℕ) × (n ≡ call_cost + a + b)
      × ((c : ℕ) → 0 < c → Costs (k c) h a)
      × Costs (k 0) h b
  Costs (getpid k) h n = (m : ℕ) × (n ≡ call_cost + m) × ((c : ℕ) → Costs (k c) h m)
  Costs (wait k) h n = ⊥
  Costs (waitpid c k) h n = ⊥
  Costs (atexit l q) h n = (m : ℕ) × (n ≡ call_cost + m) × Costs q (line_cost l + h) m
  Costs (exit s) h n = n ≡ call_cost + h
  Costs spin h n = n ≡ 0

  abbrev pub StatusCosts : Status → ℕ → ℕ → Type 0
  StatusCosts (running p) h n = Costs p h n
  StatusCosts (zombie s) h n = n ≡ 0
  StatusCosts reaped h n = n ≡ 0

  abbrev pub ForestCosts : Forest → ℕ → Type 0
  ForestCosts nobody n = n ≡ 0
  ForestCosts (process pid hs st ch sib) n =
      (a : ℕ) × (b : ℕ) × (c : ℕ) × (n ≡ a + b + c)
      × StatusCosts st (printed hs) a
      × ForestCosts ch b
      × ForestCosts sib c

  printed-append : (o l : List Line) → printed (o ++ l) ≡ printed o + printed l
  printed-append [] l = omega arith
  printed-append (x ∷ o) l = omega (arith, printed-append o l)

  -- What one step leaves: it costs the one line that it prints, or `call_cost`.
  abbrev pub Paid : List Line → ℕ → Forest → Type 0
  Paid o n g =
      (m : ℕ) × (((l : Line) × (o ≡ l ∷ []) × (n ≡ line_cost l + m))
        ⊎ ((o ≡ []) × (n ≡ call_cost + m)))
      × ForestCosts g m

  Paid-elsewhere :
      (o : List Line) (b m r : ℕ) (g : Forest)
      → ((l : Line) × (o ≡ l ∷ []) × (b ≡ line_cost l + m)) ⊎ ((o ≡ []) × (b ≡ call_cost + m))
      → ForestCosts g (m + r)
      → Paid o (b + r) g
  Paid-elsewhere o b m r g (inl (l, e, f)) costs = (m + r, inl (l, e, omega (arith, f)), costs)
  Paid-elsewhere o b m r g (inr (e, f)) costs = (m + r, inr (e, omega (arith, f)), costs)

  pub Step-Paid :
      {f g : Forest} {o : List Line} → Step f o g → (n : ℕ) → ForestCosts f n → Paid o n g
  Step-Paid prints n (a, b, c, e, (m, e1, q), ch, sib) =
      (m + b + c, inl (_, refl, omega (arith, e, e1)), (m, b, c, refl, q, ch, sib))
  Step-Paid (forks i h) n (a, b, c, e, (p, q, e1, kp, kq), ch, sib) = (
    p + (q + 0 + b) + c,
    inr (refl, omega (arith, e, e1)),
    (p, q + 0 + b, c, refl, kp i h, (q, 0, b, refl, kq, refl, ch), sib),
  )
  Step-Paid gets_pid n (a, b, c, e, (m, e1, k), ch, sib) =
      (m + b + c, inr (refl, omega (arith, e, e1)), (m, b, c, refl, k _, ch, sib))
  Step-Paid (waits r) n (a, b, c, e, k, ch, sib) = absurd k
  Step-Paid (waits_for r) n (a, b, c, e, k, ch, sib) = absurd k
  Step-Paid registers n (a, b, c, e, (m, e1, q), ch, sib) =
      (m + b + c, inr (refl, omega (arith, e, e1)), (m, b, c, refl, q, ch, sib))
  Step-Paid (handles {hs = hs}) n (a, b, c, e, e1, ch, sib) = (
    call_cost + printed hs + b + c,
    inl (_, refl, omega (arith, e, e1)),
    (call_cost + printed hs, b, c, refl, refl, ch, sib),
  )
  Step-Paid exits n (a, b, c, e, e1, ch, sib) =
      (b + c, inr (refl, omega (arith, e, e1)), (0, b, c, omega arith, refl, ch, sib))
  Step-Paid {g = g} {o} (below st) n (a, b, c, e, s, ch, sib) =
      let (m, cost, ch') = Step-Paid st b ch in
      let split : n ≡ b + (a + c) = omega (arith, e) in
      rw split (Paid-elsewhere o b m (a + c) g cost (a, m, c, omega arith, s, ch', sib))
  Step-Paid {g = g} {o} (beside st) n (a, b, c, e, s, ch, sib) =
      let (m, cost, sib') = Step-Paid st c sib in
      let split : n ≡ c + (a + b) = omega (arith, e) in
      rw split (Paid-elsewhere o c m (a + b) g cost (a, b, m, omega arith, s, ch, sib'))

-- Nobody runs, but in an infinite loop.
abbrev pub StatusHalted : Status → Type 0
StatusHalted (running spin) = Unit
StatusHalted (running p) = ⊥
StatusHalted s = Unit

abbrev pub Halted : Forest → Type 0
Halted nobody = Unit
Halted (process pid hs st ch sib) = StatusHalted st × Halted ch × Halted sib

StatusCosts-zero :
    (cost : Line → ℕ) (call h n : ℕ) (st : Status)
    → StatusHalted st
    → StatusCosts cost call st h n
    → n ≡ 0
StatusCosts-zero cost call h n (running (print l q)) d c = absurd d
StatusCosts-zero cost call h n (running (fork k)) d c = absurd d
StatusCosts-zero cost call h n (running (getpid k)) d c = absurd d
StatusCosts-zero cost call h n (running (wait k)) d c = absurd d
StatusCosts-zero cost call h n (running (waitpid p k)) d c = absurd d
StatusCosts-zero cost call h n (running (atexit l q)) d c = absurd d
StatusCosts-zero cost call h n (running (exit s)) d c = absurd d
StatusCosts-zero cost call h n (running spin) d c = c
StatusCosts-zero cost call h n (zombie s) d c = c
StatusCosts-zero cost call h n reaped d c = c

pub ForestCosts-zero :
    (cost : Line → ℕ) (call n : ℕ) (f : Forest) → Halted f → ForestCosts cost call f n → n ≡ 0
ForestCosts-zero cost call n nobody d c = c
ForestCosts-zero cost call n (process pid hs st ch sib) (d, dch, dsib) (a, b, c, e, s, cch, csib) =
    omega (
      arith,
      e,
      StatusCosts-zero cost call (printed cost call hs) a st d s,
      ForestCosts-zero cost call b ch dch cch,
      ForestCosts-zero cost call c sib dsib csib,
    )

-- Without waiting, whoever does not halt can make a call.
abbrev pub Moves : Forest → Type 0
Moves f = (o : List Line) × (g : Forest) × Step f o g

StatusCosts-Moves :
    (cost : Line → ℕ) (call h n pid : ℕ) (hs : List Line) (st : Status) (ch sib : Forest)
    → StatusCosts cost call st h n
    → StatusHalted st ⊎ Moves (process pid hs st ch sib)
StatusCosts-Moves cost call h n pid hs (running (print l q)) ch sib c = inr (_, _, prints)
StatusCosts-Moves cost call h n pid hs (running (fork k)) ch sib c =
    inr (_, _, forks 1 (omega arith))
StatusCosts-Moves cost call h n pid hs (running (getpid k)) ch sib c = inr (_, _, gets_pid)
StatusCosts-Moves cost call h n pid hs (running (wait k)) ch sib c = absurd c
StatusCosts-Moves cost call h n pid hs (running (waitpid p k)) ch sib c = absurd c
StatusCosts-Moves cost call h n pid hs (running (atexit l q)) ch sib c = inr (_, _, registers)
StatusCosts-Moves cost call h n pid [] (running (exit s)) ch sib c = inr (_, _, exits)
StatusCosts-Moves cost call h n pid (l ∷ hs) (running (exit s)) ch sib c = inr (_, _, handles)
StatusCosts-Moves cost call h n pid hs (running spin) ch sib c = inl tt
StatusCosts-Moves cost call h n pid hs (zombie s) ch sib c = inl tt
StatusCosts-Moves cost call h n pid hs reaped ch sib c = inl tt

pub ForestCosts-Moves :
    (cost : Line → ℕ) (call n : ℕ) (f : Forest) → ForestCosts cost call f n → Halted f ⊎ Moves f
ForestCosts-Moves cost call n nobody c = inl tt
ForestCosts-Moves cost call n (process pid hs st ch sib) (a, b, c, e, s, cch, csib) =
    elim (StatusCosts-Moves cost call (printed cost call hs) a pid hs st ch sib s) [
      | inr moves ↦ inr moves
      | inl d ↦ elim (ForestCosts-Moves cost call b ch cch) [
        | inr (o, g, st) ↦ inr (o, _, below st)
        | inl dch ↦ elim (ForestCosts-Moves cost call c sib csib) [
          | inr (o, g, st) ↦ inr (o, _, beside st)
          | inl dsib ↦ inl (d, dch, dsib)
        ]
      ]
    ]
