-- ===== src/Forks/Ending.antt =====
-- Runs of processes that do not wait for one another.
use mathlib.Core.Path.{subst}
use computer_science.Prelude.{
  ℕ, zero, suc, ◌+◌, ◌*◌, ◌≤◌, ◌≡◌, refl, sym, arith, List, [], ◌∷◌, ◌++◌, inl, inr, append_assoc,
  append-nil,
}
use computer_science.Forks.{Line, Prog}
use computer_science.Forks.Processes.{Forest, Step, Run, stay, then_step, alone}
use computer_science.Forks.Counting.{
  printed, Costs, ForestCosts, Step-Paid, Halted, ForestCosts-zero, ForestCosts-Moves,
}

printed-append :
    (cost : Line → ℕ) (o l : List Line)
    → printed cost 0 (o ++ l) ≡ printed cost 0 o + printed cost 0 l
printed-append cost [] l = omega arith
printed-append cost (x ∷ o) l = omega (arith, printed-append cost o l)

Run-printed :
    (cost : Line → ℕ) (n : ℕ) {f : Forest} {k : ℕ} {o : List Line} {g : Forest}
    → Run f k o g
    → ForestCosts cost 0 f n
    → (m : ℕ) × (n ≡ printed cost 0 o + m) × ForestCosts cost 0 g m
Run-printed cost n stay c = (n, omega arith, c)
Run-printed cost n (then_step {steps} {o} {l} {g} {h} r st) c =
    let (m, e, c1) = Run-printed cost n r c in
    let (m', paid, c2) = Step-Paid cost 0 st m c1 in
    elim paid [
      | inl (x, e1, e2) ↦ (m', rw e1 (omega (arith, e, e2, printed-append cost o (x ∷ []))), c2)
      | inr (e1, e2) ↦ (m', rw e1 (omega (arith, e, e2, printed-append cost o [])), c2)
    ]

abbrev pub one : Line → ℕ
one l = 1

Step-one :
    (n : ℕ) {f g : Forest} {o : List Line}
    → Step f o g
    → ForestCosts one 1 f n
    → (m : ℕ) × (n ≡ 1 + m) × ForestCosts one 1 g m
Step-one n st c =
    let (m, paid, c1) = Step-Paid one 1 st n c in
    elim paid [ inl (x, e1, e2) ↦ (m, e2, c1) | inr (e1, e2) ↦ (m, e2, c1) ]

Run-steps :
    (n : ℕ) {f : Forest} {k : ℕ} {o : List Line} {g : Forest}
    → Run f k o g
    → ForestCosts one 1 f n
    → (m : ℕ) × (n ≡ k + m) × ForestCosts one 1 g m
Run-steps n stay c = (n, omega arith, c)
Run-steps n (then_step {steps} r st) c =
    let (m, e, c1) = Run-steps n r c in
    let (m', e1, c2) = Step-one m st c1 in (m', omega (arith, e, e1), c2)

pub first_step :
    {f g : Forest} {l : List Line} {k : ℕ} {o : List Line} {h : Forest}
    → Step f l g
    → Run g k o h
    → Run f (suc k) (l ++ o) h
first_step {f} {g} {l} st stay = subst (λ x. Run f 1 x g) (sym (append-nil l)) (then_step stay st)
first_step {f} {l = l} {h = h} st (then_step {steps} {o} {l = l'} r last) =
    subst (λ x. Run f (suc (suc steps)) x h) (append_assoc l o l')
      (then_step (first_step st r) last)

-- What is left to a forest that does not wait: a run to where nobody moves.
abbrev pub Ends : Forest → Type 0
Ends f = (k : ℕ) × (o : List Line) × (g : Forest) × Run f k o g × Halted g

pub ForestCosts-Ends : (fuel n : ℕ) (f : Forest) → n ≤ fuel → ForestCosts one 1 f n → Ends f
ForestCosts-Ends zero n f le c = elim (ForestCosts-Moves one 1 n f c) [
  | inl halted ↦ (0, [], f, stay, halted)
  | inr (o, g, st) ↦ absurd (omega (arith, le, (Step-one n st c).1))
]
ForestCosts-Ends (suc fuel) n f le c = elim (ForestCosts-Moves one 1 n f c) [
  | inl halted ↦ (0, [], f, stay, halted)
  | inr (o, g, st) ↦
      let (m, e, c1) = Step-one n st c in
      let (k, o', h, r, d) = ForestCosts-Ends fuel m g (omega (arith, le, e)) c1 in
      (suc k, o ++ o', h, first_step st r, d)
]

-- A program that does not wait, whatever numbers its children get, with these costs.
pub record IsCosted (p : Prog) (lines : List Line) (calls : ℕ) : Type 0 where
  pub costed :
      (cost : Line → ℕ) (call : ℕ) → Costs cost call p 0 (printed cost call lines + call * calls)

module _ (pid : ℕ) (p : Prog) (lines : List Line) (calls : ℕ) (c : IsCosted p lines calls) where
  start :
      (cost : Line → ℕ) (call : ℕ)
      → ForestCosts cost call (alone pid p) (printed cost call lines + call * calls)
  start cost call =
      (printed cost call lines + call * calls, 0, 0, omega arith, c.costed cost call, refl, refl)

  pub Halted-printed :
      {k : ℕ} {o : List Line} {g : Forest}
      → Run (alone pid p) k o g
      → Halted g
      → (cost : Line → ℕ) → printed cost 0 o ≡ printed cost 0 lines
  Halted-printed {g = g} r d cost =
      let (m, e, c1) = Run-printed cost (printed cost 0 lines + 0 * calls) r (start cost 0) in
      omega (arith, e, ForestCosts-zero cost 0 m g d c1)

  pub run-Ends :
      {k : ℕ} {o : List Line} {g : Forest}
      → Run (alone pid p) k o g
      → (k ≤ printed one 1 lines + calls) × Ends g
  run-Ends {g = g} r =
      let (m, e, c1) = Run-steps (printed one 1 lines + 1 * calls) r (start one 1) in
      (omega (arith, e), ForestCosts-Ends m m g (omega arith) c1)
