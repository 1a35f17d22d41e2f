-- ===== src/MatMult/Cells.antt =====
-- Loops over cells: a loop whose steps each change cells by their own old values is, cell by cell,
-- a loop over those changes.
use computer_science.Prelude.{ℕ, zero, suc, ◌+◌, ◌==◌, ◌≡◌, ◌∙◌, refl, ap, arith}
use computer_science.Prelude.Loops.{
  for_range, for_range-congr, on, inside, for_range-on, for_range-hit, for_range-on_at,
  for_range-hit_at,
}
use computer_science.MatMult.{Double, Matrix, set, reset}

pub ruleset loop_laws = (for_range-on, for_range-hit, for_range-on_at, for_range-hit_at)

module _ (F : Double) where
  open F use {D}

  -- `run` changes each cell `(a, b)` by `step a b`.
  abbrev pub Cellwise : (Matrix F → Matrix F) → (ℕ → ℕ → D → D) → Type 0
  Cellwise run step = (C : Matrix F) (a b : ℕ) → run C a b ≡ step a b (C a b)

  pub for_range-Cellwise :
      (n i : ℕ) (body : ℕ → Matrix F → Matrix F) (step : ℕ → ℕ → ℕ → D → D)
      → ((k : ℕ) → Cellwise (body k) (step k))
      → Cellwise (for_range n i body) (λ a b. for_range n i (λ k. step k a b))
  unfolding for_range
  for_range-Cellwise zero i body step h C a b = refl
  for_range-Cellwise (suc n) i body step h C a b =
      for_range-Cellwise n (i + 1) body step h (body i C) a b
      ∙ ap (λ x. for_range n (i + 1) (λ k. step k a b) x) (h i C a b)

  pub Cellwise-comp :
      (f g : Matrix F → Matrix F) (s t : ℕ → ℕ → D → D)
      → Cellwise f s
      → Cellwise g t
      → Cellwise (λ C. g (f C)) (λ a b x. t a b (s a b x))
  Cellwise-comp f g s t p q C a b = q (f C) a b ∙ ap (t a b) (p C a b)

  -- An assignment changes its own cell.
  pub set-Cellwise :
      (i j : ℕ) (f : D → D)
      → Cellwise (λ C. set F C i j (f (C i j))) (λ a b. on (i == a) (on (j == b) f))
  unfolding on
  set-Cellwise i j f C a b = ground arith

  -- The guard of the cells of an `n` by `n` array.
  abbrev pub on_square : ℕ → ℕ → ℕ → (D → D) → D → D
  on_square n a b f = on (inside 0 n a) (on (inside 0 n b) f)

  pub reset-Cellwise : (n : ℕ) → Cellwise (reset F n) (λ a b. on_square n a b (λ x. F.zero))
  unfolding reset
  reset-Cellwise n C a b =
      let zeroed : D → D = λ x. F.zero in
      let cells : Cellwise (reset F n)
          (λ a b. for_range n 0 (λ i. for_range n 0 (λ j. on (i == a) (on (j == b) zeroed)))) =
        for_range-Cellwise n 0 _ _
          (λ i. for_range-Cellwise n 0 _ _ (λ j. set-Cellwise i j zeroed)) in
      cells C a b ∙ simp loop_laws
