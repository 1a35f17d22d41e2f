-- ===== src/MatMult/Permutations.antt =====
-- mm.c: the six loop orders.
use computer_science.Prelude.{
  ℕ, ◌==◌, ◌≡◌, ◌∙◌, sym, refl, ap, fun_ext, Bool, true, false, ◌&&◌, if◌then◌else◌,
}
use computer_science.Prelude.Loops.{for_range, on, inside}
use computer_science.MatMult.{Double, Matrix, sum_products, reset, ijk, jik, ikj, kij, kji, jki}
use computer_science.MatMult.Cells.{
  Cellwise, for_range-Cellwise, set-Cellwise, on_square, loop_laws, reset-Cellwise,
}

-- A guarded change that starts from zero may be summed apart first, if adding to zero is exact.
from_zero :
    {D : Type 0} (add : D → D → D) (zero : D) (c d : Bool) (f : D → D)
    → ((x : D) → add zero x ≡ x)
    → (y : D)
    → on c (on d (λ x. add x (f zero))) (on c (on d (λ x. zero)) y)
      ≡ on c (on d f) (on c (on d (λ x. zero)) y)
unfolding on
from_zero add zero true true f exact y = exact (f _)
from_zero add zero true false f exact y = refl
from_zero add zero false d f exact y = refl

both {ℓ} :
    {S : Type ℓ} (c d : Bool) (f : S → S) (x : S) → on c (on d f) x ≡ (if c && d then f x else x)
unfolding on
both true true f x = refl
both true false f x = refl
both false d f x = refl

module _ (F : Double) (n : ℕ) (A B : Matrix F) where
  open F use {D, add, mul}

  -- Row `a` of `A` by column `b` of `B`, added to the cell one product at a time.
  abbrev pub accumulate : ℕ → ℕ → D → D
  accumulate a b = on_square F n a b (sum_products F A B a b n 0)

  -- The dot product is summed from zero, then added to the cell.
  abbrev add_dot : ℕ → ℕ → D → D
  add_dot a b = on_square F n a b (λ x. add x (sum_products F A B a b n 0 F.zero))

  abbrev product : ℕ → ℕ → ℕ → D → D
  product i j k x = add x (mul (A i k) (B k j))

  abbrev dot : ℕ → ℕ → D → D
  dot i j x = add x (sum_products F A B i j n 0 F.zero)

  ikj-Cellwise : Cellwise F (ikj F n A B) accumulate
  unfolding ikj
  ikj-Cellwise C a b =
      let cells : Cellwise F (ikj F n A B) (λ a b.
        for_range n 0
          λ i. for_range n 0 λ k. for_range n 0 λ j. on (i == a) (on (j == b) (product i j k))) =
        for_range-Cellwise F n 0 _ _ λ i.
          for_range-Cellwise F n 0 _ _
            λ k. for_range-Cellwise F n 0 _ _ λ j. set-Cellwise F i j (product i j k) in
      cells C a b ∙ simp loop_laws

  pub kij-Cellwise : Cellwise F (kij F n A B) accumulate
  unfolding kij
  kij-Cellwise C a b =
      let cells : Cellwise F (kij F n A B) (λ a b.
        for_range n 0
          λ k. for_range n 0 λ i. for_range n 0 λ j. on (i == a) (on (j == b) (product i j k))) =
        for_range-Cellwise F n 0 _ _ λ k.
          for_range-Cellwise F n 0 _ _
            λ i. for_range-Cellwise F n 0 _ _ λ j. set-Cellwise F i j (product i j k) in
      cells C a b ∙ simp loop_laws

  kji-Cellwise : Cellwise F (kji F n A B) accumulate
  unfolding kji
  kji-Cellwise C a b =
      let cells : Cellwise F (kji F n A B) (λ a b.
        for_range n 0
          λ k. for_range n 0 λ j. for_range n 0 λ i. on (i == a) (on (j == b) (product i j k))) =
        for_range-Cellwise F n 0 _ _ λ k.
          for_range-Cellwise F n 0 _ _
            λ j. for_range-Cellwise F n 0 _ _ λ i. set-Cellwise F i j (product i j k) in
      cells C a b ∙ simp loop_laws

  jki-Cellwise : Cellwise F (jki F n A B) accumulate
  unfolding jki
  jki-Cellwise C a b =
      let cells : Cellwise F (jki F n A B) (λ a b.
        for_range n 0
          λ j. for_range n 0 λ k. for_range n 0 λ i. on (i == a) (on (j == b) (product i j k))) =
        for_range-Cellwise F n 0 _ _ λ j.
          for_range-Cellwise F n 0 _ _
            λ k. for_range-Cellwise F n 0 _ _ λ i. set-Cellwise F i j (product i j k) in
      cells C a b ∙ simp loop_laws

  ijk-Cellwise : Cellwise F (ijk F n A B) add_dot
  unfolding ijk
  ijk-Cellwise C a b =
      let cells : Cellwise F (ijk F n A B)
          (λ a b. for_range n 0 λ i. for_range n 0 λ j. on (i == a) (on (j == b) (dot i j))) =
        for_range-Cellwise F n 0 _ _
          λ i. for_range-Cellwise F n 0 _ _ λ j. set-Cellwise F i j (dot i j) in
      cells C a b ∙ simp loop_laws

  jik-Cellwise : Cellwise F (jik F n A B) add_dot
  unfolding jik
  jik-Cellwise C a b =
      let cells : Cellwise F (jik F n A B)
          (λ a b. for_range n 0 λ j. for_range n 0 λ i. on (i == a) (on (j == b) (dot i j))) =
        for_range-Cellwise F n 0 _ _
          λ j. for_range-Cellwise F n 0 _ _ λ i. set-Cellwise F i j (dot i j) in
      cells C a b ∙ simp loop_laws

  -- Two computations that change each cell alike return the same array.
  same_cells :
      (f g : Matrix F → Matrix F) (s : ℕ → ℕ → D → D)
      → Cellwise F f s
      → Cellwise F g s
      → (C : Matrix F) → f C ≡ g C
  same_cells f g s p q C = fun_ext (λ a. fun_ext (λ b. p C a b ∙ sym (q C a b)))

  -- The four versions that add each product to the array return the same array, to the last bit: in
  -- all of them a cell meets its products in the same order. So do the two that sum in a register.
  -- No law of the doubles' addition or multiplication is used.
  pub loop_orders_agree :
      (C : Matrix F)
      → (ikj F n A B C ≡ kij F n A B C)
        × (kij F n A B C ≡ kji F n A B C)
        × (kji F n A B C ≡ jki F n A B C)
        × (ijk F n A B C ≡ jik F n A B C)
  loop_orders_agree C = (
    same_cells _ _ accumulate ikj-Cellwise kij-Cellwise C,
    same_cells _ _ accumulate kij-Cellwise kji-Cellwise C,
    same_cells _ _ accumulate kji-Cellwise jki-Cellwise C,
    same_cells _ _ add_dot ijk-Cellwise jik-Cellwise C,
  )

  -- On the reset array, where a cell starts from zero, the register versions return the same array
  -- as the others too, if adding to zero is exact.
  ijk-eq-kij_of_reset :
      ((x : D) → add F.zero x ≡ x)
      → (C : Matrix F) → ijk F n A B (reset F n C) ≡ kij F n A B (reset F n C)
  ijk-eq-kij_of_reset exact C = fun_ext λ a. fun_ext λ b.
      ijk-Cellwise (reset F n C) a b
      ∙ ap (add_dot a b) (reset-Cellwise F n C a b)
      ∙ from_zero add F.zero (inside 0 n a) (inside 0 n b) (sum_products F A B a b n 0) exact
          (C a b)
      ∙ sym (ap (accumulate a b) (reset-Cellwise F n C a b))
      ∙ sym (kij-Cellwise (reset F n C) a b)

  -- What a cell of the result holds: the products of row `a` and column `b`, added in order to what
  -- the cell held, inside the `n` by `n` square; and what it held, outside.
  pub kij_lem :
      (C : Matrix F) (a b : ℕ)
      → kij F n A B C a b
        ≡ (if inside 0 n a && inside 0 n b then sum_products F A B a b n 0 (C a b) else C a b)
  kij_lem C a b = kij-Cellwise C a b ∙ both (inside 0 n a) (inside 0 n b) _ _
