-- ===== src/MatMult/Check.antt =====
-- `checkresult` of mm.c and bmm.c, and the measured runs of their `main`.
use computer_science.Prelude.{
  ℕ, zero, suc, ◌+◌, ◌≤◌, ◌<◌, ◌≡◌, ◌∙◌, refl, ap, Bool, true, false, Option, none, some,
  if◌then◌else◌, ◌==◌, arith,
}
use computer_science.Prelude.Loops.{for_range, for_range-congr, on, inside}
use computer_science.MatMult.{Double, Matrix, set, init, sum_products, reset, kij, bijk, bikj}
use computer_science.MatMult.Cells.{
  Cellwise, for_range-Cellwise, set-Cellwise, loop_laws, reset-Cellwise,
}
use computer_science.MatMult.Permutations.{kij_lem}
use computer_science.MatMult.Blocked.{blocked_agree}

-- `(double) n` and `!=`
pub record Comparison (F : Double) : Type 0 where
  pub of_int : ℕ → F.D
  pub ne : F.D → F.D → Bool

-- `if (c[i][j] != (double)n) { printf(...); exit(0); }` after what the earlier tests found: the
-- indices of the first bad number, at which the program exits.
unfoldable pub check_cell :
    (F : Double) → Comparison F → ℕ → Matrix F → ℕ → ℕ → Option (ℕ × ℕ) → Option (ℕ × ℕ)
check_cell F K n c i j (some bad) = some bad
check_cell F K n c i j none = if K.ne (c i j) (K.of_int n) then some (i, j) else none

unfoldable pub checkresult : (F : Double) → Comparison F → ℕ → Matrix F → Option (ℕ × ℕ)
unfolding check_cell
checkresult F K n c = for_range n 0 (λ i. for_range n 0 (λ j. check_cell F K n c i j)) none

-- A loop that leaves its state alone at every index leaves it alone.
for_range-idle {ℓ} :
    {S : Type ℓ} (n i : ℕ) (f : ℕ → S → S) (s : S)
    → ((k : ℕ) → i ≤ k → k < i + n → f k s ≡ s)
    → for_range n i f s ≡ s
unfolding for_range
for_range-idle zero i f s h = refl
for_range-idle (suc n) i f s h =
    ap (for_range n (i + 1) f) (h i (omega arith) (omega arith))
    ∙ for_range-idle n (i + 1) f s (λ k a b. h k (omega arith) (omega arith))

-- A loop over a pair is a pair of loops.
for_range-pair {ℓ} :
    {S : Type ℓ} (n i : ℕ) (f g : ℕ → S → S) (s : S × S)
    → for_range n i (λ k (x, y). (f k x, g k y)) s ≡ (for_range n i f s.0, for_range n i g s.1)
unfolding for_range
for_range-pair zero i f g s = refl
for_range-pair (suc n) i f g s = for_range-pair n (i + 1) f g (f i s.0, g i s.1)

inside-of_lt : (n a : ℕ) → a < n → inside 0 n a ≡ true
unfolding inside
inside-of_lt n a h = ground arith

module _ (F : Double) (K : Comparison F) where
  open F use {D, one, add, mul}
  open K use {of_int, ne}

  -- Below `n` the conversion is exact: 0 is 0.0, and adding 1.0 * 1.0 is adding one. The doubles
  -- have this up to 2^53.
  pub record IsExact (n : ℕ) : Type 0 where
    pub starts : F.zero ≡ of_int 0
    pub counts : (k : ℕ) → k < n → add (of_int k) (mul one one) ≡ of_int (k + 1)
    pub same : ne (of_int n) (of_int n) ≡ false

  module _ (n : ℕ) (exact : IsExact n) where
    fill : Matrix F → Matrix F
    fill = for_range n 0 λ i. for_range n 0 λ j C. set F C i j one

    fill-ones : (C : Matrix F) (a b : ℕ) → a < n → b < n → fill C a b ≡ one
    unfolding fill on inside
    fill-ones C a b ha hb =
        let ones : D → D = λ x. one in
        let cells : Cellwise F fill
            (λ a b. for_range n 0 (λ i. for_range n 0 (λ j. on (i == a) (on (j == b) ones)))) =
          for_range-Cellwise F n 0 _ _
            (λ i. for_range-Cellwise F n 0 _ _ (λ j. set-Cellwise F i j ones)) in
        cells C a b ∙ simp loop_laws (ground arith)

    init-eq-fill : (AB : Matrix F × Matrix F) → init F n AB ≡ (fill AB.0, fill AB.1)
    unfolding init fill
    init-eq-fill AB =
        for_range-congr n 0 _ _
          (λ i s. for_range-pair n 0 (λ j A. set F A i j one) (λ j B. set F B i j one) s) AB
        ∙ for_range-pair n 0 _ _ AB

    -- The products of ones add up to the count of them.
    sum_ones :
        (A B : Matrix F) (a b m i : ℕ)
        → ((k : ℕ) → k < n → A a k ≡ one)
        → ((k : ℕ) → k < n → B k b ≡ one)
        → i + m ≤ n
        → sum_products F A B a b m i (of_int i) ≡ of_int (i + m)
    unfolding for_range
    sum_ones A B a b zero i hA hB h = ap of_int (omega arith)
    sum_ones A B a b (suc m) i hA hB h =
        let step : add (of_int i) (mul (A a i) (B i b)) ≡ of_int (i + 1) =
          rw (hA i (omega arith), hB i (omega arith)) (exact.counts i (omega arith)) in
        ap (sum_products F A B a b m (i + 1)) step
        ∙ sum_ones A B a b m (i + 1) hA hB (omega arith)
        ∙ ap of_int (omega arith)

    -- A result whose cells are all `(double) n` passes.
    checkresult-none :
        (c : Matrix F) → ((a b : ℕ) → a < n → b < n → c a b ≡ of_int n) → checkresult F K n c ≡ none
    unfolding checkresult
    checkresult-none c h = for_range-idle n 0 _ none λ i _ hi.
        for_range-idle n 0 _ none λ j _ hj. rw (h i j (omega arith) (omega arith), exact.same)

    kij-of-ones :
        (C A0 B0 : Matrix F) (a b : ℕ)
        → a < n
        → b < n
        → (let (A, B) = init F n (A0, B0) in kij F n A B (reset F n C)) a b ≡ of_int n
    unfolding on
    kij-of-ones C A0 B0 a b ha hb =
        let A = (init F n (A0, B0)).0 in
        let B = (init F n (A0, B0)).1 in
        let hA : (k : ℕ) → k < n → A a k ≡ one = λ k hk.
          ap (λ (AB : Matrix F × Matrix F). AB.0 a k) (init-eq-fill (A0, B0))
          ∙ fill-ones A0 a k ha hk in
        let hB : (k : ℕ) → k < n → B k b ≡ one = λ k hk.
          ap (λ (AB : Matrix F × Matrix F). AB.1 k b) (init-eq-fill (A0, B0))
          ∙ fill-ones B0 k b hk hb in
        let from : reset F n C a b ≡ of_int 0 =
          reset-Cellwise F n C a b ∙ rw (inside-of_lt n a ha, inside-of_lt n b hb) exact.starts in
        kij_lem F n A B (reset F n C) a b
        ∙ rw (inside-of_lt n a ha, inside-of_lt n b hb)
            (ap (sum_products F A B a b n 0) from
              ∙ sum_ones A B a b n 0 hA hB (omega arith)
              ∙ ap of_int (omega arith))

    -- If the doubles count exactly up to `n`, then after `init` and `reset` the result of `kij` passes
    -- `checkresult`, and so does that of `bijk` and `bikj` at any block size but zero.
    pub checkresult-run :
        (C A0 B0 : Matrix F) (bsize : ℕ)
        → 0 < bsize
        → let (A, B) = init F n (A0, B0) in
          (checkresult F K n (kij F n A B (reset F n C)) ≡ none)
          × (checkresult F K n (bijk F n bsize A B C) ≡ none)
          × (checkresult F K n (bikj F n bsize A B C) ≡ none)
    checkresult-run C A0 B0 bsize pos =
        let AB = init F n (A0, B0) in
        let plain = checkresult-none (kij F n AB.0 AB.1 (reset F n C)) (kij-of-ones C A0 B0) in
        let (p, q) = blocked_agree F n AB.0 AB.1 C bsize pos in (plain, rw p plain, rw q plain)
