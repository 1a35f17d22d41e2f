-- ===== src/MatMult/Blocked.antt =====
-- bmm.c: the blocked versions against the plain ones.
use native.Mathlib.Nat.{mul-div-le}
use computer_science.Prelude.{ℕ, ◌-◌, ◌*◌, ◌/◌, ◌<◌, ◌≤◌, ◌==◌, ◌≡◌, ◌∙◌, sym, ap, fun_ext, Bool}
use computer_science.Prelude.Loops.{
  for_range, for_step, on, inside, for_step-on, for_step-blocks, for_step-for_range, on_twice,
  on_split, for_range_split,
}
use computer_science.MatMult.{
  Double, Matrix, sum_products, reset, kij, tile_ijk, tile_ikj, blocked, bijk, bikj,
}
use computer_science.MatMult.Cells.{Cellwise, for_range-Cellwise, set-Cellwise, loop_laws}
use computer_science.MatMult.Permutations.{kij-Cellwise}

module _ (F : Double) (n : ℕ) (A B : Matrix F) where
  open F use {D, add, mul}

  -- What a tile does to a cell: rows below `n`, columns `j0 .. j0 + jn`, products `k0 .. k0 + kn`.
  abbrev tiled : ℕ → ℕ → ℕ → ℕ → ℕ → ℕ → D → D
  tiled k0 kn j0 jn a b = on (inside 0 n a) (on (inside j0 jn b) (sum_products F A B a b kn k0))

  tile_ijk-Cellwise :
      (k0 kn j0 jn : ℕ) → Cellwise F (tile_ijk F n A B k0 kn j0 jn) (tiled k0 kn j0 jn)
  unfolding tile_ijk
  tile_ijk-Cellwise k0 kn j0 jn C a b =
      let cells : Cellwise F (tile_ijk F n A B k0 kn j0 jn) (λ a b.
        for_range n 0
          λ i. for_range jn j0 λ j. on (i == a) (on (j == b) (sum_products F A B i j kn k0))) =
        for_range-Cellwise F n 0 _ _ λ i.
          for_range-Cellwise F jn j0 _ _ λ j. set-Cellwise F i j (sum_products F A B i j kn k0) in
      cells C a b ∙ simp loop_laws

  tile_ikj-Cellwise :
      (k0 kn j0 jn : ℕ) → Cellwise F (tile_ikj F n A B k0 kn j0 jn) (tiled k0 kn j0 jn)
  unfolding tile_ikj
  tile_ikj-Cellwise k0 kn j0 jn C a b =
      let cells : Cellwise F (tile_ikj F n A B k0 kn j0 jn) (λ a b. for_range n 0 λ i.
        for_range kn k0
          λ k. for_range jn j0 λ j. on (i == a) (on (j == b) (λ x. add x (mul (A i k) (B k j))))) =
        for_range-Cellwise F n 0 _ _ λ i. for_range-Cellwise F kn k0 _ _ λ k.
          for_range-Cellwise F jn j0 _ _
            λ j. set-Cellwise F i j (λ x. add x (mul (A i k) (B k j))) in
      cells C a b ∙ simp loop_laws

  -- A loop with a stride over bodies that change each cell.
  blocks-Cellwise :
      (stop w : ℕ) (body : ℕ → Matrix F → Matrix F) (step : ℕ → ℕ → ℕ → D → D)
      → ((k : ℕ) → Cellwise F (body k) (step k))
      → Cellwise F (for_step stop w body) (λ a b. for_step stop w (λ k. step k a b))
  unfolding for_step
  blocks-Cellwise stop w body step h = for_range-Cellwise F _ 0 _ _ (λ c. h (c * w))

  -- Any tile routine that changes cells as `tiled` says.
  module _ (tile : ℕ → ℕ → ℕ → ℕ → Matrix F → Matrix F)
      (tile-Cellwise : (k0 kn j0 jn : ℕ) → Cellwise F (tile k0 kn j0 jn) (tiled k0 kn j0 jn))
      (bsize : ℕ) (pos : 0 < bsize) where
    abbrev en : ℕ
    en = bsize * (n / bsize)

    en-le : en ≤ n
    en-le = mul-div-le n bsize

    -- The tiles of one row of blocks and the rest of that row cover all columns.
    row-Cellwise :
        (k0 kn : ℕ)
        → Cellwise F
            (λ C. tile k0 kn en (n - en) (for_step en bsize (λ jj. tile k0 kn jj bsize) C))
            (tiled k0 kn 0 n)
    row-Cellwise k0 kn C a b =
        let g : D → D = sum_products F A B a b kn k0 in
        let row : Bool = inside 0 n a in
        tile-Cellwise k0 kn en (n - en) (for_step en bsize (λ jj. tile k0 kn jj bsize) C) a b
        ∙ ap (λ x. on row (on (inside en (n - en) b) g) x)
            (blocks-Cellwise en bsize (λ jj. tile k0 kn jj bsize) (λ jj. tiled k0 kn jj bsize)
                (λ jj. tile-Cellwise k0 kn jj bsize) C a b
              ∙ ap (λ (f : D → D). f (C a b))
                  (for_step-on (n / bsize) bsize pos row (λ jj. on (inside jj bsize b) g)
                    ∙ ap (on row) (for_step-blocks (n / bsize) bsize pos b g)))
        ∙ on_twice row (on (inside 0 en b) g) (on (inside en (n - en) b) g) (C a b)
        ∙ ap (λ (f : D → D). on row f (C a b)) (fun_ext λ x. on_split en n b g x en-le)

    -- All blocks of products up to `en`.
    blocks_of_k-Cellwise :
        Cellwise F
          (for_step en bsize (λ kk C.
            tile kk bsize en (n - en) (for_step en bsize (λ jj. tile kk bsize jj bsize) C)))
          (tiled 0 en 0 n)
    blocks_of_k-Cellwise C a b =
        let row : Bool = inside 0 n a in
        let col : Bool = inside 0 n b in
        let q : ℕ = n / bsize in
        blocks-Cellwise en bsize
          (λ kk C. tile kk bsize en (n - en) (for_step en bsize (λ jj. tile kk bsize jj bsize) C))
          (λ kk. tiled kk bsize 0 n) (λ kk. row-Cellwise kk bsize) C a b
        ∙ ap (λ (f : D → D). f (C a b))
            (for_step-on q bsize pos row (λ kk. on col (sum_products F A B a b bsize kk))
              ∙ ap (on row) (
                  for_step-on q bsize pos col (λ kk. sum_products F A B a b bsize kk)
                  ∙ ap (on col)
                      (for_step-for_range q bsize pos (λ k x. add x (mul (A a k) (B k b))))))

    blocked-eq-kij : (C : Matrix F) → blocked F tile n bsize C ≡ kij F n A B (reset F n C)
    unfolding blocked
    blocked-eq-kij C = fun_ext λ a. fun_ext λ b.
        let row : Bool = inside 0 n a in
        let col : Bool = inside 0 n b in
        let h : ℕ → D → D = λ k x. add x (mul (A a k) (B k b)) in
        row-Cellwise en (n - en) _ a b
        ∙ ap (tiled en (n - en) 0 n a b) (blocks_of_k-Cellwise (reset F n C) a b)
        ∙ on_twice row (on col (for_range en 0 h)) (on col (for_range (n - en) en h))
            (reset F n C a b)
        ∙ ap (λ (f : D → D). on row f (reset F n C a b))
            (fun_ext λ x.
              on_twice col (for_range en 0 h) (for_range (n - en) en h) x
              ∙ ap (λ (f : D → D). on col f x) (fun_ext λ y. for_range_split en n h y en-le))
        ∙ sym (kij-Cellwise F n A B (reset F n C) a b)

module _ (F : Double) (n : ℕ) (A B C : Matrix F) (bsize : ℕ) (pos : 0 < bsize) where
  -- For every block size but zero, whether or not it divides `n`, both blocked versions return the
  -- array that the plain `kij` returns on the reset array, to the last bit.
  pub blocked_agree :
      (bijk F n bsize A B C ≡ kij F n A B (reset F n C))
      × (bikj F n bsize A B C ≡ kij F n A B (reset F n C))
  unfolding bijk bikj
  blocked_agree = (
    blocked-eq-kij F n A B (tile_ijk F n A B) (tile_ijk-Cellwise F n A B) bsize pos C,
    blocked-eq-kij F n A B (tile_ikj F n A B) (tile_ikj-Cellwise F n A B) bsize pos C,
  )
