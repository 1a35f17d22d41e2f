-- ===== src/MatMult.antt =====
-- CMU15-213/12-cache-memories/matmult: mm.c and bmm.c. An array is the function of its two indices
-- (the loops stay below MAXN), and a function that writes its last argument `C` returns it. The
-- arguments are three distinct global arrays, so a write to `C` changes neither `A` nor `B`.
pub mod Cells
pub mod Permutations
pub mod Blocked
pub mod Check
use computer_science.Prelude.{ℕ, ◌+◌, ◌-◌, ◌*◌, ◌/◌, ◌==◌, if◌then◌else◌}
use computer_science.Prelude.Loops.{for_range, for_step}

-- The `double`s of the platform: their operations round, so no law of arithmetic is assumed.
pub record Double : Type 1 where
  pub D : Type 0
  pub zero : D
  pub one : D
  pub add : D → D → D
  pub mul : D → D → D

module _ (F : Double) where
  open F use {D, zero, one, add, mul}

  abbrev pub Matrix : Type 0
  Matrix = ℕ → ℕ → D

  -- `C[i][j] = x`
  abbrev pub set : Matrix → ℕ → ℕ → D → Matrix
  set C i j x a b = if i == a then (if j == b then x else C a b) else C a b

  -- `for (i = 0; i < n; i++)`
  abbrev pub loop {ℓ} : {S : Type ℓ} → ℕ → (ℕ → S → S) → S → S
  loop n body s = for_range n 0 body s

  -- `reset`
  unfoldable pub reset : ℕ → Matrix → Matrix
  reset n = loop n λ i. loop n λ j C. set C i j zero

  -- `init`: both arrays
  unfoldable pub init : ℕ → Matrix × Matrix → Matrix × Matrix
  init n = loop n λ i. loop n λ j (A, B). (set A i j one, set B i j one)

  -- `for (k = lo; k < lo + n; k++) sum += A[i][k]*B[k][j];`
  abbrev pub sum_products : Matrix → Matrix → ℕ → ℕ → ℕ → ℕ → D → D
  sum_products A B i j n lo sum = for_range n lo (λ k s. add s (mul (A i k) (B k j))) sum

  unfoldable pub ijk : ℕ → Matrix → Matrix → Matrix → Matrix
  ijk n A B =
      loop n
        λ i. loop n λ j C. let sum = sum_products A B i j n 0 zero in set C i j (add (C i j) sum)

  unfoldable pub jik : ℕ → Matrix → Matrix → Matrix → Matrix
  jik n A B =
      loop n
        λ j. loop n λ i C. let sum = sum_products A B i j n 0 zero in set C i j (add (C i j) sum)

  unfoldable pub ikj : ℕ → Matrix → Matrix → Matrix → Matrix
  ikj n A B =
      loop n λ i. loop n λ k. let r = A i k in loop n λ j C. set C i j (add (C i j) (mul r (B k j)))

  unfoldable pub kij : ℕ → Matrix → Matrix → Matrix → Matrix
  kij n A B =
      loop n λ k. loop n λ i. let r = A i k in loop n λ j C. set C i j (add (C i j) (mul r (B k j)))

  unfoldable pub kji : ℕ → Matrix → Matrix → Matrix → Matrix
  kji n A B =
      loop n λ k. loop n λ j. let r = B k j in loop n λ i C. set C i j (add (C i j) (mul (A i k) r))

  unfoldable pub jki : ℕ → Matrix → Matrix → Matrix → Matrix
  jki n A B =
      loop n λ j. loop n λ k. let r = B k j in loop n λ i C. set C i j (add (C i j) (mul (A i k) r))

  -- The tile that `bijk` writes out four times: rows `0 .. n`, columns `j0 .. j0 + jn`, and the
  -- products of `k0 .. k0 + kn` summed in a register.
  unfoldable pub tile_ijk : ℕ → Matrix → Matrix → ℕ → ℕ → ℕ → ℕ → Matrix → Matrix
  tile_ijk n A B k0 kn j0 jn =
      loop n λ i. for_range jn j0 λ j C. set C i j (sum_products A B i j kn k0 (C i j))

  -- The tile that `bikj` writes out four times.
  unfoldable pub tile_ikj : ℕ → Matrix → Matrix → ℕ → ℕ → ℕ → ℕ → Matrix → Matrix
  tile_ikj n A B k0 kn j0 jn = loop n λ i.
      for_range kn k0
        λ k. let r = A i k in for_range jn j0 λ j C. set C i j (add (C i j) (mul r (B k j)))

  -- The order in which both blocked versions go over their tiles; `en` fits evenly into blocks.
  unfoldable pub blocked : (ℕ → ℕ → ℕ → ℕ → Matrix → Matrix) → ℕ → ℕ → Matrix → Matrix
  unfolding reset
  blocked tile n bsize C =
      let en = bsize * (n / bsize) in
      let C0 = reset n C in
      let C1 =
        for_step en bsize
          (λ kk C.
            let Cb = for_step en bsize (λ jj. tile kk bsize jj bsize) C in
            tile kk bsize en (n - en) Cb)
          C0 in
      let C2 = for_step en bsize (λ jj. tile en (n - en) jj bsize) C1 in
      tile en (n - en) en (n - en) C2

  unfoldable pub bijk : ℕ → ℕ → Matrix → Matrix → Matrix → Matrix
  unfolding blocked tile_ijk
  bijk n bsize A B = blocked (tile_ijk n A B) n bsize

  unfoldable pub bikj : ℕ → ℕ → Matrix → Matrix → Matrix → Matrix
  unfolding blocked tile_ikj
  bikj n bsize A B = blocked (tile_ikj n A B) n bsize
