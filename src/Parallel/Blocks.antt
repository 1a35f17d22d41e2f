-- ===== src/Parallel/Blocks.antt =====
-- The blocks of an array: they follow one another and make it up.
use native.Mathlib.Nat.{
  mul-div-le, le-div_iff_mul-le, div-le_of_le-mul, zero-mul, mul-le-mul_right, suc-mul,
  mod-eq_of_lt, div-le_self,
}
use native.Mathlib.Numerals.{add-one}
use computer_science.Prelude.{
  ℕ, zero, suc, ◌+◌, ◌-◌, ◌*◌, ◌/◌, ◌%◌, ◌^◌, ◌≤◌, ◌<◌, ◌≡◌, refl, ap, arith, ◌⊎◌, inl, inr, true,
  false, lt→ltb, some, List, [], ◌∷◌, ltb, ◌==◌, length, Returns, Bool-cases,
}
use computer_science.Memory.{Memory}
use computer_science.Memory.Counts.{count, count_add}
use computer_science.Parallel.Choice.{All, Exists, Pairwise, sum_of, All-map}
use computer_science.Parallel.{
  Block, as_int, count_blocks, blocks, blocks_from, copy_blocks, copy_blocks_from,
}

-- From `lo` to `hi` the blocks follow one another.
abbrev pub Tiles : ℕ → ℕ → List Block → Type 0
Tiles lo hi [] = lo ≡ hi
Tiles lo hi (b ∷ bs) = (b.start ≡ lo) × Tiles (lo + b.size) hi bs

blocks_from-Tiles :
    (nele nblock npb b left : ℕ)
    → b + suc left ≡ nblock
    → nblock * npb ≤ nele
    → Tiles (b * npb) nele (blocks_from nele nblock npb b (suc left))
unfolding blocks_from
blocks_from-Tiles nele nblock npb b zero e le =
    let last : ltb b (nblock - 1) ≡ false = ground arith in
    let below : b ≤ nblock = omega arith in
    let room : b * npb ≤ nele = omega (arith, le, mul-le-mul_right npb below) in
    rw last (refl, omega (arith, room))
blocks_from-Tiles nele nblock npb b (suc left) e le =
    let more : ltb b (nblock - 1) ≡ true = ground arith in
    let next : b * npb + npb ≡ (b + 1) * npb = rw (add-one b) (omega (arith, suc-mul b npb)) in
    rw more (refl, rw next (blocks_from-Tiles nele nblock npb (b + 1) left (omega arith) le))

length-blocks_from :
    (nele nblock npb b left : ℕ) → length (blocks_from nele nblock npb b left) ≡ left
unfolding blocks_from
length-blocks_from nele nblock npb b zero = refl
length-blocks_from nele nblock npb b (suc left) =
    ap suc (length-blocks_from nele nblock npb (b + 1) left)

-- Blocks of at least one element make up an array that is not empty, and are not more than its
-- elements.
pub record AreBlocks (nele : ℕ) (bs : List Block) : Type 0 where
  pub tiles : Tiles 0 nele bs
  pub few : length bs ≤ nele

product_grows : (k n : ℕ) → 0 < n → n + k ≤ suc k * n
product_grows zero n p = omega (arith, suc-mul 0 n)
product_grows (suc k) n p = omega (arith, suc-mul (suc k) n, product_grows k n p)

whole_product : (k n : ℕ) → 0 < n → 0 < k → n + k - 1 ≤ k * n
whole_product zero n p q = absurd (omega arith)
whole_product (suc k) n p q = omega (arith, product_grows k n p)

blocks-Tiles :
    (nele nblock npb : ℕ)
    → 0 < nblock
    → nblock * npb ≤ nele
    → Tiles 0 nele (blocks_from nele nblock npb 0 nblock)
blocks-Tiles nele zero npb p le = absurd (omega arith)
blocks-Tiles nele (suc n) npb p le =
    rw (zero-mul npb) at (blocks_from-Tiles nele (suc n) npb 0 n (omega arith) le)

count_blocks_lem :
    (nele block_size : ℕ)
    → 0 < nele
    → 0 < block_size
    → nele < 2 ^ 31
    → nele + block_size ≤ 2 ^ 64
    → (nblock : ℕ) × (count_blocks nele block_size ≡ some nblock) × (0 < nblock) × (nblock ≤ nele)
unfolding count_blocks as_int
count_blocks_lem nele block_size p q small room =
    let nblock = (nele + block_size - 1) / block_size in
    let whole : (nele + block_size - 1) % 2 ^ 64 ≡ nele + block_size - 1 =
      mod-eq_of_lt (omega (arith, room, p)) in
    let some_block : 0 < nblock = (le-div_iff_mul-le q).1 (omega arith) in
    let few : nblock ≤ nele = div-le_of_le-mul block_size (whole_product block_size nele p q) in
    let sized : (block_size == 0) ≡ false = ground arith in
    let counted : (nblock == 0) ≡ false = ground arith in
    let fits : ltb nblock (2 ^ 31) ≡ true = lt→ltb nblock (2 ^ 31) (omega (arith, few, small)) in
    (nblock, rw (sized, whole) (rw counted (rw fits refl)), some_block, few)

pub blocks-AreBlocks :
    (nele block_size : ℕ)
    → 0 < nele
    → 0 < block_size
    → nele < 2 ^ 31
    → nele + block_size ≤ 2 ^ 64
    → Returns (AreBlocks nele) (blocks nele block_size)
unfolding blocks
blocks-AreBlocks nele block_size p q small room =
    let (nblock, counted, some_block, few) = count_blocks_lem nele block_size p q small room in
    rw counted (record {
      tiles = blocks-Tiles nele nblock (nele / nblock) some_block (mul-div-le nele nblock);
      few = omega (arith, length-blocks_from nele nblock (nele / nblock) 0 nblock, few);
    })

-- Without overflow the blocks of the two functions are the same.
copy_blocks_from-blocks_from :
    (nele nblock npb b left : ℕ)
    → b + left ≤ nblock
    → nblock * npb < 2 ^ 31
    → copy_blocks_from nele nblock npb b left ≡ some (blocks_from nele nblock npb b left)
unfolding copy_blocks_from blocks_from as_int
copy_blocks_from-blocks_from nele nblock npb b zero le small = refl
copy_blocks_from-blocks_from nele nblock npb b (suc left) le small =
    let below : b ≤ nblock = omega (arith, le) in
    let fits : ltb (b * npb) (2 ^ 31) ≡ true =
      lt→ltb (b * npb) (2 ^ 31) (omega (arith, small, mul-le-mul_right npb below)) in
    rw (fits, copy_blocks_from-blocks_from nele nblock npb (b + 1) left (omega (arith, le)) small)
      refl

copy_blocks-eq-blocks :
    (nele block_size : ℕ)
    → 0 < nele
    → 0 < block_size
    → nele < 2 ^ 31
    → nele + block_size ≤ 2 ^ 64
    → copy_blocks nele block_size ≡ blocks nele block_size
unfolding copy_blocks blocks as_int
copy_blocks-eq-blocks nele block_size p q small room =
    let (nblock, counted, some_block, few) = count_blocks_lem nele block_size p q small room in
    let product : nblock * (nele / nblock) ≤ nele = mul-div-le nele nblock in
    let quotient : nele / nblock ≤ nele = div-le_self nele nblock in
    let fits : ltb (nele / nblock) (2 ^ 31) ≡ true =
      lt→ltb (nele / nblock) (2 ^ 31) (omega (arith, quotient, small)) in
    rw counted (
      rw fits (
        copy_blocks_from-blocks_from nele nblock (nele / nblock) 0 nblock (omega arith)
          (omega (arith, product, small))))

pub copy_blocks-AreBlocks :
    (nele block_size : ℕ)
    → 0 < nele
    → 0 < block_size
    → nele < 2 ^ 31
    → nele + block_size ≤ 2 ^ 64
    → Returns (AreBlocks nele) (copy_blocks nele block_size)
copy_blocks-AreBlocks nele block_size p q small room =
    rw (copy_blocks-eq-blocks nele block_size p q small room)
      (blocks-AreBlocks nele block_size p q small room)

-- The two have no element in common.
abbrev pub Disjoint : Block → Block → Type 0
Disjoint b c = (b.start + b.size ≤ c.start) ⊎ (c.start + c.size ≤ b.start)

pub Disjoint-sym : (b c : Block) → Disjoint b c → Disjoint c b
Disjoint-sym b c (inl h) = inr h
Disjoint-sym b c (inr h) = inl h

abbrev pub Holds : ℕ → Block → Type 0
Holds i b = (b.start ≤ i) × (i < b.start + b.size)

abbrev pub EndsBy : ℕ → Block → Type 0
EndsBy hi b = b.start + b.size ≤ hi

Tiles-le : (lo hi : ℕ) (bs : List Block) → Tiles lo hi bs → lo ≤ hi
Tiles-le lo hi [] t = omega arith
Tiles-le lo hi (b ∷ bs) t = omega (arith, Tiles-le (lo + b.size) hi bs t.1)

Tiles-from : (lo hi : ℕ) (bs : List Block) → Tiles lo hi bs → All (λ b. lo ≤ b.start) bs
Tiles-from lo hi [] t = tt
Tiles-from lo hi (b ∷ bs) t =
    (omega (arith, t.0), All-map bs (λ c h. omega arith) (Tiles-from (lo + b.size) hi bs t.1))

pub Tiles-EndsBy : (lo hi : ℕ) (bs : List Block) → Tiles lo hi bs → All (EndsBy hi) bs
Tiles-EndsBy lo hi [] t = tt
Tiles-EndsBy lo hi (b ∷ bs) t =
    (omega (arith, t.0, Tiles-le (lo + b.size) hi bs t.1), Tiles-EndsBy (lo + b.size) hi bs t.1)

pub Tiles-Pairwise : (lo hi : ℕ) (bs : List Block) → Tiles lo hi bs → Pairwise Disjoint bs
Tiles-Pairwise lo hi [] t = tt
Tiles-Pairwise lo hi (b ∷ bs) t = (
  All-map bs (λ c h. inl (omega (arith, t.0))) (Tiles-from (lo + b.size) hi bs t.1),
  Tiles-Pairwise (lo + b.size) hi bs t.1,
)

pub Tiles-Exists :
    (lo hi : ℕ) (bs : List Block) (i : ℕ) → Tiles lo hi bs → lo ≤ i → i < hi → Exists (Holds i) bs
Tiles-Exists lo hi [] i t a b = absurd (omega (arith, t))
Tiles-Exists lo hi (b ∷ bs) i t p q = elim (Bool-cases (ltb i (lo + b.size))) [
  | inl here ↦ inl (omega (arith, t.0), ground (arith, t.0))
  | inr behind ↦ inr (Tiles-Exists (lo + b.size) hi bs i t.1 (ground arith) q)
]

pub Tiles-sum_of :
    (lo hi : ℕ) (bs : List Block) → Tiles lo hi bs → sum_of (λ b. b.size) bs + lo ≡ hi
Tiles-sum_of lo hi [] t = omega (arith, t)
Tiles-sum_of lo hi (b ∷ bs) t = omega (arith, Tiles-sum_of (lo + b.size) hi bs t.1)

-- The counts of the blocks add up to the count of the array.
pub Tiles-count :
    (m : Memory) (base lo hi : ℕ) (bs : List Block) (v : ℕ)
    → Tiles lo hi bs
    → sum_of (λ b. count m (base + b.start) b.size v) bs ≡ count m (base + lo) (hi - lo) v
unfolding count
Tiles-count m base lo hi [] v t = rw t (let z : hi - hi ≡ 0 = omega arith in rw z refl)
Tiles-count m base lo hi (b ∷ bs) v t =
    let mid = lo + b.size in
    let size : hi - lo ≡ b.size + (hi - mid) = omega (arith, Tiles-le mid hi bs t.1) in
    let place : base + lo + b.size ≡ base + mid = omega arith in
    rw (t.0, size)
      (omega (
        arith,
        count_add m (base + lo) b.size (hi - mid) v,
        Tiles-count m base mid hi bs v t.1,
        ap (λ (p : ℕ). count m p (hi - mid) v) place,
      ))
