-- ===== src/Parallel/Copying.antt =====
-- `dcopy_parallel` copies, whatever the order of its blocks.
use computer_science.Prelude.{
  ℕ, ◌+◌, ◌-◌, ◌^◌, ◌≤◌, ◌<◌, ◌≡◌, ◌∙◌, refl, ap, sym, arith, ◌⊎◌, inl, inr, true, List, [], ◌∷◌,
  ◌++◌, length, Returns, Returns-bind, Returns-map, Bool-cases,
}
use computer_science.Memory.{Memory}
use computer_science.Parallel.{Block, bcopy, within, copy_blocks, copy_thread, dcopy_parallel}
use computer_science.Parallel.Pool.{choose, run_pool, run_pool-Returns}
use computer_science.Parallel.Choice.{All, Exists, All-choose, Exists-choose, length-choose}
use computer_science.Parallel.Blocks.{
  AreBlocks, copy_blocks-AreBlocks, Holds, EndsBy, Tiles-EndsBy, Tiles-Exists,
}

-- `n` elements have come from `src` to `dest`, and nothing else has changed.
pub record Copied (src dest n : ℕ) (m m' : Memory) : Type 0 where
  pub moved : (i : ℕ) → i < n → m' (dest + i) ≡ m (src + i)
  pub frame : (q : ℕ) → (q < dest) ⊎ (dest + n ≤ q) → m' q ≡ m q

pub bcopy-inside :
    (m : Memory) (src dest n i : ℕ) → i < n → bcopy m src dest n (dest + i) ≡ m (src + i)
unfolding bcopy
bcopy-inside m src dest n i h =
    let here : within dest n (dest + i) ≡ true = ground arith in
    let back : dest + i - dest ≡ i = omega arith in rw here (rw back refl)

pub bcopy-outside :
    (m : Memory) (src dest n q : ℕ) → (q < dest) ⊎ (dest + n ≤ q) → bcopy m src dest n q ≡ m q
unfolding bcopy
bcopy-outside m src dest n q h = ground arith

module _ (src dest n : ℕ) (m : Memory) (apart : (dest + n ≤ src) ⊎ (src + n ≤ dest)) where
  -- An element has come over, or a block that holds it is still to be copied.
  record Underway (bs : List Block) (s : Memory) : Type 0 where
    inside : All (EndsBy n) bs
    moved : (i : ℕ) → i < n → (s (dest + i) ≡ m (src + i)) ⊎ Exists (Holds i) bs
    frame : (q : ℕ) → (q < dest) ⊎ (dest + n ≤ q) → s q ≡ m q

  Underway-choose :
      (i : ℕ) (b : Block) (bs : List Block) (s : Memory)
      → Underway (b ∷ bs) s
      → Underway ((choose i b bs).0 ∷ (choose i b bs).1) s
  Underway-choose i b bs s u = record {
    inside = All-choose (EndsBy n) i b bs u.inside;
    moved = λ k h. elim (u.moved k h) [
      | inl done ↦ inl done
      | inr left ↦ inr (Exists-choose (Holds k) i b bs left)
    ];
    frame = u.frame;
  }

  -- The copy of a block: an element of the block comes over, any other stays what it is.
  copied_moved :
      (b : Block) (bs : List Block) (s : Memory)
      → Underway (b ∷ bs) s
      → (i : ℕ) → i < n
      → (bcopy s (src + b.start) (dest + b.start) b.size (dest + i) ≡ m (src + i))
        ⊎ Exists (Holds i) bs
  copied_moved b bs s u i h = elim (Bool-cases (within b.start b.size i)) [
    | inl here ↦
        let k = i - b.start in
        let from : b.start + k ≡ i = ground arith in
        let size : k < b.size = ground arith in
        let at : dest + b.start + k ≡ dest + i = omega (arith, from) in
        let source : src + b.start + k ≡ src + i = omega (arith, from) in
        inl (
          ap (bcopy s (src + b.start) (dest + b.start) b.size) (sym at)
          ∙ bcopy-inside s (src + b.start) (dest + b.start) b.size k size
          ∙ ap s source
          ∙ u.frame (src + i) (ground arith))
    | inr away ↦ elim (u.moved i h) [
      | inl done ↦
          inl (
            bcopy-outside s (src + b.start) (dest + b.start) b.size (dest + i) (ground arith)
            ∙ done)
      | inr (inl held) ↦ absurd (ground (arith, held.0, held.1))
      | inr (inr left) ↦ inr left
    ]
  ]

  copied-Underway :
      (b : Block) (bs : List Block) (s : Memory)
      → Underway (b ∷ bs) s
      → Underway bs (bcopy s (src + b.start) (dest + b.start) b.size)
  copied-Underway b bs s u = record {
    inside = u.inside.1;
    moved = λ i h. copied_moved b bs s u i h;
    frame = λ q o.
        bcopy-outside s (src + b.start) (dest + b.start) b.size q (ground (arith, u.inside.0))
        ∙ u.frame q o;
  }

  copy_thread-Underway :
      (b : Block) (bs : List Block) (s : Memory)
      → Underway (b ∷ bs) s
      → Returns
          (λ out. Underway (out.1 ++ bs) out.0 × (length (out.1 ++ bs) < length (b ∷ bs)))
          (copy_thread src dest b s)
  unfolding copy_thread
  copy_thread-Underway b bs s u = (copied-Underway b bs s u, omega arith)

  pool-Copied :
      (pick : ℕ → ℕ) (bs : List Block)
      → AreBlocks n bs
      → Returns (Copied src dest n m) (run_pool n pick (copy_thread src dest) bs m)
  pool-Copied pick bs a =
      Returns-map (Underway []) (Copied src dest n m) _
        (run_pool-Returns Underway length (copy_thread src dest) Underway-choose length-choose
          copy_thread-Underway n pick bs m a.few
          (record {
            inside = Tiles-EndsBy 0 n bs a.tiles;
            moved = λ i h. inr (Tiles-Exists 0 n bs i a.tiles (omega arith) h);
            frame = λ q o. refl;
          }))
        λ s u. record { moved = λ i h. landed s u i h; frame = u.frame }
    where
      landed : (s : Memory) → Underway [] s → (i : ℕ) → i < n → s (dest + i) ≡ m (src + i)
      landed s u i h = elim (u.moved i h) [ inl e ↦ e | inr left ↦ absurd left ]

-- If the segments do not overlap, and have fewer than 2 ^ 31 elements, `dcopy_parallel` ends in every order
-- of its copying tasks, for every block size but zero with which the number of elements adds up to no
-- more than 2 ^ 64, and has copied the segment and changed nothing else.
pub dcopy_parallel-Copied :
    (pick : ℕ → ℕ) (src dest nele block_size : ℕ) (m : Memory)
    → 0 < nele
    → 0 < block_size
    → nele < 2 ^ 31
    → nele + block_size ≤ 2 ^ 64
    → (dest + nele ≤ src) ⊎ (src + nele ≤ dest)
    → Returns (Copied src dest nele m) (dcopy_parallel pick src dest nele block_size m)
unfolding dcopy_parallel
dcopy_parallel-Copied pick src dest nele block_size m p q small room apart =
    Returns-bind (AreBlocks nele) (Copied src dest nele m) (copy_blocks nele block_size) _
      (copy_blocks-AreBlocks nele block_size p q small room)
      λ bs a. pool-Copied src dest nele m apart pick bs a
