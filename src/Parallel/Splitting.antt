-- ===== src/Parallel/Splitting.antt =====
-- The threads of `partition_parallel`: in every order of their critical sections the left parts of
-- the blocks fill the segment from its start and the right parts from its end.
use computer_science.Prelude.{
  ℕ, ◌+◌, ◌-◌, ◌≤◌, ◌<◌, ◌≡◌, ◌∙◌, refl, ap, arith, ◌⊎◌, inl, inr, List, [], ◌∷◌, Bool-cases, ltb,
}
use computer_science.Memory.{Memory}
use computer_science.Memory.Counts.{count, count_add, count_agree, count_shift}
use computer_science.Sort.Sweep.{IsSplit}
use computer_science.Parallel.{Block, bcopy, Partitioning}
use computer_science.Parallel.Pool.{choose}
use computer_science.Parallel.Choice.{
  All, Pairwise, sum_of, All-choose, Pairwise-choose, sum_of-choose,
}
use computer_science.Parallel.Blocks.{EndsBy, Disjoint, Disjoint-sym}
use computer_science.Parallel.Copying.{bcopy-inside, bcopy-outside}

-- An address outside the first `n` elements of both arrays.
abbrev pub Outside : ℕ → ℕ → ℕ → ℕ → Type 0
Outside base scr n q = ((q < base) ⊎ (base + n ≤ q)) × ((q < scr) ⊎ (scr + n ≤ q))

abbrev pub block_count : Memory → ℕ → ℕ → Block → ℕ
block_count m scr v b = count m (scr + b.start) b.size v

module _ (base scr n pval : ℕ) (m : Memory) (apart : (scr + n ≤ base) ⊎ (base + n ≤ scr)) where
  pub record Splitting (bs : List Block) (par : Partitioning) : Type 0 where
    pub inside : All (EndsBy n) bs
    pub disjoint : Pairwise Disjoint bs
    pub room : par.next_left_index + sum_of (λ b. b.size) bs ≡ par.next_right_index
    pub upto : par.next_right_index ≤ n
    pub small : (i : ℕ) → i < par.next_left_index → par.mem (base + i) ≤ pval
    pub large : (i : ℕ) → par.next_right_index ≤ i → i < n → pval ≤ par.mem (base + i)
    pub counts :
        (v : ℕ)
        → count par.mem base par.next_left_index v
            + count par.mem (base + par.next_right_index) (n - par.next_right_index) v
            + sum_of (block_count par.mem scr v) bs
          ≡ count m scr n v
    pub frame : (q : ℕ) → Outside base scr n q → par.mem q ≡ m q

  pub Splitting-choose :
      (i : ℕ) (b : Block) (bs : List Block) (par : Partitioning)
      → Splitting (b ∷ bs) par
      → Splitting ((choose i b bs).0 ∷ (choose i b bs).1) par
  Splitting-choose i b bs par s = record {
    inside = All-choose (EndsBy n) i b bs s.inside;
    disjoint = Pairwise-choose Disjoint i b bs Disjoint-sym s.disjoint;
    room = omega (arith, s.room, sum_of-choose (λ (c : Block). c.size) i b bs);
    upto = s.upto;
    small = s.small;
    large = s.large;
    counts = λ v. omega (arith, s.counts v, sum_of-choose (block_count par.mem scr v) i b bs);
    frame = s.frame;
  }

  -- One thread: its block is split in place, and its parts go where the critical section says.
  module _ (b : Block) (bs : List Block) (par : Partitioning) (s : Splitting (b ∷ bs) par)
      (nleft : ℕ) (mem1 : Memory)
      (split : IsSplit pval (scr + b.start) b.size par.mem (scr + b.start + nleft, mem1)) where
    abbrev nright : ℕ
    nright = b.size - nleft

    abbrev left_index : ℕ
    left_index = par.next_left_index

    abbrev right_index : ℕ
    right_index = par.next_right_index - nright

    abbrev mem2 : Memory
    mem2 = bcopy mem1 (scr + b.start) (base + left_index) nleft

    abbrev mem3 : Memory
    mem3 = bcopy mem2 (scr + b.start + nleft) (base + right_index) nright

    left_copied : (k : ℕ) → k < nleft → mem3 (base + left_index + k) ≡ mem1 (scr + b.start + k)
    left_copied k h =
        bcopy-outside mem2 (scr + b.start + nleft) (base + right_index) nright
          (base + left_index + k) (inl (omega (arith, s.room, split.upto)))
        ∙ bcopy-inside mem1 (scr + b.start) (base + left_index) nleft k h

    right_copied :
        (k : ℕ) → k < nright → mem3 (base + right_index + k) ≡ mem1 (scr + b.start + nleft + k)
    right_copied k h =
        bcopy-inside mem2 (scr + b.start + nleft) (base + right_index) nright k h
        ∙ bcopy-outside mem1 (scr + b.start) (base + left_index) nleft (scr + b.start + nleft + k)
            (elim apart [
              | inl low ↦ inl (omega (arith, s.inside.0, split.upto))
              | inr high ↦ inr (omega (arith, s.room, s.upto, split.upto))
            ])

    -- Neither the block nor the reserved places.
    untouched :
        (q : ℕ)
        → (q < scr + b.start) ⊎ (scr + b.start + b.size ≤ q)
        → (q < base + left_index) ⊎ (base + par.next_right_index ≤ q)
        → mem3 q ≡ par.mem q
    untouched q o p =
        bcopy-outside mem2 (scr + b.start + nleft) (base + right_index) nright q (not_right q p)
        ∙ bcopy-outside mem1 (scr + b.start) (base + left_index) nleft q (not_left q p)
        ∙ elim o [ inl before ↦ (split.frame q).0 before | inr behind ↦ (split.frame q).1 behind ]
      where
        not_right :
            (q : ℕ)
            → (q < base + left_index) ⊎ (base + par.next_right_index ≤ q)
            → (q < base + right_index) ⊎ (base + right_index + nright ≤ q)
        not_right q (inl h) = inl (omega (arith, s.room, split.upto))
        not_right q (inr h) = inr (omega (arith, s.room, split.upto))

        not_left :
            (q : ℕ)
            → (q < base + left_index) ⊎ (base + par.next_right_index ≤ q)
            → (q < base + left_index) ⊎ (base + left_index + nleft ≤ q)
        not_left q (inl h) = inl h
        not_left q (inr h) = inr (omega (arith, s.room, split.upto))

    -- The segment's elements that earlier threads have placed.
    placed :
        (q : ℕ)
        → (base ≤ q) × (q < base + left_index)
          ⊎ ((base + par.next_right_index ≤ q) × (q < base + n))
        → mem3 q ≡ par.mem q
    placed q (inl (lo, hi)) =
        untouched q
          (elim apart [
            | inl low ↦ inr (omega (arith, s.inside.0))
            | inr high ↦ inl (omega (arith, s.room, s.upto))
          ])
          (inl hi)
    placed q (inr (lo, hi)) =
        untouched q
          (elim apart [
            | inl low ↦ inr (omega (arith, s.inside.0))
            | inr high ↦ inl (omega (arith, s.room, s.upto))
          ])
          (inr lo)

    others :
        (c : Block)
        → EndsBy n c
        → Disjoint b c
        → (v : ℕ) → block_count mem3 scr v c ≡ block_count par.mem scr v c
    others c e d v = count_agree mem3 par.mem (scr + c.start) c.size v λ q lo hi.
        untouched q (elim d [ inl h ↦ inr (omega arith) | inr h ↦ inl (omega arith) ])
          (elim apart [ inl low ↦ inl (omega arith) | inr high ↦ inr (omega (arith, s.upto)) ])

    others_sum :
        (cs : List Block)
        → All (EndsBy n) cs
        → All (Disjoint b) cs
        → (v : ℕ) → sum_of (block_count mem3 scr v) cs ≡ sum_of (block_count par.mem scr v) cs
    others_sum [] e d v = refl
    others_sum (c ∷ cs) e d v = omega (arith, others c e.0 d.0 v, others_sum cs e.1 d.1 v)

    left_small : (i : ℕ) → i < left_index + nleft → mem3 (base + i) ≤ pval
    left_small i h = elim (Bool-cases (ltb i left_index)) [
      | inl old ↦
          omega
            (arith, placed (base + i) (inl (omega arith, ground arith)), s.small i (ground arith))
      | inr new ↦
          let k = i - left_index in
          let from : left_index ≤ i = ground arith in
          let at : base + left_index + k ≡ base + i = omega (arith, from) in
          omega (
            arith,
            ap mem3 at,
            left_copied k (omega (arith, from)),
            split.small (scr + b.start + k) (omega arith) (omega (arith, from)),
          )
    ]

    right_large : (i : ℕ) → right_index ≤ i → i < n → pval ≤ mem3 (base + i)
    right_large i lo hi = elim (Bool-cases (ltb i par.next_right_index)) [
      | inl new ↦
          let k = i - right_index in
          let upto : i < par.next_right_index = ground arith in
          let at : base + right_index + k ≡ base + i = omega arith in
          omega (
            arith,
            ap mem3 at,
            right_copied k (omega (arith, upto, s.room, split.upto)),
            split.large (scr + b.start + nleft + k) (omega arith)
                (omega (arith, upto, s.room, split.upto)),
          )
      | inr old ↦
          let from : par.next_right_index ≤ i = ground arith in
          omega
            (arith, placed (base + i) (inr (omega (arith, from), omega arith)), s.large i from hi)
    ]

    left_count :
        (v : ℕ)
        → count mem3 base (left_index + nleft) v
          ≡ count par.mem base left_index v + count mem1 (scr + b.start) nleft v
    left_count v = omega (
      arith,
      count_add mem3 base left_index nleft v,
      count_agree mem3 par.mem base left_index v (λ q lo hi. placed q (inl (lo, hi))),
      count_shift mem3 mem1 (base + left_index) (scr + b.start) nleft v left_copied,
    )

    right_count :
        (v : ℕ)
        → count mem3 (base + right_index) (n - right_index) v
          ≡ count mem1 (scr + b.start + nleft) nright v
            + count par.mem (base + par.next_right_index) (n - par.next_right_index) v
    right_count v =
        let size : n - right_index ≡ nright + (n - par.next_right_index) =
          omega (arith, s.room, s.upto, split.upto) in
        let place : base + right_index + nright ≡ base + par.next_right_index =
          omega (arith, s.room, split.upto) in
        let rest = n - par.next_right_index in
        rw size (
          omega (
            arith,
            count_add mem3 (base + right_index) nright rest v,
            ap (λ (p : ℕ). count mem3 p rest v) place,
            count_agree mem3 par.mem (base + par.next_right_index) rest v
                (λ q lo hi. placed q (inr (lo, omega (arith, s.upto)))),
            count_shift mem3 mem1 (base + right_index) (scr + b.start + nleft) nright v
                right_copied,
          ))

    block_parts :
        (v : ℕ)
        → count mem1 (scr + b.start) nleft v + count mem1 (scr + b.start + nleft) nright v
          ≡ block_count par.mem scr v b
    block_parts v =
        let size : b.size ≡ nleft + nright = omega (arith, split.upto) in
        omega (
          arith,
          count_add mem1 (scr + b.start) nleft nright v,
          split.same v,
          ap (λ (k : ℕ). count mem1 (scr + b.start) k v) size,
        )

    pub thread-Splitting : Splitting bs (record {
      mem = mem3;
      next_left_index = left_index + nleft;
      next_right_index = right_index;
    })
    thread-Splitting = record {
      inside = s.inside.1;
      disjoint = s.disjoint.1;
      room = omega (arith, s.room, split.upto);
      upto = omega (arith, s.upto);
      small = left_small;
      large = right_large;
      counts = λ v. omega (
        arith,
        s.counts v,
        left_count v,
        right_count v,
        block_parts v,
        others_sum bs s.inside.1 s.disjoint.0 v,
      );
      frame = λ q o. untouched q (outside_block q o.1) (outside_places q o.0) ∙ s.frame q o;
    }
      where
        outside_block :
            (q : ℕ) → (q < scr) ⊎ (scr + n ≤ q) → (q < scr + b.start) ⊎ (scr + b.start + b.size ≤ q)
        outside_block q (inl h) = inl (omega arith)
        outside_block q (inr h) = inr (omega (arith, s.inside.0))

        outside_places :
            (q : ℕ)
            → (q < base) ⊎ (base + n ≤ q)
            → (q < base + left_index) ⊎ (base + par.next_right_index ≤ q)
        outside_places q (inl h) = inl (omega arith)
        outside_places q (inr h) = inr (omega (arith, s.upto))
