-- ===== src/Sort/Sweep.antt =====
-- `partition_sweep` splits a segment by the pivot's value.
use mathlib.Core.Bool.{false≢true}
use computer_science.Prelude.{
  ℕ, zero, suc, ◌+◌, ◌-◌, ◌≤◌, ◌<◌, ◌≡◌, refl, inl, inr, sym, ap, ◌∙◌, lt→ltb, leb, ltb, arith,
  Bool-cases, Returns, Returns-map, Returns-bind, ltb→lt,
}
use computer_science.Memory.{Memory, swap}
use computer_science.Memory.Counts.{SameCounts, Frame}
use computer_science.Memory.Segments.{
  SameCounts-trans, Frame-trans, SameCounts-widen, Frame-widen, swap-SameCounts, swap-Frame,
  swap_lem,
}
use computer_science.Sort.{scan_left, scan_right, sweep_loop, partition_sweep}

-- `scan_left` passes exactly a run of values that are at most the pivot.
record Scanned (m : Memory) (pval left n out : ℕ) : Type 0 where
  from : left ≤ out
  upto : out ≤ left + n
  small : (i : ℕ) → left ≤ i → i < out → m i ≤ pval
  stop : out < left + n → pval < m out

scan_left-Scanned : (m : Memory) (pval left n : ℕ) → Scanned m pval left n (scan_left m pval left n)
unfolding scan_left
scan_left-Scanned m pval left zero = record {
  from = omega arith;
  upto = omega arith;
  small = λ i a b. absurd (omega arith);
  stop = λ h. absurd (omega arith);
}
scan_left-Scanned m pval left (suc n) = elim (Bool-cases (leb (m left) pval)) [
  | inl more ↦
      let s = scan_left-Scanned m pval (left + 1) n in
      rw more (record {
        from = omega (arith, s.from);
        upto = omega (arith, s.upto);
        small = λ i a b. grind (arith, s.small i);
        stop = λ h. s.stop (omega arith);
      })
  | inr done ↦ rw done (record {
    from = omega arith;
    upto = omega arith;
    small = λ i a b. absurd (omega arith);
    stop = λ h. ground arith;
  })
]

record ScannedBack (m : Memory) (pval left n out : ℕ) : Type 0 where
  upto : out ≤ n
  large : (i : ℕ) → left + out ≤ i → i < left + n → pval ≤ m i
  stop : 0 < out → m (left + out - 1) < pval

scan_right-ScannedBack :
    (m : Memory) (pval left n : ℕ) → ScannedBack m pval left n (scan_right m pval left n)
unfolding scan_right
scan_right-ScannedBack m pval left zero = record {
  upto = omega arith;
  large = λ i a b. absurd (omega arith);
  stop = λ h. absurd (omega arith);
}
scan_right-ScannedBack m pval left (suc n) = elim (Bool-cases (leb pval (m (left + n)))) [
  | inl more ↦
      let s = scan_right-ScannedBack m pval left n in
      rw more (record {
        upto = omega (arith, s.upto);
        large = λ i a b. grind (arith, s.large i);
        stop = λ h. s.stop h;
      })
  | inr done ↦ rw done (record {
    upto = omega arith;
    large = λ i a b. absurd (omega arith);
    stop = λ h. let e : left + suc n - 1 ≡ left + n = omega arith in rw e (ground arith);
  })
]

-- The segment is a permutation of the old one, at most the pivot before `out.0` and at least the
-- pivot from there on; the memory outside it is the old one.
pub record IsSplit (pval left n : ℕ) (m : Memory) (out : ℕ × Memory) : Type 0 where
  pub from : left ≤ out.0
  pub upto : out.0 ≤ left + n
  pub small : (i : ℕ) → left ≤ i → i < out.0 → out.1 i ≤ pval
  pub large : (i : ℕ) → out.0 ≤ i → i < left + n → pval ≤ out.1 i
  pub same : SameCounts left n m out.1
  pub frame : Frame left n m out.1

-- One round of the sweep: the values passed on both sides, the pair that is exchanged, and the rest.
round-IsSplit :
    (m : Memory) (pval left n l k : ℕ) (out : ℕ × Memory)
    → Scanned m pval left n l
    → ScannedBack m pval l (left + n - l) k
    → 1 < k
    → IsSplit pval (l + 1) (k - 2) (swap m l (l + k - 1)) out
    → IsSplit pval left n m out
round-IsSplit m pval left n l k out s b two r =
    let at = swap_lem m l (l + k - 1) in
    let m1 = swap m l (l + k - 1) in
    let same1 : SameCounts left n m m1 =
      swap-SameCounts m left n l (l + k - 1) (omega arith) (omega arith) (omega arith)
        (omega arith) in
    let frame1 : Frame left n m m1 =
      swap-Frame m left n l (l + k - 1) (omega arith) (omega arith) (omega arith) (omega arith) in
    let same2 : SameCounts left n m1 out.1 =
      SameCounts-widen (l + 1) (k - 2) left n m1 out.1 (omega arith) (omega arith) r.frame r.same in
    let frame2 : Frame left n m1 out.1 =
      Frame-widen (l + 1) (k - 2) left n m1 out.1 (omega arith) (omega arith) r.frame in
    record {
      from = omega (arith, s.from, r.from);
      upto = omega (arith, s.upto, b.upto, r.upto);
      small = λ i p q. ground (arith, at i, s.small i, r.small i, b.stop, (r.frame i).0);
      large = λ i p q. ground (arith, at i, b.large i, r.large i, s.stop, (r.frame i).1);
      same = SameCounts-trans left n m m1 out.1 same1 same2;
      frame = Frame-trans left n m m1 out.1 frame1 frame2;
    }

-- When no two elements are left, none is: both scans would have passed it.
last_met :
    (m : Memory) (pval left n l k : ℕ)
    → Scanned m pval left n l
    → ScannedBack m pval l (left + n - l) k
    → ¬ (1 < k)
    → k ≡ 0
last_met m pval left n l zero s b few = refl
last_met m pval left n l (suc zero) s b few =
    let e : l + 1 - 1 ≡ l = omega arith in
    absurd (omega (arith, ap m e, b.stop, s.stop, b.upto, s.upto))
last_met m pval left n l (suc (suc k)) s b few = absurd (few (omega arith))

sweep_loop-IsSplit :
    (fuel pval left n : ℕ) (m : Memory)
    → n < fuel
    → Returns (IsSplit pval left n m) (sweep_loop fuel pval left n m)
unfolding sweep_loop
sweep_loop-IsSplit zero pval left n m h = absurd (omega arith)
sweep_loop-IsSplit (suc fuel) pval left n m h =
    let l = scan_left m pval left n in
    let k = scan_right m pval l (left + n - l) in
    let s = scan_left-Scanned m pval left n in
    let b = scan_right-ScannedBack m pval l (left + n - l) in
    let m1 = swap m l (l + k - 1) in
    elim (Bool-cases (ltb 1 k)) [
      | inl more ↦
          let two : 1 < k = ltb→lt 1 k more in
          rw more (
            Returns-map (IsSplit pval (l + 1) (k - 2) m1) (IsSplit pval left n m)
              (sweep_loop fuel pval (l + 1) (k - 2) m1)
              (sweep_loop-IsSplit fuel pval (l + 1) (k - 2) m1 (omega (arith, s.from, b.upto, two)))
              λ out r. round-IsSplit m pval left n l k out s b two r)
      | inr done ↦
          let few : ¬ (1 < k) = λ two. false≢true (sym done ∙ lt→ltb 1 k two) in
          rw done (record {
            from = s.from;
            upto = s.upto;
            small = s.small;
            large = λ i p q.
                b.large i (omega (arith, last_met m pval left n l k s b few))
                  (omega (arith, s.upto));
            same = λ v. refl;
            frame = λ i. (λ a. refl, λ a. refl);
          })
    ]

-- `partition_sweep` ends, splits the segment by `pval`, and returns how many elements stand left.
pub partition_sweep-IsSplit :
    (base nele pval : ℕ) (m : Memory)
    → Returns
        (λ out. IsSplit pval base nele m (base + out.0, out.1))
        (partition_sweep base nele pval m)
unfolding partition_sweep
partition_sweep-IsSplit base nele pval m =
    Returns-bind (IsSplit pval base nele m) (λ out. IsSplit pval base nele m (base + out.0, out.1))
      (sweep_loop (nele + 1) pval base nele m) _
      (sweep_loop-IsSplit (nele + 1) pval base nele m (omega arith))
      λ out s. let e : base + (out.0 - base) ≡ out.0 = omega (arith, s.from) in rw e s
