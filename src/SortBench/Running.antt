-- ===== src/SortBench/Running.antt =====
-- `run_test` and `main`: what the check says of a sort, and that it accepts `tqsort`.
use computer_science.Prelude.{
  ℕ, ◌+◌, ◌^◌, ◌≤◌, ◌≡◌, ◌∙◌, ◌⊎◌, ◌↔◌, refl, sym, ap, inl, inr, arith, true, false, Bool, List, [],
  ◌∷◌, Option, none, some, Bool-cases, Returns, Returns-map, Returns-some, Option-cases,
}
use computer_science.Memory.{Memory}
use computer_science.Memory.Counts.{SameCounts}
use computer_science.Sort.Serial.{Ascending}
use computer_science.Parallel.{Schedule}
use computer_science.Parallel.Splitting.{Outside}
use computer_science.Parallel.Tqsort.{Library, Config, qsort_lib, tqsort}
use computer_science.Parallel.Threads.{SortsWith, tqsort-SortsWith}
use computer_science.SortBench.{
  Verdict, no_memory, usage, completed, Calloc, allocate, fill, gen_data, check_loop, run_checked,
  run_test, CommandOption, Settings, defaults, set_options, config, main,
}
use computer_science.SortBench.Filling.{Listed, Spread, fill-Filled}
use computer_science.SortBench.Check.{Agrees, sorted-completed, completed-sorted}

some_inj : {v w : Verdict} → some v ≡ some w → v ≡ w
some_inj e = cc

module _ (calloc : Calloc) (nele : ℕ) where
  -- Where the copies are.
  abbrev pub copy : ℕ → ℕ
  copy = calloc.place nele

  abbrev pub three : List ℕ
  three = copy 0 ∷ copy 1 ∷ copy 2 ∷ []

  abbrev Distinct : ℕ → ℕ → Type 0
  Distinct a b = (a ≡ b) ⊎ ((a + nele ≤ b) ⊎ (b + nele ≤ a))

  three-Spread : Spread nele three
  three-Spread a b (inl e) (inl f) = inl (e ∙ sym f)
  three-Spread a b (inl e) (inr (inl f)) =
      rw (e, f) (inr (calloc.apart nele 0 1 (λ q. omega (arith, q))))
  three-Spread a b (inl e) (inr (inr (inl f))) =
      rw (e, f) (inr (calloc.apart nele 0 2 (λ q. omega (arith, q))))
  three-Spread a b (inr (inl e)) (inl f) =
      rw (e, f) (inr (calloc.apart nele 1 0 (λ q. omega (arith, q))))
  three-Spread a b (inr (inl e)) (inr (inl f)) = inl (e ∙ sym f)
  three-Spread a b (inr (inl e)) (inr (inr (inl f))) =
      rw (e, f) (inr (calloc.apart nele 1 2 (λ q. omega (arith, q))))
  three-Spread a b (inr (inr (inl e))) (inl f) =
      rw (e, f) (inr (calloc.apart nele 2 0 (λ q. omega (arith, q))))
  three-Spread a b (inr (inr (inl e))) (inr (inl f)) =
      rw (e, f) (inr (calloc.apart nele 2 1 (λ q. omega (arith, q))))
  three-Spread a b (inr (inr (inl e))) (inr (inr (inl f))) = inl (e ∙ sym f)
  three-Spread a b (inr (inr (inr e))) l = absurd e
  three-Spread a b (inl e) (inr (inr (inr f))) = absurd f
  three-Spread a b (inr (inl e)) (inr (inr (inr f))) = absurd f
  three-Spread a b (inr (inr (inl e))) (inr (inr (inr f))) = absurd f

  -- The first and the third copy are filled with the same.
  filled-Agrees :
      (random : ℕ → ℕ) (m : Memory) → Agrees (copy 0) (copy 2) nele (fill random three 0 nele m)
  filled-Agrees random m k lt =
      let filled : (a : ℕ) → Listed a three → fill random three 0 nele m (a + k) ≡ random k = λ a.
        fill-Filled random nele three 0 nele m three-Spread (omega arith)
          (λ k a lt. absurd (omega (arith, lt))) k a (omega (arith, lt)) in
      filled (copy 0) (inl refl) ∙ sym (filled (copy 2) (inr (inr (inl refl))))

  allocate-three : ((c : ℕ) → calloc.available c ≡ true) → allocate calloc nele 0 3 ≡ some three
  unfolding allocate
  allocate-three there = ground (arith, there 0, there 1, there 2)

  -- There is memory for all copies, or the program ends.
  allocate-three_or_none :
      (allocate calloc nele 0 3 ≡ some three) ⊎ (allocate calloc nele 0 3 ≡ none)
  unfolding allocate
  allocate-three_or_none = ground (
    arith,
    Bool-cases (calloc.available 0),
    Bool-cases (calloc.available 1),
    Bool-cases (calloc.available 2),
  )

  allocate_two_or_none :
      (allocate calloc nele 0 2 ≡ some (copy 0 ∷ copy 1 ∷ [])) ⊎ (allocate calloc nele 0 2 ≡ none)
  unfolding allocate
  allocate_two_or_none =
      ground (arith, Bool-cases (calloc.available 0), Bool-cases (calloc.available 1))

  gen_data-three :
      (random : ℕ → ℕ) (m : Memory)
      → allocate calloc nele 0 3 ≡ some three
      → gen_data calloc random 3 nele m ≡ inr (three, fill random three 0 nele m)
  unfolding gen_data
  gen_data-three random m e = rw (e, gen_data) refl

  run_test-three :
      (lib : Library) (random : ℕ → ℕ) (sfun : ℕ → ℕ → ℕ → Memory → Option Memory) (m m2 : Memory)
      → allocate calloc nele 0 3 ≡ some three
      → sfun (copy 0) nele (copy 1) (fill random three 0 nele m) ≡ some m2
      → run_test lib calloc random sfun nele true m
        ≡ some (check_loop (copy 0) (copy 2) nele 0 nele (qsort_lib lib (copy 2) nele m2))
  unfolding run_test run_checked
  run_test-three lib random sfun m m2 e ran = rw (gen_data-three random m e, run_test) (rw ran refl)

-- For every sort function that ends and writes nothing but its array and its scratch space, if there
-- is memory, `run_test` with the check completes exactly if the function has left its array
-- ascending and a permutation of the random data.
pub run_test-completed :
    (lib : Library) (calloc : Calloc) (random : ℕ → ℕ) (sfun : ℕ → ℕ → ℕ → Memory → Option Memory)
    (nele : ℕ) (m m2 : Memory)
    → ((c : ℕ) → calloc.available c ≡ true)
    → sfun (copy calloc nele 0) nele (copy calloc nele 1) (fill random (three calloc nele) 0 nele m)
      ≡ some m2
    → ((q : ℕ)
        → Outside (copy calloc nele 0) (copy calloc nele 1) nele q
        → m2 q ≡ fill random (three calloc nele) 0 nele m q)
    → (run_test lib calloc random sfun nele true m ≡ some completed) ↔ (
        Ascending (copy calloc nele 0) nele m2
        × SameCounts (copy calloc nele 0) nele (fill random (three calloc nele) 0 nele m) m2)
run_test-completed lib calloc random sfun nele m m2 there ran frame =
    let run =
      run_test-three calloc nele lib random sfun m m2 (allocate-three calloc nele there) ran in
    let apart = calloc.apart nele in
    let same = filled-Agrees calloc nele random m in
    rw run (
      λ e.
          completed-sorted lib (copy calloc nele 0) (copy calloc nele 1) (copy calloc nele 2) nele _
            m2 same (apart 0 2 (λ q. omega (arith, q))) (apart 1 2 (λ q. omega (arith, q))) frame
            (some_inj e),
      λ h. ap some (
          sorted-completed lib (copy calloc nele 0) (copy calloc nele 1) (copy calloc nele 2) nele _
            m2 same (apart 0 2 (λ q. omega (arith, q))) (apart 1 2 (λ q. omega (arith, q))) frame
            h.0 h.1),
    )

-- A run that completes, or finds no memory: without a message of the check.
abbrev pub IsGood : Verdict → Type 0
IsGood verdict = (verdict ≡ completed) ⊎ (verdict ≡ no_memory)

-- An `int` counts the elements, if they are partitioned in parallel.
abbrev pub IsCounted : (nele fraction : ℕ) → Type 0
IsCounted nele fraction = (nele ≤ 2 ^ 31) ⊎ (fraction ≤ 1)

tqsort-checked :
    (cfg : Config) (calloc : Calloc) (random : ℕ → ℕ) (nele : ℕ) (m : Memory)
    → IsCounted nele cfg.serial_partition_fraction
    → allocate calloc nele 0 3 ≡ some (three calloc nele)
    → Returns IsGood (run_test cfg.lib calloc random (tqsort cfg) nele true m)
tqsort-checked cfg calloc random nele m counted e =
    let apart = calloc.apart nele in
    let m1 = fill random (three calloc nele) 0 nele m in
    let (m2, ran, s) =
      Returns-some (SortsWith (copy calloc nele 0) nele (copy calloc nele 1) m1) _ (
        tqsort-SortsWith cfg (copy calloc nele 0) nele (copy calloc nele 1) m1 counted
          (apart 1 0 (λ q. omega (arith, q)))) in
    rw (run_test-three calloc nele cfg.lib random (tqsort cfg) m m2 e ran) (
      inl (
        sorted-completed cfg.lib (copy calloc nele 0) (copy calloc nele 1) (copy calloc nele 2) nele
          m1 m2 (filled-Agrees calloc nele random m) (apart 0 2 (λ q. omega (arith, q)))
          (apart 1 2 (λ q. omega (arith, q))) s.frame s.ascending s.same))

tqsort-IsGood :
    (cfg : Config) (calloc : Calloc) (random : ℕ → ℕ) (nele : ℕ) (check : Bool) (m : Memory)
    → IsCounted nele cfg.serial_partition_fraction
    → Returns IsGood (run_test cfg.lib calloc random (tqsort cfg) nele check m)
unfolding run_test gen_data run_checked
tqsort-IsGood cfg calloc random nele true m counted = elim (allocate-three_or_none calloc nele) [
  | inl e ↦ tqsort-checked cfg calloc random nele m counted e
  | inr missing ↦ rw (missing, run_test) (inr refl)
]
tqsort-IsGood cfg calloc random nele false m counted = elim (allocate_two_or_none calloc nele) [
  | inl e ↦
      let m1 = fill random (copy calloc nele 0 ∷ copy calloc nele 1 ∷ []) 0 nele m in
      let (m2, ran, s) =
        Returns-some (SortsWith (copy calloc nele 0) nele (copy calloc nele 1) m1) _ (
          tqsort-SortsWith cfg (copy calloc nele 0) nele (copy calloc nele 1) m1 counted
            (calloc.apart nele 1 0 (λ q. omega (arith, q)))) in
      rw (e, run_test) (rw ran (inl refl))
  | inr missing ↦ rw (missing, run_test) (inr refl)
]

-- `main` never prints a sort error: for all options, tuning parameters among them, that do not ask for
-- more than 2 ^ 31 elements together with a parallel partition, in every order of the tasks of `tqsort`, for all random data and with or without the check, it completes or finds no
-- memory, or it has called `usage` because of the options.
pub main-IsGood :
    (lib : Library) (sched : Schedule) (calloc : Calloc) (random : ℕ → ℕ)
    (options : List CommandOption) (m : Memory)
    → ((s : Settings)
        → set_options options defaults ≡ some s
        → IsCounted s.nele s.serial_partition_fraction)
    → Returns
        (λ verdict. IsGood verdict ⊎ ((verdict ≡ usage) × (set_options options defaults ≡ none)))
        (main lib sched calloc random options m)
unfolding main
main-IsGood lib sched calloc random options m counted =
    elim (Option-cases (set_options options defaults)) [
      | inl e ↦ rw (e, main) (inr (refl, refl))
      | inr (s, e) ↦
          rw (e, main)
            (Returns-map IsGood _ _
              (tqsort-IsGood (config lib sched s) calloc random s.nele s.check m (counted s e))
              (λ verdict good. inl good))
    ]
