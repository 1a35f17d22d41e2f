-- ===== src/Psum/Array.antt =====
-- psum-array.c and psum-local.c add up right under every schedule.
use native.Mathlib.Nat.{one-le-pow}
use computer_science.Prelude.{
  Bool-cases, inl, inr, ℕ, ◌<◌, ◌≡◌, ◌∙◌, refl, arith, List, [], ◌∷◌, true, some,
}
use computer_science.Prelude.Int.{pos}
use computer_science.Psum.{
  Run, loaded, may_run, step_array, step_local, run, total, compared, main_array, main_local,
}
use computer_science.Psum.Sums.{total-congr}
use computer_science.Psum.Mutex.{
  partial, partial-next, partial-Finished, Finished, Splits, per_thread, per_thread-exact,
  conclude-Splits,
}

module _ (nthreads per : ℕ) where
  -- Each thread's element is what its iterations add up to.
  abbrev Apart : Run → Type 0
  Apart r = (s : ℕ) → r.psum s ≡ partial nthreads per r.ran s

  step_array-Apart : (t : ℕ) (r : Run) → Apart r → Apart (step_array nthreads per t r)
  unfolding step_array
  step_array-Apart t r h s = elim (Bool-cases (may_run nthreads per r t)) [
    | inl may ↦ rw may (ground (arith, partial-next nthreads per r.ran t s, h t, h s))
    | inr may_not ↦ rw may_not (h s)
  ]

  run-Apart : (ts : List ℕ) (r : Run) → Apart r → Apart (run (step_array nthreads per) ts r)
  unfolding run
  run-Apart [] r h = h
  run-Apart (t ∷ ts) r h = run-Apart ts (step_array nthreads per t r) (step_array-Apart t r h)

  -- Each thread's local sum is what its iterations add up to, and its element is that of a thread
  -- that has finished.
  record Local (r : Run) (s : ℕ) : Type 0 where
    sums : r.local s ≡ partial nthreads per r.ran s
    stored : 0 < per → r.ran s ≡ per → r.psum s ≡ partial nthreads per r.ran s

  step_local-Local :
      (t s : ℕ) (r : Run) → Local r t → Local r s → Local (step_local nthreads per t r) s
  unfolding step_local
  step_local-Local t s r ht h = elim (Bool-cases (may_run nthreads per r t)) [
    | inl may ↦ rw may (record {
      sums = ground (arith, partial-next nthreads per r.ran t s, ht.sums, h.sums);
      stored =
          λ p e. ground (arith, partial-next nthreads per r.ran t s, ht.sums, h.sums, h.stored p);
    })
    | inr may_not ↦ rw may_not h
  ]

  run-Local :
      (ts : List ℕ) (r : Run)
      → ((s : ℕ) → Local r s)
      → (s : ℕ) → Local (run (step_local nthreads per) ts r) s
  unfolding run
  run-Local [] r h = h
  run-Local (t ∷ ts) r h =
      run-Local ts (step_local nthreads per t r) (λ s. step_local-Local t s r (h t) (h s))

loaded-Apart : (nthreads per : ℕ) → Apart nthreads per loaded
unfolding total
loaded-Apart nthreads per s = refl

loaded-Local : (nthreads per s : ℕ) → Local nthreads per loaded s
unfolding total
loaded-Local nthreads per s = record { sums = refl; stored = λ p e. refl }

-- Splits arguments give every thread at least one element.
per_thread-pos :
    (nthreads log_nelems : ℕ) → Splits nthreads log_nelems → 0 < per_thread nthreads log_nelems
per_thread-pos nthreads log_nelems a =
    grind (arith, per_thread-exact nthreads log_nelems a, one-le-pow log_nelems 2)

-- For 1 to 32 threads, a number that divides 2 ^ log_nelems, for log_nelems up to 31, and every schedule
-- that lets all threads finish, in whatever order their iterations run, the final comparison of
-- psum-array.c is equal.
main_array-right :
    (nthreads log_nelems : ℕ) (schedule : List ℕ)
    → Splits nthreads log_nelems
    → Finished nthreads
        (per_thread nthreads log_nelems)
        (run (step_array nthreads (per_thread nthreads log_nelems)) schedule loaded)
    → main_array (pos nthreads) (pos log_nelems) schedule ≡ some (compared true)
unfolding main_array
main_array-right nthreads log_nelems schedule a done =
    let per = per_thread nthreads log_nelems in
    let end = run (step_array nthreads per) schedule loaded in
    conclude-Splits nthreads log_nelems _ a (
      total-congr nthreads end.psum (partial nthreads per end.ran)
        (λ s h. run-Apart nthreads per schedule loaded (loaded-Apart nthreads per) s)
      ∙ partial-Finished nthreads per end done)

-- For 1 to 32 threads, a number that divides 2 ^ log_nelems, for log_nelems up to 31, and every schedule
-- that lets all threads finish, in whatever order their iterations run, the final comparison of
-- psum-local.c is equal.
main_local-right :
    (nthreads log_nelems : ℕ) (schedule : List ℕ)
    → Splits nthreads log_nelems
    → Finished nthreads
        (per_thread nthreads log_nelems)
        (run (step_local nthreads (per_thread nthreads log_nelems)) schedule loaded)
    → main_local (pos nthreads) (pos log_nelems) schedule ≡ some (compared true)
unfolding main_local
main_local-right nthreads log_nelems schedule a done =
    let per = per_thread nthreads log_nelems in
    let end = run (step_local nthreads per) schedule loaded in
    conclude-Splits nthreads log_nelems _ a (
      total-congr nthreads end.psum (partial nthreads per end.ran) (λ s h.
        (run-Local nthreads per schedule loaded (loaded-Local nthreads per) s).stored
          (per_thread-pos nthreads log_nelems a) (done s h))
      ∙ partial-Finished nthreads per end done)
