-- ===== src/Psum/Mutex.antt =====
-- psum-mutex.c adds up right under every schedule.
use native.Mathlib.Nat.{div-add-mod}
use native.Mathlib.Numerals.{add-one}
use computer_science.Prelude.{
  Bool-cases, ==_iff, inl, inr, ℕ, zero, suc, ◌+◌, ◌-◌, ◌*◌, ◌/◌, ◌%◌, ◌^◌, ◌≤◌, ◌<◌, ◌≡◌, ◌∙◌, sym,
  refl, ap, arith, ◌==◌, List, [], ◌∷◌, Bool, true, some,
}
use computer_science.Prelude.Int.{pos}
use computer_science.Psum.{
  Run, loaded, index, may_run, step_mutex, run, total, update, compared, main_mutex, conclude,
  check_args, max_threads,
}
use computer_science.Psum.Sums.{total-update, total-congr, total-blocks, total_closed}

module _ (nthreads per : ℕ) where
  -- What a thread's iterations so far add up to.
  abbrev pub partial : (ℕ → ℕ) → ℕ → ℕ
  partial ran t = total (ran t) (λ j. t * per + j)

  -- Every thread has left its loop.
  abbrev pub Finished : Run → Type 0
  Finished r = (t : ℕ) → t < nthreads → r.ran t ≡ per

  pub partial-next :
      (ran : ℕ → ℕ) (t s : ℕ)
      → partial (update ran t (ran t + 1)) s
        ≡ update (partial ran) t (partial ran t + (t * per + ran t)) s
  unfolding total
  partial-next ran t s = elim (Bool-cases (t == s)) [
    | inl same ↦
        let e : s ≡ t = sym ((==_iff t s).0 same) in
        rw same (ap (λ (k : ℕ). total (ran t + 1) (λ j. k * per + j)) e ∙ rw (add-one (ran t)) refl)
    | inr other ↦ rw other refl
  ]

  -- When all threads have finished, their parts make up the whole sum.
  pub partial-Finished :
      (r : Run) → Finished r → total nthreads (partial r.ran) ≡ total (nthreads * per) (λ k. k)
  partial-Finished r done =
      total-congr nthreads (partial r.ran) (λ t. total per (λ j. t * per + j))
        (λ t h. ap (λ (k : ℕ). total k (λ j. t * per + j)) (done t h))
      ∙ total-blocks nthreads per

  -- The global sum is the sum of the threads' parts.
  abbrev Shared : Run → Type 0
  Shared r = r.gsum ≡ total nthreads (partial r.ran)

  step_mutex-Shared : (t : ℕ) (r : Run) → Shared r → Shared (step_mutex nthreads per t r)
  unfolding step_mutex
  step_mutex-Shared t r h = elim (Bool-cases (may_run nthreads per r t)) [
    | inl may ↦ rw may (
        sym (
          total-congr nthreads _ _ (λ s k. partial-next r.ran t s)
          ∙ total-update nthreads (partial r.ran) t (index nthreads per r t) (ground arith)
          ∙ ap (λ (k : ℕ). k + index nthreads per r t) (sym h)))
    | inr may_not ↦ rw may_not h
  ]

  run-Shared : (ts : List ℕ) (r : Run) → Shared r → Shared (run (step_mutex nthreads per) ts r)
  unfolding run
  run-Shared [] r h = h
  run-Shared (t ∷ ts) r h = run-Shared ts (step_mutex nthreads per t r) (step_mutex-Shared t r h)

pub total_zero : (n : ℕ) → total n (λ t. 0) ≡ 0
unfolding total
total_zero zero = refl
total_zero (suc n) = omega (arith, total_zero n)

loaded-Shared : (nthreads per : ℕ) → Shared nthreads per loaded
unfolding total
loaded-Shared nthreads per = sym (total_zero nthreads)

-- A number of threads for which `main` has room and which divides the number of elements, itself no
-- more than 2 ^ 31; `main` checks only that it divides, and the last.
pub record Splits (nthreads log_nelems : ℕ) : Type 0 where
  pub some_threads : 0 < nthreads
  pub fits : nthreads ≤ max_threads
  pub divides : 2 ^ log_nelems % nthreads ≡ 0
  pub bounded : log_nelems ≤ 31

unfoldable pub per_thread : ℕ → ℕ → ℕ
per_thread nthreads log_nelems = 2 ^ log_nelems / nthreads

check_args-Splits :
    (nthreads log_nelems : ℕ)
    → Splits nthreads log_nelems
    → check_args (pos nthreads) (pos log_nelems)
      ≡ some (some (nthreads, per_thread nthreads log_nelems))
unfolding check_args per_thread
check_args-Splits nthreads log_nelems a = ground arith

pub per_thread-exact :
    (nthreads log_nelems : ℕ)
    → Splits nthreads log_nelems
    → nthreads * per_thread nthreads log_nelems ≡ 2 ^ log_nelems
unfolding per_thread
per_thread-exact nthreads log_nelems a =
    omega (arith, div-add-mod (2 ^ log_nelems) nthreads, a.divides)

pub conclude-Splits :
    (nthreads log_nelems : ℕ) (result : ℕ → ℕ → ℕ)
    → Splits nthreads log_nelems
    → result nthreads (per_thread nthreads log_nelems)
      ≡ total (nthreads * per_thread nthreads log_nelems) (λ k. k)
    → conclude (pos nthreads) (pos log_nelems) result ≡ some (compared true)
unfolding conclude
conclude-Splits nthreads log_nelems result a e =
    let sum : result nthreads (per_thread nthreads log_nelems)
        ≡ 2 ^ log_nelems * (2 ^ log_nelems - 1) / 2 =
      e ∙ rw (per_thread-exact nthreads log_nelems a) (total_closed (2 ^ log_nelems)) in
    rw (check_args-Splits nthreads log_nelems a, conclude)
      (ap (λ (b : Bool). some (compared b)) ((==_iff _ _).1 sum))

-- For 1 to 32 threads, a number that divides 2 ^ log_nelems, for log_nelems up to 31, and every schedule
-- that lets all threads finish, in whatever order their iterations run, the final comparison of
-- psum-mutex.c is equal.
pub main_mutex-right :
    (nthreads log_nelems : ℕ) (schedule : List ℕ)
    → Splits nthreads log_nelems
    → Finished nthreads
        (per_thread nthreads log_nelems)
        (run (step_mutex nthreads (per_thread nthreads log_nelems)) schedule loaded)
    → main_mutex (pos nthreads) (pos log_nelems) schedule ≡ some (compared true)
unfolding main_mutex
main_mutex-right nthreads log_nelems schedule a done =
    let per = per_thread nthreads log_nelems in
    let end = run (step_mutex nthreads per) schedule loaded in
    conclude-Splits nthreads log_nelems _ a (
      run-Shared nthreads per schedule loaded (loaded-Shared nthreads per)
      ∙ partial-Finished nthreads per end done)
