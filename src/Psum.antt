-- ===== src/Psum.antt =====
-- CMU15-213/26-parallelism: psum-mutex.c, psum-array.c and psum-local.c, which sum 0 .. nelems - 1 by
-- parallel threads. A schedule names the thread that runs its next loop iteration, in any order and
-- of any length; a thread that has left its loop ignores its turn. An iteration is one step: in
-- psum-mutex.c it runs between `P` and `V`, in the others it touches only its thread's own data.
-- The sums stay below 2^62, so `long` does not overflow.
pub mod Sums
pub mod Mutex
pub mod Array
use computer_science.Prelude.{
  ℕ, zero, suc, ◌+◌, ◌-◌, ◌*◌, ◌/◌, ◌%◌, ◌^◌, ◌≤◌, Bool, true, false, ◌||◌, ◌&&◌, not, List, [],
  ◌∷◌, Option, none, some, ltb, leb, ◌==◌, if◌then◌else◌,
}
use computer_science.Prelude.Int.{ℤ, pos, negsuc, pos_part}

abbrev pub max_threads : ℕ
max_threads = 32

-- What `main` comes to: the error of the argument check, or the final comparison.
pub data Outcome : Type 0 where
  invalid : Outcome
  compared : (equal : Bool) → Outcome

-- `v[i] = x` for data indexed by the thread.
abbrev pub update : (ℕ → ℕ) → ℕ → ℕ → ℕ → ℕ
update v i x j = if i == j then x else v j

-- The iterations that each thread has run, and the data that the threads write.
pub record Run : Type 0 where
  pub ran : ℕ → ℕ
  pub gsum : ℕ
  pub psum : ℕ → ℕ
  pub local : ℕ → ℕ

abbrev pub loaded : Run
loaded = record { ran = λ t. 0; gsum = 0; psum = λ t. 0; local = λ t. 0 }

module _ (nthreads per : ℕ) where
  -- `i` of a thread: `start` and what it has run
  abbrev pub index : Run → ℕ → ℕ
  index r t = t * per + r.ran t

  abbrev pub may_run : Run → ℕ → Bool
  may_run r t = ltb t nthreads && ltb (r.ran t) per

  -- `P(&mutex); gsum += i; V(&mutex);`
  unfoldable pub step_mutex : ℕ → Run → Run
  step_mutex t r =
      if may_run r t
      then record r { gsum = r.gsum + index r t; ran = update r.ran t (r.ran t + 1) }
      else r

  -- `psum[myid] += i;`
  unfoldable pub step_array : ℕ → Run → Run
  step_array t r =
      if may_run r t
      then record r {
        psum = update r.psum t (r.psum t + index r t);
        ran = update r.ran t (r.ran t + 1);
      }
      else r

  -- `sum += i;`, and `psum[myid] = sum;` behind the last iteration
  unfoldable pub step_local : ℕ → Run → Run
  step_local t r =
      if may_run r t
      then (let sum = r.local t + index r t in
          record r {
            local = update r.local t sum;
            psum = if r.ran t + 1 == per then update r.psum t sum else r.psum;
            ran = update r.ran t (r.ran t + 1);
          })
      else r

unfoldable pub run : (ℕ → Run → Run) → List ℕ → Run → Run
run step [] r = r
run step (t ∷ ts) r = run step ts (step t r)

-- `for (i = 0; i < nthreads; i++) result += psum[i];`
unfoldable pub total : ℕ → (ℕ → ℕ) → ℕ
total zero f = 0
total (suc n) f = total n f + f n

-- The arguments that pass the check in `main`; `none` is a shift out of `long`, a division by
-- zero, or a thread number behind the arrays. The result is how many threads the loops create, and
-- `nelems_per_thread`, which nothing reads if a negative number passes the check and creates none.
unfoldable pub check_args : ℤ → ℤ → Option (Option (ℕ × ℕ))
check_args nthreads (negsuc l) = none
check_args (pos nthreads) (pos log_nelems) =
    let nelems = 2 ^ log_nelems in
    if leb 63 log_nelems || nthreads == 0
    then none
    else if not (nelems % nthreads == 0) || ltb 31 log_nelems
    then some none
    else if ltb max_threads nthreads
    then none
    else some (some (nthreads, nelems / nthreads))
check_args (negsuc n) (pos log_nelems) =
    if leb 63 log_nelems
    then none
    else if not (2 ^ log_nelems % suc n == 0) || ltb 31 log_nelems
    then some none
    else some (some (0, 0))

unfoldable pub conclude : ℤ → ℤ → (ℕ → ℕ → ℕ) → Option Outcome
unfolding check_args
conclude nthreads log_nelems result = elim (check_args nthreads log_nelems) [
  | none ↦ none
  | some none ↦ some invalid
  | some (some (threads, per)) ↦
      let nelems = 2 ^ pos_part log_nelems in
      some (compared (result threads per == nelems * (nelems - 1) / 2))
]

-- The three `main`s, on a schedule up to the last `pthread_join`.
unfoldable pub main_mutex : ℤ → ℤ → List ℕ → Option Outcome
unfolding conclude run step_mutex
main_mutex nthreads log_nelems schedule =
    conclude nthreads log_nelems
      (λ threads per. (run (step_mutex threads per) schedule loaded).gsum)

unfoldable pub main_array : ℤ → ℤ → List ℕ → Option Outcome
unfolding conclude run step_array total
main_array nthreads log_nelems schedule =
    conclude nthreads log_nelems
      (λ threads per. total threads (run (step_array threads per) schedule loaded).psum)

unfoldable pub main_local : ℤ → ℤ → List ℕ → Option Outcome
unfolding conclude run step_local total
main_local nthreads log_nelems schedule =
    conclude nthreads log_nelems
      (λ threads per. total threads (run (step_local threads per) schedule loaded).psum)
