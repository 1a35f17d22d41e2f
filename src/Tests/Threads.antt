-- ===== src/Tests/Threads.antt =====
-- psum-*.c: four elements, two threads that take turns.
use computer_science.Prelude.{ℕ, ◌≡◌, refl, arith, List, [], ◌∷◌, some, true}
use computer_science.Prelude.Int.{pos}
use computer_science.Psum.{compared, main_mutex, step_mutex, step_array, step_local, run, loaded}
use computer_science.Psum.Mutex.{Splits, Finished, per_thread, main_mutex-right}

abbrev turns : List ℕ
turns = 0 ∷ 1 ∷ 1 ∷ 0 ∷ []

four-Splits : Splits 2 2
four-Splits = record {
  some_threads = omega arith;
  fits = omega arith;
  divides = refl;
  bounded = omega arith;
}

turns_mutex-Finished :
    Finished 2 (per_thread 2 2) (run (step_mutex 2 (per_thread 2 2)) turns loaded)
unfolding run step_mutex per_thread
turns_mutex-Finished t h = ground arith

turns_array-Finished :
    Finished 2 (per_thread 2 2) (run (step_array 2 (per_thread 2 2)) turns loaded)
unfolding run step_array per_thread
turns_array-Finished t h = ground arith

turns_local-Finished :
    Finished 2 (per_thread 2 2) (run (step_local 2 (per_thread 2 2)) turns loaded)
unfolding run step_local per_thread
turns_local-Finished t h = ground arith

main_mutex-right_example : main_mutex (pos 2) (pos 2) turns ≡ some (compared true)
main_mutex-right_example = main_mutex-right 2 2 turns four-Splits turns_mutex-Finished
