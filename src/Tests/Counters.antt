-- ===== src/Tests/Counters.antt =====
-- goodcnt.c and badcnt.c with one iteration for each of the two threads.
use computer_science.Prelude.{List, [], ◌∷◌, ◌++◌, Bool, true, false}
use computer_science.Counter.{good_turn, run, created}
use computer_science.Counter.Good.{Finished}
use computer_science.Counter.Progress.{run-Finished}

-- The second thread tries to enter while the first is inside.
abbrev turns : List Bool
turns = true ∷ false ∷ true ∷ true ∷ false ∷ true ∷ false ∷ false ∷ false ∷ false ∷ []

run-Finished_example :
    (more : List Bool) × Finished 2 (run (good_turn 2) ((true ∷ false ∷ true ∷ []) ++ more) created)
run-Finished_example = run-Finished 2 (true ∷ false ∷ true ∷ [])
