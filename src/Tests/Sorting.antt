-- ===== src/Tests/Sorting.antt =====
-- pqsort.c on six numbers.
use computer_science.Prelude.{ℕ, ◌≡◌, refl, some, List, [], ◌∷◌, get_or, Returns, ◌>>=◌}
use computer_science.Memory.{Memory}
use computer_science.Sort.{qsort_serial}
use computer_science.Sort.Serial.{Sorts, qsort_serial-Sorts}

abbrev pub sample : Memory
sample i = get_or (9 ∷ 5 ∷ 2 ∷ 9 ∷ 2 ∷ 0 ∷ 7 ∷ 1 ∷ []) i 0

abbrev pub first_eight : Memory → List ℕ
first_eight m = m 0 ∷ m 1 ∷ m 2 ∷ m 3 ∷ m 4 ∷ m 5 ∷ m 6 ∷ m 7 ∷ []

-- Only the six elements from index 1 on are sorted.
qsort_serial_runs :
    (qsort_serial 1 6 sample >>= λ m. some (first_eight m))
    ≡ some (9 ∷ 0 ∷ 2 ∷ 2 ∷ 5 ∷ 7 ∷ 9 ∷ 1 ∷ [])
unfolding qsort_serial
qsort_serial_runs = refl

qsort_serial-Sorts_example : Returns (Sorts 1 6 sample) (qsort_serial 1 6 sample)
qsort_serial-Sorts_example = qsort_serial-Sorts 1 6 sample
