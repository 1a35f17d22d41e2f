-- ===== src/Tests/Benchmark.antt =====
-- sortbench.c on two numbers and on options.
use computer_science.Prelude.{
  ℕ, ◌+◌, ◌*◌, ◌≤◌, ◌<◌, ◌≡◌, ◌≢◌, ◌⊎◌, ◌↔◌, refl, sym, inl, some, none, List, [], ◌∷◌, Returns,
  arith, true, if◌then◌else◌, ◌==◌, Option,
}
use computer_science.Memory.{Memory, swap}
use computer_science.Memory.Counts.{SameCounts}
use computer_science.Memory.Segments.{swap_lem}
use computer_science.Sort.Serial.{Ascending}
use computer_science.SortBench.{
  Calloc, Settings, run_test, CommandOption, elements, sort_fraction, library_sort, check_result,
  set_options, defaults, completed, usage, fill, main,
}
use computer_science.SortBench.Running.{three, IsGood, IsCounted, run_test-completed, main-IsGood}
use computer_science.Tests.Insertion.{insertion}
use computer_science.Tests.Pools.{seconds}
use computer_science.Tests.Sorting.{sample}

-- The blocks one behind the other.
rows_apart : (nele c d : ℕ) → c < d → c * nele + nele ≤ d * nele
rows_apart nele c d lt = grind arith

stacked-apart : (nele c d : ℕ) → c ≢ d → (c * nele + nele ≤ d * nele) ⊎ (d * nele + nele ≤ c * nele)
stacked-apart nele c d ne = grind (arith, rows_apart nele c d, rows_apart nele d c)

abbrev stacked : Calloc
stacked = record { available = λ c. true; place = λ nele c. c * nele; apart = stacked-apart }

abbrev falling : ℕ → ℕ
falling i = if i == 0 then 5 else 3

-- A sort function for two elements.
abbrev exchange : ℕ → ℕ → ℕ → Memory → Option Memory
exchange base nele scratch_base m = some (swap m base (base + 1))

abbrev fresh : Memory
fresh = fill falling (three stacked 2) 0 2 sample

run_test-completed_example :
    (run_test insertion stacked falling exchange 2 true sample ≡ some completed)
    ↔ (Ascending 0 2 (swap fresh 0 1) × SameCounts 0 2 fresh (swap fresh 0 1))
run_test-completed_example =
    run_test-completed insertion stacked falling exchange 2 sample (swap fresh 0 1) (λ c. refl) refl
      (λ q o. ground (arith, swap_lem fresh 0 1 q))

abbrev checked : List CommandOption
checked = elements 3 ∷ sort_fraction 2 ∷ library_sort ∷ check_result ∷ []

settings-nele : {s t : Settings} → some s ≡ some t → s.nele ≡ t.nele
settings-nele e = cc

checked-IsCounted :
    (s : Settings)
    → set_options checked defaults ≡ some s
    → IsCounted s.nele s.serial_partition_fraction
unfolding set_options
checked-IsCounted s e =
    let three_elements : s.nele ≡ 3 = sym (settings-nele e) in inl (omega (arith, three_elements))

main-IsGood_example :
    Returns
      (λ verdict. IsGood verdict ⊎ ((verdict ≡ usage) × (set_options checked defaults ≡ none)))
      (main insertion seconds stacked falling checked sample)
main-IsGood_example = main-IsGood insertion seconds stacked falling checked sample checked-IsCounted

main_runs : main insertion seconds stacked falling checked sample ≡ some completed
unfolding main computer_science.Tests.Insertion.insertion_sort
main_runs = refl
