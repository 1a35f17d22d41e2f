-- ===== src/SortBench.antt =====
-- CMU15-213/26-parallelism/pqsort/sortbench.c: the benchmark of a sort, with its check against the C
-- library. `calloc` and `random` are parameters, and so is what `getopt`, `strtoul` and `atoi` make of
-- the command line; the times, the counts of comparisons and the printed data are left out.
pub mod Unique
pub mod Filling
pub mod Check
pub mod Running
use computer_science.Prelude.{
  ℕ, zero, suc, ◌+◌, ◌-◌, ◌*◌, ◌^◌, ◌≤◌, ◌≡◌, ◌≢◌, ◌⊎◌, inl, inr, Bool, true, false, not, ◌&&◌,
  List, [], ◌∷◌, Option, none, some, ltb, ◌==◌, if◌then◌else◌, ◌>>=◌, get_or,
}
use computer_science.Memory.{Memory, update}
use computer_science.Parallel.{Schedule}
use computer_science.Parallel.Tqsort.{Library, Config, qsort_lib, tqsort}

abbrev pub max_copies : ℕ
max_copies = 5

-- How a run ends: with one of the messages, or to the end.
pub data Verdict : Type 0 where
  too_many_copies : Verdict
  no_memory : Verdict
  differs : (i library_value sort_value : ℕ) → Verdict
  descends : (i value next_value : ℕ) → Verdict
  usage : Verdict
  completed : Verdict

-- `calloc`, at its calls: whether there is memory, and where the block is. Blocks in use do not
-- overlap.
pub record Calloc : Type 0 where
  pub available : ℕ → Bool
  pub place : (nele call : ℕ) → ℕ
  pub apart :
      (nele c d : ℕ)
      → c ≢ d
      → (place nele c + nele ≤ place nele d) ⊎ (place nele d + nele ≤ place nele c)

unfoldable pub allocate : Calloc → ℕ → ℕ → ℕ → Option (List ℕ)
allocate calloc nele c zero = some []
allocate calloc nele c (suc left) = do
  rest ← allocate calloc nele (c + 1) left
  if calloc.available c then some (calloc.place nele c ∷ rest) else none

-- `for (c = 0; c < ncpy; c++) data[c][i] = v;`
unfoldable pub write_copies : List ℕ → ℕ → ℕ → Memory → Memory
write_copies [] i v m = m
write_copies (a ∷ copies) i v m = write_copies copies i v (update m (a + i) v)

-- The loop over `i`, from `i` on
unfoldable pub fill : (ℕ → ℕ) → List ℕ → ℕ → ℕ → Memory → Memory
unfolding write_copies
fill random copies i zero m = m
fill random copies i (suc left) m =
    fill random copies (i + 1) left (write_copies copies i (random i) m)

-- `data`, and the memory; or the message with which the program ends.
unfoldable pub gen_data : Calloc → (ℕ → ℕ) → ℕ → ℕ → Memory → Verdict ⊎ (List ℕ × Memory)
unfolding allocate fill
gen_data calloc random ncpy nele m =
    let generated : Verdict ⊎ (List ℕ × Memory) = elim (allocate calloc nele 0 ncpy) [
      | none ↦ inl no_memory
      | some copies ↦ inr (copies, fill random copies 0 nele m)
    ] in
    if ltb max_copies ncpy then inl too_many_copies else generated

-- The loop that compares the result with the library's, from `i` on
unfoldable pub check_loop : ℕ → ℕ → ℕ → ℕ → ℕ → Memory → Verdict
check_loop sorted library nele i zero m = completed
check_loop sorted library nele i (suc left) m =
    let rest = check_loop sorted library nele (i + 1) left m in
    if not (m (sorted + i) == m (library + i))
    then differs i (m (library + i)) (m (sorted + i))
    else if ltb i (nele - 1) && ltb (m (sorted + i + 1)) (m (sorted + i))
    then descends i (m (sorted + i)) (m (sorted + i + 1))
    else rest

unfoldable pub run_checked :
    Library → (ℕ → ℕ → ℕ → Memory → Option Memory) → ℕ → Bool → List ℕ × Memory → Option Verdict
unfolding check_loop qsort_lib
run_checked lib sfun nele check (copies, m) = do
  m2 ← sfun (get_or copies 0 0) nele (get_or copies 1 0) m
  some (
      if check
      then check_loop (get_or copies 0 0) (get_or copies 2 0) nele 0 nele
          (qsort_lib lib (get_or copies 2 0) nele m2)
      else completed)

-- `none` is that of the sort function.
unfoldable pub run_test :
    Library
    → Calloc
    → (ℕ → ℕ)
    → (ℕ → ℕ → ℕ → Memory → Option Memory)
    → ℕ
    → Bool
    → Memory
    → Option Verdict
unfolding gen_data run_checked
run_test lib calloc random sfun nele check m =
    elim (gen_data calloc random (if check then 3 else 2) nele m) [
      | inl verdict ↦ some verdict
      | inr generated ↦ run_checked lib sfun nele check generated
    ]

-- An option as `getopt` finds it, with the number that its argument stands for.
pub data CommandOption : Type 0 where
  -- h, n, v, f, F, l, c, and any other
  help : CommandOption
  elements : ℕ → CommandOption
  verbosity : ℕ → CommandOption
  sort_fraction : ℕ → CommandOption
  partition_fraction : ℕ → CommandOption
  library_sort : CommandOption
  check_result : CommandOption
  invalid : CommandOption

-- The variables that the options set
pub record Settings : Type 0 where
  pub nele : ℕ
  pub check : Bool
  pub serial_sort_fraction : ℕ
  pub serial_partition_fraction : ℕ
  pub use_qsort_lib : Bool

abbrev pub defaults : Settings
defaults = record {
  nele = 2 ^ 20;
  check = false;
  serial_sort_fraction = 32;
  serial_partition_fraction = 1;
  use_qsort_lib = false;
}

-- The loop over the options; `none` is a call of `usage`.
unfoldable pub set_options : List CommandOption → Settings → Option Settings
set_options [] s = some s
set_options (help ∷ options) s = none
set_options (elements nele ∷ options) s = set_options options (record s { nele = nele })
set_options (verbosity verbose ∷ options) s = set_options options s
set_options (sort_fraction frac ∷ options) s =
    set_options options (record s { serial_sort_fraction = frac })
set_options (partition_fraction frac ∷ options) s =
    set_options options (record s { serial_partition_fraction = frac })
set_options (library_sort ∷ options) s = set_options options (record s { use_qsort_lib = true })
set_options (check_result ∷ options) s = set_options options (record s { check = true })
set_options (invalid ∷ options) s = none

abbrev pub config : Library → Schedule → Settings → Config
config lib sched s = record {
  use_qsort_lib = s.use_qsort_lib;
  serial_sort_fraction = s.serial_sort_fraction;
  serial_partition_fraction = s.serial_partition_fraction;
  lib = lib;
  sched = sched;
}

unfoldable pub main :
    Library → Schedule → Calloc → (ℕ → ℕ) → List CommandOption → Memory → Option Verdict
unfolding set_options run_test tqsort
main lib sched calloc random options m = elim (set_options options defaults) [
  | none ↦ some usage
  | some s ↦ run_test lib calloc random (tqsort (config lib sched s)) s.nele s.check m
]
