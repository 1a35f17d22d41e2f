-- ===== src/Sampler.antt =====
-- CMU15-213/12-cache-memories/mountain/fcyc2.c: the sampler, which repeats a measurement until the k
-- smallest samples have converged, and fcyc2_full and its variants. The sampler copies and compares
-- doubles that are not NaN: a number stands here for a double, by its place in their order. What is
-- measured is a parameter, and so is the test `(1 + epsilon) * x >= y`. An access outside an array is
-- `none`. The test function, the clearing of the cache and the counters are the measurement's.
pub mod Bubble
pub mod Smallest
pub mod Loop
use computer_science.Prelude.{
  ℕ, zero, suc, ◌+◌, ◌-◌, Bool, true, false, not, ◌&&◌, ◌||◌, Option, none, some, ltb, leb, ◌==◌,
  if◌then◌else◌, ◌>>=◌, get_or,
}
use computer_science.Prelude.Int.{ℤ, pos, negsuc}
use computer_science.Memory.{Memory, update, swap}

-- The arrays with their sizes, and `samplecount`.
pub record Sampler : Type 0 where
  pub values : Memory
  pub values_size : ℕ
  pub samples : Memory
  pub samples_size : ℕ
  pub samplecount : ℕ

-- The arrays come from `calloc`.
unfoldable pub init_sampler : ℕ → ℕ → Sampler
init_sampler k maxsamples = record {
  values = λ i. 0;
  values_size = k;
  samples = λ i. 0;
  samples_size = maxsamples + k;
  samplecount = 0;
}

-- A write to an array of a size
unfoldable pub write_at : Memory → ℕ → ℕ → ℕ → Option Memory
write_at array size i v = if ltb i size then some (update array i v) else none

-- The insertion sort of `add_sample`
unfoldable pub insert_down : ℕ → Memory → Memory
unfolding swap
insert_down zero values = values
insert_down (suc p) values =
    let rest = insert_down p (swap values p (suc p)) in
    if ltb (values (suc p)) (values p) then rest else values

-- `pos` and `values` after the first `if`
unfoldable pub place_sample : ℕ → ℕ → Sampler → Option (ℕ × Memory)
unfolding write_at
place_sample val k s =
    let replaced : Option (ℕ × Memory) =
      if ltb val (s.values (k - 1))
      then (write_at s.values s.values_size (k - 1) val >>= λ values. some (k - 1, values))
      else some (0, s.values) in
    if ltb s.samplecount k
    then (write_at s.values s.values_size s.samplecount val >>= λ values.
        some (s.samplecount, values))
    else if k == 0
    then none
    else replaced

unfoldable pub add_sample : ℕ → ℕ → Sampler → Option Sampler
unfolding place_sample write_at insert_down
add_sample val k s = do
  (p, values) ← place_sample val k s
  samples ← write_at s.samples s.samples_size s.samplecount val
  some (record s {
    values = insert_down p values;
    samples = samples;
    samplecount = s.samplecount + 1;
  })

-- `converged` is the test with epsilon.
unfoldable pub has_converged : (ℕ → ℕ → Bool) → ℕ → ℕ → Sampler → ℤ
has_converged converged k maxsamples s =
    if leb k s.samplecount && converged (s.values 0) (s.values (k - 1))
    then pos s.samplecount
    else if leb maxsamples s.samplecount
    then negsuc 0
    else pos 0

abbrev pub is_zero : ℤ → Bool
is_zero (pos n) = n == 0
is_zero (negsuc n) = false

-- The `do ... while` loop of fcyc2_full, which measures `measure i` in its round `i`.
unfoldable pub sample_loop : (ℕ → ℕ) → (ℕ → ℕ → Bool) → ℕ → ℕ → ℕ → Sampler → Option Sampler
unfolding add_sample has_converged
sample_loop measure converged k maxsamples zero s = none
sample_loop measure converged k maxsamples (suc fuel) s = do
  s1 ← add_sample (measure s.samplecount) k s
  let rest = sample_loop measure converged k maxsamples fuel s1
  (if is_zero (has_converged converged k maxsamples s1) && ltb s1.samplecount maxsamples
      then rest
      else some s1)

-- The measurements with and without compensation, and the test of convergence at each epsilon, in
-- thousandths.
pub record Machine : Type 0 where
  pub measure : ℕ → ℕ
  pub measure_comp : ℕ → ℕ
  pub measure_tod : ℕ → ℕ
  pub measure_comp_tod : ℕ → ℕ
  pub converged : (epsilon : ℕ) → ℕ → ℕ → Bool

-- Each returns `values[0]`, and its sampler.
unfoldable pub fcyc2_full : Machine → ℕ → ℕ → ℕ → Bool → Option (ℕ × Sampler)
unfolding sample_loop init_sampler
fcyc2_full mach k epsilon maxsamples compensate = do
  s ←
      sample_loop (if compensate then mach.measure_comp else mach.measure) (mach.converged epsilon)
        k maxsamples (maxsamples + 1) (init_sampler k maxsamples)
  some (s.values 0, s)

unfoldable pub fcyc2 : Machine → Option (ℕ × Sampler)
unfolding fcyc2_full
fcyc2 mach = fcyc2_full mach 3 10 500 false

unfoldable pub fcyc2_full_tod : Machine → ℕ → ℕ → ℕ → Bool → Option (ℕ × Sampler)
unfolding sample_loop init_sampler
fcyc2_full_tod mach k epsilon maxsamples compensate = do
  s ←
      sample_loop (if compensate then mach.measure_comp_tod else mach.measure_tod)
        (mach.converged epsilon) k maxsamples (maxsamples + 1) (init_sampler k maxsamples)
  some (s.values 0, s)

unfoldable pub fcyc2_tod : Machine → Option (ℕ × Sampler)
unfolding fcyc2_full_tod
fcyc2_tod mach = fcyc2_full_tod mach 3 10 20 false
