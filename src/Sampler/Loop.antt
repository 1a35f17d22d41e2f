-- ===== src/Sampler/Loop.antt =====
-- fcyc2_full and fcyc2_full_tod end, and return the least sample.
use computer_science.Prelude.{ℕ, ◌-◌, ◌≤◌, ◌<◌, ◌≡◌, ◌⊎◌, refl, arith, Bool, true}
use computer_science.Memory.{Memory}
use computer_science.Memory.Counts.{count}
use computer_science.Sampler.{Sampler, init_sampler}
use computer_science.Sampler.Smallest.{Smallest, IsSampler}

-- The result is the least of the samples, of which there are at most `maxsamples` and at least one;
-- `values` holds the k smallest of them in ascending order, or all of them; and these have converged, or
-- there are `maxsamples`.
pub record IsLeast (measure : ℕ → ℕ) (converged : ℕ → ℕ → Bool) (k maxsamples result : ℕ)
    (s : Sampler) : Type 0 where
  pub taken : 0 < s.samplecount
  pub bounded : (s.samplecount ≤ maxsamples) ⊎ (s.samplecount ≡ 1)
  pub least : (i : ℕ) → i < s.samplecount → result ≤ measure i
  pub sampled : (i : ℕ) × (i < s.samplecount) × (measure i ≡ result)
  pub sampler : IsSampler k maxsamples measure s
  pub ended :
      ((k ≤ s.samplecount) × (converged (s.values 0) (s.values (k - 1)) ≡ true))
      ⊎ (maxsamples ≤ s.samplecount)

module _ (measure : ℕ → ℕ) (converged : ℕ → ℕ → Bool) (k maxsamples : ℕ) (positive : 0 < k) where
  abbrev Goal : Sampler → Type 0
  Goal s = IsLeast measure converged k maxsamples (s.values 0) s

  pub init-IsSampler : IsSampler k maxsamples measure (init_sampler k maxsamples)
  unfolding init_sampler count
  init-IsSampler = record {
    values_size = refl;
    samples_size = refl;
    measured = λ i lt. absurd (omega (arith, lt));
    smallest = record {
      ascending = λ i j a b c. ground arith;
      sampled = λ v. ground arith;
      least = λ v less. ground arith;
    };
  }
