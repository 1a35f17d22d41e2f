-- ===== src/Tests/Samples.antt =====
-- The sampler of fcyc2.c on a few measurements.
use computer_science.Prelude.{ℕ, ◌+◌, ◌≡◌, refl, some, [], ◌∷◌, get_or, leb, ◌>>=◌}
use computer_science.Sampler.{Machine, fcyc2_tod}

abbrev cycles : ℕ → ℕ
cycles i = get_or (900 ∷ 510 ∷ 700 ∷ 505 ∷ 504 ∷ []) i 600

-- Converged within two units for each thousandth.
abbrev clock : Machine
clock = record {
  measure = cycles;
  measure_comp = cycles;
  measure_tod = cycles;
  measure_comp_tod = cycles;
  converged = λ epsilon least kth. leb kth (least + epsilon);
}

-- It stops after the fifth sample, at 504, 505 and 510.
fcyc2_tod_runs :
    (fcyc2_tod clock >>= λ (result, s).
    some (result ∷ s.samplecount ∷ s.values 1 ∷ s.values 2 ∷ []))
    ≡ some (504 ∷ 5 ∷ 505 ∷ 510 ∷ [])
unfolding fcyc2_tod
fcyc2_tod_runs = refl
