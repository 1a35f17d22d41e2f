-- ===== src/Tests/Locks.antt =====
-- rw1.c with two readers inside.
use computer_science.Prelude.{refl, arith}
use computer_science.ReadersWriters.{
  System, p_mutex_in, readcnt_in, p_w_reader, v_mutex_in, unlocked, Steps, stay, then_step,
  count_in,
}
use computer_science.ReadersWriters.Exclusion.{IsSafe, Steps-IsSafe}
use computer_science.ReadersWriters.Draining.{Steps-drains}

abbrev two_readers : System
two_readers = record unlocked { readcnt = 2; w = 0; reading = 2 }

two_readers-Steps : Steps unlocked two_readers
unfolding count_in
two_readers-Steps =
    then_step
      (then_step
        (then_step
          (then_step
            (then_step
              (then_step (then_step stay (p_mutex_in (omega arith) refl))
                (readcnt_in (omega arith) refl))
              (p_w_reader (omega arith) (omega arith) refl))
            (v_mutex_in (omega arith) refl))
          (p_mutex_in (omega arith) refl))
        (readcnt_in (omega arith) refl))
      (v_mutex_in (omega arith) refl)

Steps-IsSafe_example : IsSafe two_readers
Steps-IsSafe_example = Steps-IsSafe two_readers two_readers-Steps

Steps-drains_example : Steps two_readers unlocked
Steps-drains_example = Steps-drains two_readers two_readers-Steps
