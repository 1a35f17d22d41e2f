-- ===== src/Tests/Numbering.antt =====
-- norace.c with one thread.
use computer_science.Prelude.{ℕ, ◌<◌, ◌≡◌, refl, arith, [], none, some, if◌then◌else◌, ltb}
use computer_science.Races.{
  System, Thread, ended, created, set, put, create, read_id, free, print, Reach, fresh, next,
}
use computer_science.Races.Numbers.{count, Reach-printed}

abbrev one_created : System
one_created = record {
  i = 1;
  cells = put (λ p. none) 7 (some 0);
  threads = set (λ k. Thread.waiting) 0 (created 7);
  printed = [];
}

one_created-Reach : Reach 1 one_created
one_created-Reach = next fresh (create 7 (omega arith) refl refl)

one_ended-Reach : (s : System) × Reach 1 s × (s.i ≡ 1) × (s.threads 0 ≡ ended)
one_ended-Reach = (
  _,
  next (next (next one_created-Reach (read_id 0 7 0 refl refl refl)) (free 0 7 0 0 refl refl refl))
      (print 0 0 refl refl),
  refl,
  refl,
)

all_ended : (k : ℕ) → k < 1 → one_ended-Reach.0.threads k ≡ ended
all_ended k lt = let first_one : k ≡ 0 = omega (arith, lt) in rw first_one (one_ended-Reach.3)

Reach-printed_example : count 0 one_ended-Reach.0.printed ≡ (if ltb 0 1 then 1 else 0)
Reach-printed_example = Reach-printed one_ended-Reach.1 one_ended-Reach.2 all_ended 0
