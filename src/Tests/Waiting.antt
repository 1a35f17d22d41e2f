-- ===== src/Tests/Waiting.antt =====
-- fork14 and fork15 with one child or two.
use computer_science.Prelude.{ℕ, ◌+◌, ◌*◌, ◌≤◌, ◌≡◌, refl, arith, true, false}
use computer_science.Signals.{
  System, Reach, fresh, next, returned, fork, all_forked, test_end, die, interrupt, wait, count,
  start,
}
use computer_science.Signals.Reaping.{Reach-reaped}
use computer_science.Signals.Stopping.{Steps, stay, more, Steps-bounded, Stopped, Reach-settles}

-- fork14 with one child, to its end
ended : (s : System) × Reach false 1 s × (s.parent ≡ returned)
ended =
    let r1 = next fresh (fork refl refl (omega arith) refl) in
    let r2 = next (next r1 (all_forked refl refl refl refl)) (die (omega arith) refl) in
    let r3 = next (next r2 (interrupt refl refl refl)) (wait refl (omega arith) refl) in
    let r4 = next (next r3 (count refl refl)) (test_end refl refl refl refl) in (_, r4, refl)

Reach-reaped_example : (ended.0.forks ≡ 1) × (ended.0.running ≡ 0) × (ended.0.zombies ≡ 0)
Reach-reaped_example = Reach-reaped ended.1 ended.2

two_lines : (s : System) × Steps true 1 2 (start 1) s
two_lines =
    (_, more (fork refl refl (omega arith) refl) (more (all_forked refl refl refl refl) stay))

Steps-bounded_example : 2 ≤ 8 * 1 + 4
Steps-bounded_example = Steps-bounded two_lines.1

Reach-settles_example : (k : ℕ) × (t : System) × Steps true 2 k (start 2) t × Stopped t
Reach-settles_example = Reach-settles fresh
