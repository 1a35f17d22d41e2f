-- ===== src/Tests/Joblists.antt =====
-- procmask2.c with one child.
use computer_science.Prelude.{◌≡◌, refl, true, [], ◌∷◌}
use computer_science.Jobs.{
  addjob, deletejob, System, block, fork, mask, add, unmask, die, interrupt, reap, guard, delete,
  Reach, fresh, next,
}
use computer_science.Jobs.Order.{InOrder, Reach-InOrder}

-- The child ends before its job is added; the signal waits for the end of the round.
deleted_one : (s : System) × Reach true s × (s.calls ≡ deletejob 0 ∷ addjob 0 ∷ [])
deleted_one =
    let r1 = next (next fresh (block refl refl refl refl)) (fork refl refl refl) in
    let r2 = next (next r1 (die 0 refl refl)) (mask 0 refl refl refl) in
    let r3 = next (next r2 (add 0 refl refl refl)) (unmask 0 refl refl refl) in
    let r4 = next (next r3 (interrupt refl refl refl refl)) (reap 0 refl refl refl) in
    let r5 = next (next r4 (guard 0 refl refl)) (delete 0 refl refl) in (_, r5, refl)

Reach-InOrder_example : InOrder deleted_one.0.calls
Reach-InOrder_example = Reach-InOrder deleted_one.1
