-- ===== src/Tests/Processes.antt =====
-- Runs of forks.c.
use computer_science.Prelude.{ℕ, arith, [], ◌∷◌, ◌==◌, if◌then◌else◌, not}
use computer_science.Forks.{
  hello_from_child, hello_from_parent, l0, l1, l2, bye, hp, hc, ct, Prog, print, fork, wait, exit,
  main,
}
use computer_science.Forks.Processes.{
  running, zombie, Forest, nobody, process, prints, forks, exits, below, Run, stay, then_step,
  alone,
}
use computer_science.Forks.Options.{hellos, SameLines, main-SameLines}
use computer_science.Forks.Completing.{Completes, main-Completes}

abbrev no_signals : ℕ → Prog → Prog
no_signals option rest = rest

-- Option 0, the parent first
abbrev both_ended : Forest
both_ended = process 7 [] (zombie 0) (process 8 [] (zombie 0) nobody nobody) nobody

hellos_run :
    Run (alone 7 (main no_signals 0)) 5 (hello_from_parent ∷ hello_from_child ∷ []) both_ended
unfolding main
hellos_run =
    then_step
      (then_step
        (then_step (then_step (then_step stay (forks 8 (omega arith))) prints) (below prints))
        exits)
      (below exits)

main-SameLines_example :
    SameLines
      (hello_from_parent ∷ hello_from_child ∷ [])
      (hello_from_child ∷ hello_from_parent ∷ [])
main-SameLines_example =
    main-SameLines no_signals 0 (hello_from_child ∷ hello_from_parent ∷ []) 3 7 5
      (hello_from_parent ∷ hello_from_child ∷ []) both_ended hellos hellos_run
      (tt, (tt, tt, tt), tt)

-- Option 4, the child first
abbrev child_ahead : Forest
child_ahead =
    process 7 []
      (running (
        print l1 (
          fork
            λ pid2. if not (pid2 == 0) then print l2 (print bye (exit 0)) else print bye (exit 0))))
      (process 8 [] (running (exit 0)) nobody nobody) nobody

child_ahead_run : Run (alone 7 (main no_signals 4)) 3 (l0 ∷ bye ∷ []) child_ahead
unfolding main
child_ahead_run =
    then_step (then_step (then_step stay prints) (forks 8 (omega arith))) (below prints)

-- Option 9, the parent first
abbrev waiting : Forest
waiting =
    process 7 [] (running (wait λ w s. print ct (print bye (exit 0))))
      (process 8 [] (running (print hc (exit 0))) nobody nobody) nobody

waiting_run : Run (alone 7 (main no_signals 9)) 2 (hp ∷ []) waiting
unfolding main
waiting_run = then_step (then_step stay (forks 8 (omega arith))) prints

main-Completes_example : Completes (hp ∷ []) waiting
main-Completes_example = main-Completes no_signals 7 2 (hp ∷ []) waiting waiting_run
