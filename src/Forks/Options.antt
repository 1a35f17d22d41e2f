-- ===== src/Forks/Options.antt =====
-- What main of forks.c prints for the options whose processes do not wait.
use computer_science.Prelude.{
  ℕ, ◌+◌, ◌*◌, ◌≤◌, ◌<◌, ◌≡◌, refl, arith, List, [], ◌∷◌, ◌==◌, false, if◌then◌else◌, not, length,
}
use computer_science.Forks.{
  Line, hello_from_child, hello_from_parent, l0, l1, l2, bye, cleaning_up, Prog, print, fork, exit,
  main,
}
use computer_science.Forks.Processes.{Forest, Run, alone}
use computer_science.Forks.Counting.{printed, Costs, Halted}
use computer_science.Forks.Ending.{IsCosted, Ends, Halted-printed, run-Ends, one}

-- The lines of each option, and the calls but printing.
pub data Expected : ℕ → List Line → ℕ → Type 0 where
  hellos : Expected 0 (hello_from_child ∷ hello_from_parent ∷ []) 3
  two_forks : Expected 2 (l0 ∷ l1 ∷ l1 ∷ bye ∷ bye ∷ bye ∷ bye ∷ []) 7
  three_forks :
      Expected 3
        (l0 ∷ l1 ∷ l1 ∷ l2 ∷ l2 ∷ l2 ∷ l2 ∷ bye ∷ bye ∷ bye ∷ bye ∷ bye ∷ bye ∷ bye ∷ bye ∷ [])
        15
  in_parents : Expected 4 (l0 ∷ l1 ∷ l2 ∷ bye ∷ bye ∷ bye ∷ []) 5
  in_children : Expected 5 (l0 ∷ l1 ∷ l2 ∷ bye ∷ bye ∷ bye ∷ []) 5
  handlers : Expected 6 (cleaning_up ∷ cleaning_up ∷ []) 4

nonzero : (c : ℕ) → 0 < c → (c == 0) ≡ false
nonzero c h = ground arith

module _ (cost : Line → ℕ) (call : ℕ) where
  print-Costs :
      (l : Line) (q : Prog) (h m : ℕ)
      → Costs cost call q h m
      → Costs cost call (print l q) h (cost l + m)
  print-Costs l q h m c = (m, refl, c)

  -- `fork();`
  fork-Costs :
      (q : Prog) (h m : ℕ) → Costs cost call q h m → Costs cost call (fork λ _. q) h (call + m + m)
  fork-Costs q h m c = (m, m, refl, λ i lt. c, c)

  -- `fork(); printf(line); ...`
  fork_print-Costs :
      (l : Line) (q : Prog) (m : ℕ)
      → Costs cost call q 0 m
      → Costs cost call (fork λ _. print l q) 0 (call + (cost l + m) + (cost l + m))
  fork_print-Costs l q m c = fork-Costs (print l q) 0 (cost l + m) (print-Costs l q 0 m c)

  -- `if (fork() == 0) { child } else { parent }`
  branch-Costs :
      (parent child : Prog) (h a b : ℕ)
      → Costs cost call parent h a
      → Costs cost call child h b
      → Costs cost call (fork λ pid. if pid == 0 then child else parent) h (call + a + b)
  branch-Costs parent child h a b p c = (a, b, refl, λ i lt. rw (nonzero i lt) p, c)

  -- `if (fork() != 0) { parent } else { child }`
  branch_not-Costs :
      (parent child : Prog) (h a b : ℕ)
      → Costs cost call parent h a
      → Costs cost call child h b
      → Costs cost call (fork λ pid. if not (pid == 0) then parent else child) h (call + a + b)
  branch_not-Costs parent child h a b p c = (a, b, refl, λ i lt. rw (nonzero i lt) p, c)

Expected-IsCosted :
    (signals : ℕ → Prog → Prog) (option : ℕ) (lines : List Line) (calls : ℕ)
    → Expected option lines calls
    → IsCosted (main signals option) lines calls
unfolding main
Expected-IsCosted signals _ _ _ hellos = record {
  costed = λ cost call.
      let e = call + 0 in
      let whole =
        branch-Costs cost call (print hello_from_parent (exit 0)) (print hello_from_child (exit 0))
          0 (cost hello_from_parent + e) (cost hello_from_child + e) (e, refl, refl)
          (e, refl, refl) in
      let sum : call + (cost hello_from_parent + e) + (cost hello_from_child + e)
          ≡ printed cost call (hello_from_child ∷ hello_from_parent ∷ []) + call * 3 =
        omega arith in
      rw (← sum) whole;
}
Expected-IsCosted signals _ _ _ two_forks = record {
  costed = λ cost call.
      let b1 = cost bye + (call + 0) in
      let q1 = print bye (exit 0) in
      let b2 = cost l1 + (call + b1 + b1) in
      (
        call + b2 + b2,
        omega arith,
        fork_print-Costs cost call l1 (fork λ _. q1) (call + b1 + b1)
            (fork-Costs cost call q1 0 b1 (call + 0, refl, refl)),
      );
}
Expected-IsCosted signals _ _ _ three_forks = record {
  costed = λ cost call.
      let b1 = cost bye + (call + 0) in
      let q1 = print bye (exit 0) in
      let b2 = call + b1 + b1 in
      let b3 = call + (cost l2 + b2) + (cost l2 + b2) in
      let b4 = call + (cost l1 + b3) + (cost l1 + b3) in
      (
        b4,
        omega arith,
        fork_print-Costs cost call l1 (fork λ _. print l2 (fork λ _. q1)) b3 (
            fork_print-Costs cost call l2 (fork λ _. q1) b2
              (fork-Costs cost call q1 0 b1 (call + 0, refl, refl))),
      );
}
Expected-IsCosted signals _ _ _ in_parents = record {
  costed = λ cost call.
      let b1 = cost bye + (call + 0) in
      let q1 = print bye (exit 0) in
      let b2 = call + (cost l2 + b1) + b1 in
      (
        call + (cost l1 + b2) + b1,
        omega arith,
        branch_not-Costs cost call _ q1 0 (cost l1 + b2) b1
            (
              b2,
              refl,
              branch_not-Costs cost call (print l2 q1) q1 0 (cost l2 + b1) b1
                  (b1, refl, (call + 0, refl, refl)) (call + 0, refl, refl),
            )
            (call + 0, refl, refl),
      );
}
Expected-IsCosted signals _ _ _ in_children = record {
  costed = λ cost call.
      let b1 = cost bye + (call + 0) in
      let q1 = print bye (exit 0) in
      let b2 = call + b1 + (cost l2 + b1) in
      (
        call + b1 + (cost l1 + b2),
        omega arith,
        branch-Costs cost call q1 _ 0 b1 (cost l1 + b2) (call + 0, refl, refl)
            (
              b2,
              refl,
              branch-Costs cost call q1 (print l2 q1) 0 b1 (cost l2 + b1) (call + 0, refl, refl)
                  (b1, refl, (call + 0, refl, refl)),
            ),
      );
}
Expected-IsCosted signals _ _ _ handlers = record {
  costed = λ cost call.
      let e = call + (cost cleaning_up + 0) in
      (call + e + e, omega arith, fork-Costs cost call (exit 0) (cost cleaning_up + 0) e refl);
}

-- The same lines, each as often: all sums over them agree.
abbrev pub SameLines : List Line → List Line → Type 0
SameLines o lines = (cost : Line → ℕ) → printed cost 0 o ≡ printed cost 0 lines

-- For each of the options 0 and 2 to 6, in every interleaving of the processes and whatever numbers they get,
-- when no process can go on the lines that have been printed are the expected ones, each as often,
-- those of the `atexit` handlers included.
pub main-SameLines :
    (signals : ℕ → Prog → Prog) (option : ℕ) (lines : List Line) (calls pid k : ℕ) (o : List Line)
    (g : Forest)
    → Expected option lines calls
    → Run (alone pid (main signals option)) k o g
    → Halted g
    → SameLines o lines
main-SameLines signals option lines calls pid k o g e r d =
    Halted-printed pid (main signals option) lines calls
      (Expected-IsCosted signals option lines calls e) r d

length-printed : (lines : List Line) → printed one 1 lines ≡ length lines
length-printed [] = refl
length-printed (l ∷ lines) = omega (arith, length-printed lines)

-- For each of the options 0 and 2 to 6, in every interleaving of the processes there are at most as many
-- calls as the expected lines and calls together, and from wherever the processes are some run leads
-- to where all have ended.
main-Ends :
    (signals : ℕ → Prog → Prog) (option : ℕ) (lines : List Line) (calls pid k : ℕ) (o : List Line)
    (g : Forest)
    → Expected option lines calls
    → Run (alone pid (main signals option)) k o g
    → (k ≤ length lines + calls) × Ends g
main-Ends signals option lines calls pid k o g e r =
    let (bound, ends) =
      run-Ends pid (main signals option) lines calls
        (Expected-IsCosted signals option lines calls e) r in
    (omega (arith, bound, length-printed lines), ends)
