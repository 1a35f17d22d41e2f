-- ===== src/Forks.antt =====
-- CMU15-213/14-ecf-procs/forks.c, fork0 to fork11 and main: programs that fork, print, exit and wait.
-- A program is the tree of the system calls that it can still make; a function takes what follows its
-- return. `fork` does not fail, and gives any number but 0 to the parent, so that what holds of every
-- run here holds also of the runs with the numbers that a kernel chooses. A `wait` without a child to wait for, which fails in
-- the code, does not step; standard output is a terminal, where a line is written at once.
pub mod Processes
pub mod Counting
pub mod Ending
pub mod Options
pub mod Waiting
pub mod Completing
use computer_science.Prelude.{
  ℕ, zero, suc, ◌+◌, ◌-◌, ◌<◌, ◌≡◌, List, [], ◌∷◌, ◌++◌, ◌==◌, if◌then◌else◌, get_or, not, ltb,
}
use computer_science.Prelude.Int.{ℤ, pos}

-- The lines that are printed; %d is a parameter.
pub data Line : Type 0 where
  hello_from_child : Line
  hello_from_parent : Line
  child_has_x : (x : ℕ) → Line
  parent_has_x : (x : ℕ) → Line
  bye_from : (pid x : ℕ) → Line
  l0 : Line
  l1 : Line
  l2 : Line
  bye : Line
  cleaning_up : Line
  terminating_child : (pid : ℕ) → Line
  running_parent : (pid : ℕ) → Line
  running_child : (pid : ℕ) → Line
  terminating_parent : (pid : ℕ) → Line
  hc : Line
  hp : Line
  ct : Line
  child_terminated : (wpid status : ℕ) → Line
  unknown_option : (option : ℕ) → Line

pub data Prog : Type 0 where
  print : (line : Line) (rest : Prog) → Prog
  -- `fork`, `getpid`, `wait` and `waitpid`, with what follows at their results
  fork : (rest : ℕ → Prog) → Prog
  getpid : (rest : ℕ → Prog) → Prog
  wait : (rest : (wpid status : ℕ) → Prog) → Prog
  waitpid : (pid : ℕ) (rest : (status : ℕ) → Prog) → Prog
  -- `atexit`, with a handler that prints a line
  atexit : (line : Line) (rest : Prog) → Prog
  exit : (status : ℕ) → Prog
  -- `while (1);`
  spin : Prog

unfoldable pub fork0 : Prog → Prog
fork0 rest =
    fork λ pid. if pid == 0 then print hello_from_child rest else print hello_from_parent rest

unfoldable pub fork1 : Prog → Prog
fork1 rest =
    let x : ℕ = 1 in
    let said_bye : ℕ → Prog = λ x. getpid λ self. print (bye_from self x) rest in
    fork λ pid.
      if pid == 0
      then print (child_has_x (x + 1)) (said_bye (x + 1))
      else print (parent_has_x (x - 1)) (said_bye (x - 1))

unfoldable pub fork2 : Prog → Prog
fork2 rest = print l0 (fork λ _. print l1 (fork λ _. print bye rest))

unfoldable pub fork3 : Prog → Prog
fork3 rest = print l0 (fork λ _. print l1 (fork λ _. print l2 (fork λ _. print bye rest)))

unfoldable pub fork4 : Prog → Prog
fork4 rest = print l0 (
    fork λ pid.
      if not (pid == 0)
      then print l1
          (fork λ pid2. if not (pid2 == 0) then print l2 (print bye rest) else print bye rest)
      else print bye rest)

unfoldable pub fork5 : Prog → Prog
fork5 rest = print l0 (
    fork λ pid.
      if pid == 0
      then print l1 (fork λ pid2. if pid2 == 0 then print l2 (print bye rest) else print bye rest)
      else print bye rest)

unfoldable pub fork6 : Prog → Prog
fork6 rest = atexit cleaning_up (fork λ _. exit 0)

unfoldable pub fork7 : Prog → Prog
fork7 rest = fork λ pid.
    if pid == 0
    then getpid (λ self. print (terminating_child self) (exit 0))
    else getpid (λ self. print (running_parent self) spin)

unfoldable pub fork8 : Prog → Prog
fork8 rest = fork λ pid.
    if pid == 0
    then getpid (λ self. print (running_child self) spin)
    else getpid (λ self. print (terminating_parent self) (exit 0))

unfoldable pub fork9 : Prog → Prog
fork9 rest = fork λ pid.
    if pid == 0 then print hc (exit 0) else print hp (wait λ wpid status. print ct (print bye rest))

-- `for (i = 0; i < N; i++) if ((pid[i] = fork()) == 0) exit(100+i);` from `i` on, `left` more times;
-- `pids` are the numbers so far, the newest first.
unfoldable pub fork_children : ℕ → ℕ → List ℕ → (List ℕ → Prog) → Prog
fork_children i zero pids rest = rest pids
fork_children i (suc left) pids rest =
    fork λ pid. if pid == 0 then exit (100 + i) else fork_children (i + 1) left (pid ∷ pids) rest

-- The second loop of fork10
unfoldable pub wait_children : ℕ → Prog → Prog
wait_children zero rest = rest
wait_children (suc left) rest =
    wait λ wpid status. print (child_terminated wpid status) (wait_children left rest)

-- The second loop of fork11, from the newest number to the oldest
unfoldable pub reap_children : List ℕ → Prog → Prog
reap_children [] rest = rest
reap_children (pid ∷ pids) rest =
    waitpid pid λ status. print (child_terminated pid status) (reap_children pids rest)

abbrev pub n_children : ℕ
n_children = 5

unfoldable pub fork10 : Prog → Prog
unfolding fork_children wait_children
fork10 rest = fork_children 0 n_children [] λ pids. wait_children n_children rest

unfoldable pub fork11 : Prog → Prog
unfolding fork_children reap_children
fork11 rest = fork_children 0 n_children [] λ pids. reap_children pids rest

-- `main` with its option; what fork12 to fork17 do is a parameter.
unfoldable pub main : (ℕ → Prog → Prog) → ℕ → Prog
unfolding fork0 fork1 fork2 fork3 fork4 fork5 fork6 fork7 fork8 fork9 fork10 fork11
main signals option =
    let return = exit 0 in
    if option == 0
    then fork0 return
    else if option == 1
    then fork1 return
    else if option == 2
    then fork2 return
    else if option == 3
    then fork3 return
    else if option == 4
    then fork4 return
    else if option == 5
    then fork5 return
    else if option == 6
    then fork6 return
    else if option == 7
    then fork7 return
    else if option == 8
    then fork8 return
    else if option == 9
    then fork9 return
    else if option == 10
    then fork10 return
    else if option == 11
    then fork11 return
    else if ltb option 18
    then signals option return
    else print (unknown_option option) return
