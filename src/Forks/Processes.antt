-- ===== src/Forks/Processes.antt =====
-- The processes that run the programs of forks.c: a forest, in which a step is one call of one process.
use computer_science.Prelude.{ℕ, suc, ◌<◌, List, [], ◌∷◌, ◌++◌}
use computer_science.Forks.{Line, Prog, print, fork, getpid, wait, waitpid, atexit, exit}

-- What a process is doing. A terminated one is a zombie until its parent has waited for it.
pub data Status : Type 0 where
  running : Prog → Status
  zombie : (status : ℕ) → Status
  reaped : Status

-- Sibling processes, the newest first: the number of the first one, the lines its `atexit` handlers
-- will print, what it does, its children, and its older siblings.
pub data Forest : Type 0 where
  nobody : Forest
  process : (pid : ℕ) (handlers : List Line) (status : Status) (children siblings : Forest) → Forest

-- A zombie among the siblings is reaped.
pub data Reaps : Forest → ℕ → ℕ → Forest → Type 0 where
  this_one :
      {pid n : ℕ} {hs : List Line} {ch sib : Forest}
      → Reaps (process pid hs (zombie n) ch sib) pid n (process pid hs reaped ch sib)
  older :
      {pid c n : ℕ} {hs : List Line} {st : Status} {ch sib sib' : Forest}
      → Reaps sib c n sib'
      → Reaps (process pid hs st ch sib) c n (process pid hs st ch sib')

-- One call of one process, with the lines that it prints.
pub data Step : Forest → List Line → Forest → Type 0 where
  prints :
      {pid : ℕ} {hs : List Line} {l : Line} {q : Prog} {ch sib : Forest}
      → Step
          (process pid hs (running (print l q)) ch sib)
          (l ∷ [])
          (process pid hs (running q) ch sib)
  forks :
      {pid : ℕ} {hs : List Line} {k : ℕ → Prog} {ch sib : Forest}
      → (c : ℕ) → 0 < c
      → Step
          (process pid hs (running (fork k)) ch sib)
          []
          (process pid hs (running (k c)) (process c hs (running (k 0)) nobody ch) sib)
  gets_pid :
      {pid : ℕ} {hs : List Line} {k : ℕ → Prog} {ch sib : Forest}
      → Step
          (process pid hs (running (getpid k)) ch sib)
          []
          (process pid hs (running (k pid)) ch sib)
  waits :
      {pid c n : ℕ} {hs : List Line} {k : ℕ → ℕ → Prog} {ch ch' sib : Forest}
      → Reaps ch c n ch'
      → Step
          (process pid hs (running (wait k)) ch sib)
          []
          (process pid hs (running (k c n)) ch' sib)
  waits_for :
      {pid c n : ℕ} {hs : List Line} {k : ℕ → Prog} {ch ch' sib : Forest}
      → Reaps ch c n ch'
      → Step
          (process pid hs (running (waitpid c k)) ch sib)
          []
          (process pid hs (running (k n)) ch' sib)
  registers :
      {pid : ℕ} {hs : List Line} {l : Line} {q : Prog} {ch sib : Forest}
      → Step
          (process pid hs (running (atexit l q)) ch sib)
          []
          (process pid (l ∷ hs) (running q) ch sib)
  handles :
      {pid n : ℕ} {hs : List Line} {l : Line} {ch sib : Forest}
      → Step
          (process pid (l ∷ hs) (running (exit n)) ch sib)
          (l ∷ [])
          (process pid hs (running (exit n)) ch sib)
  exits :
      {pid n : ℕ} {ch sib : Forest}
      → Step (process pid [] (running (exit n)) ch sib) [] (process pid [] (zombie n) ch sib)
  below :
      {pid : ℕ} {hs o : List _} {st : Status} {ch ch' sib : Forest}
      → Step ch o ch'
      → Step (process pid hs st ch sib) o (process pid hs st ch' sib)
  beside :
      {pid : ℕ} {hs o : List _} {st : Status} {ch sib sib' : Forest}
      → Step sib o sib'
      → Step (process pid hs st ch sib) o (process pid hs st ch sib')

-- So many steps, with all lines printed on the way.
pub data Run (f : Forest) : ℕ → List Line → Forest → Type 0 where
  stay : Run f 0 [] f
  then_step :
      {steps : ℕ} {o l : List Line} {g h : Forest}
      → Run f steps o g
      → Step g l h
      → Run f (suc steps) (o ++ l) h

-- The process of the program alone.
abbrev pub alone : ℕ → Prog → Forest
alone pid p = process pid [] (running p) nobody nobody
