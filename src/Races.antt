-- ===== src/Races.antt =====
-- CMU15-213/25-sync-advanced/norace.c: threads that get their numbers in memory of their own. A step
-- is a line of `main` or of one thread, but a round of the loop of `main`, which gets memory, writes the
-- number there and creates the thread, is one step, as no thread has that memory before. `Malloc` returns memory that is not in use; a
-- read of freed memory, or a second `Free`, is no step. N is a parameter.
pub mod Numbers
use computer_science.Prelude.{
  ℕ, ◌+◌, ◌<◌, ◌≡◌, Bool, List, [], ◌∷◌, Option, none, some, ◌==◌, if◌then◌else◌,
}

-- A thread, by the line that it ran last: not created, created with its argument, `myid` read, memory
-- freed, number printed.
pub data Thread : Type 0 where
  waiting : Thread
  created : (vargp : ℕ) → Thread
  numbered : (vargp myid : ℕ) → Thread
  freed : (myid : ℕ) → Thread
  ended : Thread

-- `i` of the first loop, the `int`s that are allocated, the threads, and what is printed, newest first.
pub record System : Type 0 where
  pub i : ℕ
  pub cells : ℕ → Option ℕ
  pub threads : ℕ → Thread
  pub printed : List ℕ

abbrev pub put : (ℕ → Option ℕ) → ℕ → Option ℕ → ℕ → Option ℕ
put cells p c q = if p == q then c else cells q

abbrev pub set : (ℕ → Thread) → ℕ → Thread → ℕ → Thread
set threads k t j = if k == j then t else threads j

pub data Step (n : ℕ) (s t : System) : Type 0 where
  -- a round of the first loop
  create :
      (ptr : ℕ)
      → s.i < n
      → s.cells ptr ≡ none
      → t ≡ record s {
        i = s.i + 1;
        cells = put s.cells ptr (some s.i);
        threads = set s.threads s.i (created ptr);
      }
      → Step n s t
  read_id :
      (k vargp myid : ℕ)
      → s.threads k ≡ created vargp
      → s.cells vargp ≡ some myid
      → t ≡ record s { threads = set s.threads k (numbered vargp myid) }
      → Step n s t
  free :
      (k vargp myid value : ℕ)
      → s.threads k ≡ numbered vargp myid
      → s.cells vargp ≡ some value
      → t ≡ record s { cells = put s.cells vargp none; threads = set s.threads k (freed myid) }
      → Step n s t
  print :
      (k myid : ℕ)
      → s.threads k ≡ freed myid
      → t ≡ record s { threads = set s.threads k ended; printed = myid ∷ s.printed }
      → Step n s t

abbrev pub start : System
start = record { i = 0; cells = λ p. none; threads = λ k. waiting; printed = [] }

pub data Reach (n : ℕ) : System → Type 0 where
  fresh : Reach n start
  next : {s t : System} → Reach n s → Step n s t → Reach n t
