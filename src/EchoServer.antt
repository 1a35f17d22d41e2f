-- ===== src/EchoServer.antt =====
-- CMU15-213/25-sync-advanced/echoservert_pre.c and echo_cnt.c: `main` puts connections into a buffer,
-- and threads take them out, echo their lines and count the bytes of all. A step is a line of `main` or of
-- one thread, but `main` accepts a connection and inserts it in one step, as no thread sees it in
-- between; the buffer is what its interface says. A connection stands for its descriptor, and what a
-- client sends is the sequence of what `Rio_readlineb` returns, none of which is empty. `init_echo_cnt` has
-- run, which `Pthread_once` does before the first count. A `byte_cnt` that would not be an `int` is no
-- step. The report that is printed is left out.
pub mod Counting
pub mod Serving
use computer_science.Prelude.{
  ℕ, ◌+◌, ◌-◌, ◌^◌, ◌<◌, ◌≡◌, List, [], ◌∷◌, ◌++◌, ◌==◌, if◌then◌else◌, length,
}
use computer_science.Prelude.Int.{ℤ}
use computer_science.Text.{Text}
use computer_science.Sbuf.Channel.{Channel}

abbrev pub nthreads : ℕ
nthreads = 4

abbrev pub sbufsize : ℕ
sbufsize = 16

-- A thread, by the line that it ran last, with its connection, what it has echoed to it, the line in its
-- `buf`, and what is still to be read.
pub data Worker : Type 0 where
  idle : Worker
  serving : (connfd : ℤ) (echoed rest : List Text) → Worker
  received : (connfd : ℤ) (echoed : List Text) (buf : Text) (rest : List Text) → Worker
  locked : (connfd : ℤ) (echoed : List Text) (buf : Text) (rest : List Text) → Worker
  loaded : (value : ℕ) (connfd : ℤ) (echoed : List Text) (buf : Text) (rest : List Text) → Worker
  counted : (connfd : ℤ) (echoed : List Text) (buf : Text) (rest : List Text) → Worker
  unlocked : (connfd : ℤ) (echoed : List Text) (buf : Text) (rest : List Text) → Worker

abbrev pub set : (ℕ → Worker) → ℕ → Worker → ℕ → Worker
set workers k w j = if k == j then w else workers j

module _ {n : ℕ} (C : Channel n) (input : ℤ → List Text) where
  open C use {State, created, Insert, Remove}

  -- `accepted` are the connections so far, and `closed` those that are closed, with what was written to
  -- them.
  pub record System : Type 0 where
    pub sbuf : State
    pub byte_cnt : ℕ
    pub mutex : ℕ
    pub workers : ℕ → Worker
    pub accepted : List ℤ
    pub closed : List (ℤ × List Text)

  pub data Step (s t : System) : Type 0 where
    accept :
        (connfd : ℤ) (q : State)
        → Insert connfd s.sbuf q
        → t ≡ record s { sbuf = q; accepted = s.accepted ++ connfd ∷ [] }
        → Step s t
    take :
        (k : ℕ) (connfd : ℤ) (q : State)
        → k < nthreads
        → s.workers k ≡ idle
        → Remove connfd s.sbuf q
        → t ≡ record s { sbuf = q; workers = set s.workers k (serving connfd [] (input connfd)) }
        → Step s t
    read_line :
        (k : ℕ) (connfd : ℤ) (echoed : List Text) (buf : Text) (rest : List Text)
        → k < nthreads
        → s.workers k ≡ serving connfd echoed (buf ∷ rest)
        → t ≡ record s { workers = set s.workers k (received connfd echoed buf rest) }
        → Step s t
    p_mutex :
        (k : ℕ) (connfd : ℤ) (echoed : List Text) (buf : Text) (rest : List Text)
        → k < nthreads
        → s.workers k ≡ received connfd echoed buf rest
        → 0 < s.mutex
        → t ≡ record s {
          mutex = s.mutex - 1;
          workers = set s.workers k (locked connfd echoed buf rest);
        }
        → Step s t
    load :
        (k : ℕ) (connfd : ℤ) (echoed : List Text) (buf : Text) (rest : List Text)
        → k < nthreads
        → s.workers k ≡ locked connfd echoed buf rest
        → t ≡ record s { workers = set s.workers k (loaded s.byte_cnt connfd echoed buf rest) }
        → Step s t
    store :
        (k value : ℕ) (connfd : ℤ) (echoed : List Text) (buf : Text) (rest : List Text)
        → k < nthreads
        → s.workers k ≡ loaded value connfd echoed buf rest
        → value + length buf < 2 ^ 31
        → t ≡ record s {
          byte_cnt = value + length buf;
          workers = set s.workers k (counted connfd echoed buf rest);
        }
        → Step s t
    v_mutex :
        (k : ℕ) (connfd : ℤ) (echoed : List Text) (buf : Text) (rest : List Text)
        → k < nthreads
        → s.workers k ≡ counted connfd echoed buf rest
        → t ≡ record s {
          mutex = s.mutex + 1;
          workers = set s.workers k (unlocked connfd echoed buf rest);
        }
        → Step s t
    write_line :
        (k : ℕ) (connfd : ℤ) (echoed : List Text) (buf : Text) (rest : List Text)
        → k < nthreads
        → s.workers k ≡ unlocked connfd echoed buf rest
        → t ≡ record s { workers = set s.workers k (serving connfd (echoed ++ buf ∷ []) rest) }
        → Step s t
    close :
        (k : ℕ) (connfd : ℤ) (echoed : List Text)
        → k < nthreads
        → s.workers k ≡ serving connfd echoed []
        → t
          ≡ record s { workers = set s.workers k idle; closed = s.closed ++ (connfd, echoed) ∷ [] }
        → Step s t

  abbrev pub start : System
  start = record {
    sbuf = created;
    byte_cnt = 0;
    mutex = 1;
    workers = λ k. idle;
    accepted = [];
    closed = [];
  }

  pub data Reach : System → Type 0 where
    fresh : Reach start
    next : {s t : System} → Reach s → Step s t → Reach t
