-- ===== src/Sbuf.antt =====
-- CMU15-213/25-sync-advanced/sbuf.c and sbuf.h: a bounded buffer shared by any number of producer
-- and consumer threads. A thread's call is taken line by line: each step of `Step` is one line of
-- `sbuf_insert` or `sbuf_remove`, by any thread that stands before that line. `P` and `V` are the
-- semaphore operations of csapp.h: `P` waits for a positive count and takes one, `V` adds one.
pub mod Counts
pub mod Fifo
pub mod Queue
pub mod Channel
pub mod Calls
use computer_science.Prelude.{
  ℕ, ◌+◌, ◌-◌, ◌%◌, ◌^◌, ◌<◌, ◌≡◌, Option, none, some, ltb, ◌==◌, if◌then◌else◌, List, [], ◌∷◌,
  ◌++◌,
}
use computer_science.Prelude.Int.{ℤ, pos}

-- `sbuf_t`: the array by its indices, and the counts of the three semaphores.
pub record Sbuf : Type 0 where
  pub buf : ℕ → ℤ
  pub n : ℕ
  pub front : ℕ
  pub rear : ℕ
  pub mutex : ℕ
  pub slots : ℕ
  pub items : ℕ

abbrev pub int_max : ℕ
int_max = 2 ^ 31 - 1

unfoldable pub sbuf_init : ℕ → Sbuf
sbuf_init n = record {
  buf = λ i. pos 0;
  n = n;
  front = 0;
  rear = 0;
  mutex = 1;
  slots = n;
  items = 0;
}

abbrev pub update : (ℕ → ℤ) → ℕ → ℤ → ℕ → ℤ
update buf i x j = if i == j then x else buf j

-- `sp->buf[(++sp->rear)%(sp->n)] = item`; `none` is the overflow of `++`.
unfoldable pub put_item : ℤ → Sbuf → Option Sbuf
put_item item sp =
    if ltb sp.rear int_max
    then some (record sp { rear = sp.rear + 1; buf = update sp.buf ((sp.rear + 1) % sp.n) item })
    else none

-- `item = sp->buf[(++sp->front)%(sp->n)]`
unfoldable pub take_item : Sbuf → Option (ℤ × Sbuf)
take_item sp =
    if ltb sp.front int_max
    then some (sp.buf ((sp.front + 1) % sp.n), record sp { front = sp.front + 1 })
    else none

-- How many threads stand inside a call, by the line that they ran last. Of `sbuf_insert`: P(slots),
-- P(mutex), the write, V(mutex). Of `sbuf_remove`: P(items), P(mutex), the read, V(mutex).
pub record Threads : Type 0 where
  pub has_slot : ℕ
  pub writing : ℕ
  pub written : ℕ
  pub announcing_item : ℕ
  pub has_item : ℕ
  pub reading : ℕ
  pub read_done : ℕ
  pub announcing_slot : ℕ

-- The buffer, its threads, and what has been written to and read from it so far, oldest first.
pub record System : Type 0 where
  pub sp : Sbuf
  pub th : Threads
  pub inserted : List ℤ
  pub removed : List ℤ

pub data Step (s t : System) : Type 0 where
  p_slots :
      0 < s.sp.slots
      → t ≡ record s {
        sp = record (s.sp) { slots = s.sp.slots - 1 };
        th = record (s.th) { has_slot = s.th.has_slot + 1 };
      }
      → Step s t
  p_mutex_insert :
      0 < s.th.has_slot
      → 0 < s.sp.mutex
      → t ≡ record s {
        sp = record (s.sp) { mutex = s.sp.mutex - 1 };
        th = record (s.th) { has_slot = s.th.has_slot - 1; writing = s.th.writing + 1 };
      }
      → Step s t
  write :
      (item : ℤ) (sp : Sbuf)
      → 0 < s.th.writing
      → put_item item s.sp ≡ some sp
      → t ≡ record s {
        sp = sp;
        th = record (s.th) { writing = s.th.writing - 1; written = s.th.written + 1 };
        inserted = s.inserted ++ item ∷ [];
      }
      → Step s t
  v_mutex_insert :
      0 < s.th.written
      → t ≡ record s {
        sp = record (s.sp) { mutex = s.sp.mutex + 1 };
        th = record (s.th) {
          written = s.th.written - 1;
          announcing_item = s.th.announcing_item + 1;
        };
      }
      → Step s t
  v_items :
      0 < s.th.announcing_item
      → t ≡ record s {
        sp = record (s.sp) { items = s.sp.items + 1 };
        th = record (s.th) { announcing_item = s.th.announcing_item - 1 };
      }
      → Step s t
  p_items :
      0 < s.sp.items
      → t ≡ record s {
        sp = record (s.sp) { items = s.sp.items - 1 };
        th = record (s.th) { has_item = s.th.has_item + 1 };
      }
      → Step s t
  p_mutex_remove :
      0 < s.th.has_item
      → 0 < s.sp.mutex
      → t ≡ record s {
        sp = record (s.sp) { mutex = s.sp.mutex - 1 };
        th = record (s.th) { has_item = s.th.has_item - 1; reading = s.th.reading + 1 };
      }
      → Step s t
  read :
      (item : ℤ) (sp : Sbuf)
      → 0 < s.th.reading
      → take_item s.sp ≡ some (item, sp)
      → t ≡ record s {
        sp = sp;
        th = record (s.th) { reading = s.th.reading - 1; read_done = s.th.read_done + 1 };
        removed = s.removed ++ item ∷ [];
      }
      → Step s t
  v_mutex_remove :
      0 < s.th.read_done
      → t ≡ record s {
        sp = record (s.sp) { mutex = s.sp.mutex + 1 };
        th = record (s.th) {
          read_done = s.th.read_done - 1;
          announcing_slot = s.th.announcing_slot + 1;
        };
      }
      → Step s t
  v_slots :
      0 < s.th.announcing_slot
      → t ≡ record s {
        sp = record (s.sp) { slots = s.sp.slots + 1 };
        th = record (s.th) { announcing_slot = s.th.announcing_slot - 1 };
      }
      → Step s t

abbrev pub no_threads : Threads
no_threads = record {
  has_slot = 0;
  writing = 0;
  written = 0;
  announcing_item = 0;
  has_item = 0;
  reading = 0;
  read_done = 0;
  announcing_slot = 0;
}

abbrev pub start : ℕ → System
start n = record { sp = sbuf_init n; th = no_threads; inserted = []; removed = [] }

-- What can be reached from a fresh buffer of `n` slots.
pub data Reach (n : ℕ) : System → Type 0 where
  fresh : Reach n (start n)
  next : {s t : System} → Reach n s → Step s t → Reach n t
