-- ===== src/ReadersWriters.antt =====
-- CMU15-213/25-sync-advanced/rw1.c: readers and writers that share two semaphores. A step is one line
-- of `reader` or `writer` by any thread that stands before that line; there may be any number of
-- threads. `P` waits for a positive count and takes one, `V` adds one. `readcnt` is an int in the code:
-- fewer than 2^31 readers are inside at once.
pub mod Exclusion
pub mod Draining
use computer_science.Prelude.{ℕ, ◌+◌, ◌-◌, ◌<◌, ◌≡◌, ◌==◌, if◌then◌else◌}

-- The globals, and how many threads stand inside `reader` or `writer`, by what they do next.
pub record System : Type 0 where
  pub readcnt : ℕ
  pub mutex : ℕ
  pub w : ℕ
  -- readcnt++, P(&w) of the first reader, V(&mutex)
  pub counting_in : ℕ
  pub first_in : ℕ
  pub opening : ℕ
  -- inside the critical section of `reader`, or behind it before P(&mutex)
  pub reading : ℕ
  -- readcnt--, V(&w) of the last reader, V(&mutex)
  pub counting_out : ℕ
  pub last_out : ℕ
  pub closing : ℕ
  -- inside the critical section of `writer`, or behind it before V(&w)
  pub writing : ℕ

unfoldable pub count_in : System → System
count_in s =
    let readcnt = s.readcnt + 1 in
    if readcnt == 1
    then record s { readcnt = readcnt; counting_in = s.counting_in - 1; first_in = s.first_in + 1 }
    else record s { readcnt = readcnt; counting_in = s.counting_in - 1; opening = s.opening + 1 }

unfoldable pub count_out : System → System
count_out s =
    let readcnt = s.readcnt - 1 in
    if readcnt == 0
    then record s {
      readcnt = readcnt;
      counting_out = s.counting_out - 1;
      last_out = s.last_out + 1;
    }
    else record s { readcnt = readcnt; counting_out = s.counting_out - 1; closing = s.closing + 1 }

pub data Step (s t : System) : Type 0 where
  p_mutex_in :
      0 < s.mutex → t ≡ record s { mutex = s.mutex - 1; counting_in = s.counting_in + 1 } → Step s t
  readcnt_in : 0 < s.counting_in → t ≡ count_in s → Step s t
  p_w_reader :
      0 < s.first_in
      → 0 < s.w
      → t ≡ record s { w = s.w - 1; first_in = s.first_in - 1; opening = s.opening + 1 }
      → Step s t
  v_mutex_in :
      0 < s.opening
      → t ≡ record s { mutex = s.mutex + 1; opening = s.opening - 1; reading = s.reading + 1 }
      → Step s t
  p_mutex_out :
      0 < s.reading
      → 0 < s.mutex
      → t ≡ record s {
        mutex = s.mutex - 1;
        reading = s.reading - 1;
        counting_out = s.counting_out + 1;
      }
      → Step s t
  readcnt_out : 0 < s.counting_out → t ≡ count_out s → Step s t
  v_w_reader :
      0 < s.last_out
      → t ≡ record s { w = s.w + 1; last_out = s.last_out - 1; closing = s.closing + 1 }
      → Step s t
  v_mutex_out :
      0 < s.closing → t ≡ record s { mutex = s.mutex + 1; closing = s.closing - 1 } → Step s t
  p_w_writer : 0 < s.w → t ≡ record s { w = s.w - 1; writing = s.writing + 1 } → Step s t
  v_w_writer : 0 < s.writing → t ≡ record s { w = s.w + 1; writing = s.writing - 1 } → Step s t

abbrev pub unlocked : System
unlocked = record {
  readcnt = 0;
  mutex = 1;
  w = 1;
  counting_in = 0;
  first_in = 0;
  opening = 0;
  reading = 0;
  counting_out = 0;
  last_out = 0;
  closing = 0;
  writing = 0;
}

-- From `s` by any steps.
pub data Steps (s : System) : System → Type 0 where
  stay : Steps s s
  then_step : {t u : System} → Steps s t → Step t u → Steps s u
