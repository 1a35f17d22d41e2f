-- ===== src/Counter.antt =====
-- CMU15-213/24-sync-basic/goodcnt.c and badcnt.c: two threads increment one counter. `cnt++` is a
-- load and a store, since `cnt` is volatile: a schedule names the thread that runs its next load,
-- store, `P` or `V`. A thread that has left its loop, or that `P` makes wait, ignores its turn. The
-- argument `niters` is not negative; `cnt` stays below 2 ^ 33, so `long` does not overflow.
pub mod Good
pub mod Progress
pub mod Bad
use computer_science.Prelude.{
  ℕ, zero, suc, ◌+◌, ◌-◌, ◌*◌, ◌^◌, Bool, true, false, List, [], ◌∷◌, Option, none, some, ltb, leb,
  ◌==◌, if◌then◌else◌,
}

-- Where a thread stands in an iteration: in front of it, behind `P`, behind the load of `cnt`, with
-- what it has loaded, or behind the store.
pub data Phase : Type 0 where
  ready : Phase
  locked : Phase
  loaded : (value : ℕ) → Phase
  stored : Phase

-- The iterations behind a thread, and its phase in the next one.
pub record Thread : Type 0 where
  pub ran : ℕ
  pub phase : Phase

pub record System : Type 0 where
  pub cnt : ℕ
  pub mutex : ℕ
  pub tid1 : Thread
  pub tid2 : Thread

-- A turn of a thread of goodcnt.c: the new `cnt`, `mutex` and thread.
unfoldable pub good_turn : ℕ → ℕ → ℕ → ℕ → Phase → ℕ × ℕ × Thread
good_turn niters cnt mutex i ready =
    if ltb i niters
    then (if ltb 0 mutex
        then (cnt, mutex - 1, record { ran = i; phase = locked })
        else (cnt, mutex, record { ran = i; phase = ready }))
    else (cnt, mutex, record { ran = i; phase = ready })
good_turn niters cnt mutex i locked = (cnt, mutex, record { ran = i; phase = loaded cnt })
good_turn niters cnt mutex i (loaded value) = (value + 1, mutex, record { ran = i; phase = stored })
good_turn niters cnt mutex i stored = (cnt, mutex + 1, record { ran = i + 1; phase = ready })

-- A turn of a thread of badcnt.c, which has no semaphore.
unfoldable pub bad_turn : ℕ → ℕ → ℕ → ℕ → Phase → ℕ × ℕ × Thread
bad_turn niters cnt mutex i ready =
    if ltb i niters
    then (cnt, mutex, record { ran = i; phase = loaded cnt })
    else (cnt, mutex, record { ran = i; phase = ready })
bad_turn niters cnt mutex i locked = (cnt, mutex, record { ran = i; phase = locked })
bad_turn niters cnt mutex i (loaded value) =
    (value + 1, mutex, record { ran = i + 1; phase = ready })
bad_turn niters cnt mutex i stored = (cnt, mutex, record { ran = i; phase = stored })

-- `true` is the turn of the first thread.
abbrev pub advance : (ℕ → ℕ → ℕ → Phase → ℕ × ℕ × Thread) → Bool → System → System
advance turn true s =
    let (cnt, mutex, t) = turn s.cnt s.mutex s.tid1.ran s.tid1.phase in
    record { cnt = cnt; mutex = mutex; tid1 = t; tid2 = s.tid2 }
advance turn false s =
    let (cnt, mutex, t) = turn s.cnt s.mutex s.tid2.ran s.tid2.phase in
    record { cnt = cnt; mutex = mutex; tid1 = s.tid1; tid2 = t }

unfoldable pub run : (ℕ → ℕ → ℕ → Phase → ℕ × ℕ × Thread) → List Bool → System → System
run turn [] s = s
run turn (who ∷ ts) s = run turn ts (advance turn who s)

abbrev pub created : System
created = record {
  cnt = 0;
  mutex = 1;
  tid1 = record { ran = 0; phase = ready };
  tid2 = record { ran = 0; phase = ready };
}

abbrev pub int_max : ℕ
int_max = 2 ^ 31 - 1

-- The last test of `main`, on a schedule up to the second `Pthread_join`: `true` prints OK, `none` is
-- the overflow of `2 * niters`, an `int`.
unfoldable pub main_good : ℕ → List Bool → Option Bool
unfolding run good_turn
main_good niters schedule =
    if leb (2 * niters) int_max
    then some ((run (good_turn niters) schedule created).cnt == 2 * niters)
    else none

-- In badcnt.c `niters` is a `long`.
unfoldable pub main_bad : ℕ → List Bool → Option Bool
unfolding run bad_turn
main_bad niters schedule = some ((run (bad_turn niters) schedule created).cnt == 2 * niters)
