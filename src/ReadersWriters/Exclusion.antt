-- ===== src/ReadersWriters/Exclusion.antt =====
-- What the two semaphores of rw1.c keep apart.
use computer_science.Prelude.{ℕ, ◌+◌, ◌≤◌, ◌<◌, ◌≡◌, arith, ltb, if◌then◌else◌}
use computer_science.ReadersWriters.{
  System, Step, p_mutex_in, readcnt_in, p_w_reader, v_mutex_in, p_mutex_out, readcnt_out,
  v_w_reader, v_mutex_out, p_w_writer, v_w_writer, count_in, count_out, unlocked, Steps, stay,
  then_step,
}

-- The readers as a group hold `w`: behind the `P` of the first one, up to the `V` of the last one.
abbrev pub held : System → ℕ
held s =
    if ltb 0 s.last_out then 1 else if ltb 0 s.first_in then 0 else if ltb 0 s.readcnt then 1 else 0

pub record Balanced (s : System) : Type 0 where
  pub one_in_mutex :
      s.mutex + s.counting_in + s.first_in + s.opening + s.counting_out + s.last_out + s.closing ≡ 1
  pub counted : s.readcnt ≡ s.first_in + s.opening + s.reading + s.counting_out
  pub one_group : s.w + s.writing + held s ≡ 1
  pub first_alone : 0 < s.first_in → s.readcnt ≡ 1
  pub last_alone : 0 < s.last_out → s.readcnt ≡ 0

pub Step-Balanced : {s t : System} → Step s t → Balanced s → Balanced t
unfolding count_in count_out
Step-Balanced (p_mutex_in h e) b = ground arith
Step-Balanced (readcnt_in h e) b = ground arith
Step-Balanced (p_w_reader h k e) b = ground arith
Step-Balanced (v_mutex_in h e) b = ground arith
Step-Balanced (p_mutex_out h k e) b = ground arith
Step-Balanced (readcnt_out h e) b = ground arith
Step-Balanced (v_w_reader h e) b = ground arith
Step-Balanced (v_mutex_out h e) b = ground arith
Step-Balanced (p_w_writer h e) b = ground arith
Step-Balanced (v_w_writer h e) b = ground arith

pub Steps-Balanced : {s : System} → Steps unlocked s → Balanced s
Steps-Balanced stay = ground arith
Steps-Balanced (then_step r st) = Step-Balanced st (Steps-Balanced r)

pub record IsSafe (s : System) : Type 0 where
  pub apart : 0 < s.reading → s.writing ≡ 0
  pub single : s.writing ≤ 1
  pub inside : s.reading ≤ s.readcnt
  pub waits_for_writing : 0 < s.first_in → s.w ≡ 0 → s.writing ≡ 1

-- In every reachable state of any number of readers and writers, no writer is in its critical section
-- with a reader or another writer, `readcnt` counts at least the readers inside, and a first reader
-- that has to wait waits for a writer inside, never for one that waits itself.
pub Steps-IsSafe : (s : System) → Steps unlocked s → IsSafe s
Steps-IsSafe s r =
    let b = Steps-Balanced r in
    record {
      apart =
          λ h. ground (arith, b.one_in_mutex, b.counted, b.one_group, b.first_alone, b.last_alone);
      single = omega (arith, b.one_group);
      inside = omega (arith, b.counted);
      waits_for_writing = λ h k. ground (arith, b.one_in_mutex, b.one_group, b.last_alone);
    }
