-- ===== src/Sbuf/Counts.antt =====
-- What the semaphores count, in every state that threads can reach.
use computer_science.Prelude.{ℕ, ◌+◌, ◌-◌, ◌≤◌, ◌≡◌, arith}
use computer_science.Sbuf.{
  System, Step, Reach, p_slots, p_mutex_insert, write, v_mutex_insert, v_items, p_items,
  p_mutex_remove, read, v_mutex_remove, v_slots, fresh, next, put_item, take_item, sbuf_init,
}

-- The mutex is held by one thread or free; a slot is free, promised to a producer, taken by an item,
-- or about to be announced; an item is announced, promised to a consumer, or about to be.
pub record Counted (n : ℕ) (s : System) : Type 0 where
  pub size : s.sp.n ≡ n
  pub order : s.sp.front ≤ s.sp.rear
  pub exclusive : s.sp.mutex + s.th.writing + s.th.written + s.th.reading + s.th.read_done ≡ 1
  pub slots_count :
      s.sp.slots
        + s.th.has_slot
        + s.th.writing
        + (s.sp.rear - s.sp.front)
        + s.th.read_done
        + s.th.announcing_slot
      ≡ n
  pub items_count :
      s.sp.items + s.th.has_item + s.th.reading + s.th.written + s.th.announcing_item
      ≡ s.sp.rear - s.sp.front

Step-Counted : {n : ℕ} {s t : System} → Step s t → Counted n s → Counted n t
unfolding put_item take_item
Step-Counted (p_slots h e) c = ground arith
Step-Counted (p_mutex_insert h k e) c = ground arith
Step-Counted (write x sp h p e) c = ground arith
Step-Counted (v_mutex_insert h e) c = ground arith
Step-Counted (v_items h e) c = ground arith
Step-Counted (p_items h e) c = ground arith
Step-Counted (p_mutex_remove h k e) c = ground arith
Step-Counted (read x sp h p e) c = ground arith
Step-Counted (v_mutex_remove h e) c = ground arith
Step-Counted (v_slots h e) c = ground arith

pub Reach-Counted : {n : ℕ} {s : System} → Reach n s → Counted n s
unfolding sbuf_init
Reach-Counted fresh = ground arith
Reach-Counted (next r st) = Step-Counted st (Reach-Counted r)

Counted-IsSafe :
    {n : ℕ} {s : System}
    → Counted n s
    → (s.th.writing + s.th.written + s.th.reading + s.th.read_done ≤ 1)
      × (s.sp.rear - s.sp.front ≤ n)
      × (s.sp.rear - s.sp.front + s.th.writing ≤ n)
      × (s.sp.front + s.th.reading ≤ s.sp.rear)
Counted-IsSafe c = omega arith

-- In every state that threads can reach at most one thread is between `P(&sp->mutex)` and
-- `V(&sp->mutex)`; the buffer never holds more than its `n` items; beside what it holds there is a
-- free slot for each thread about to write, and it holds an item for each thread about to read.
pub Reach-IsSafe :
    {n : ℕ} {s : System}
    → Reach n s
    → (s.th.writing + s.th.written + s.th.reading + s.th.read_done ≤ 1)
      × (s.sp.rear - s.sp.front ≤ n)
      × (s.sp.rear - s.sp.front + s.th.writing ≤ n)
      × (s.sp.front + s.th.reading ≤ s.sp.rear)
Reach-IsSafe r = Counted-IsSafe (Reach-Counted r)
