-- ===== src/Tests/Buffers.antt =====
-- sbuf.c: a producer has written 4 into a buffer of two slots, and still holds the mutex.
use computer_science.Prelude.{◌+◌, ◌-◌, ◌≤◌, refl, arith, [], ◌∷◌}
use computer_science.Prelude.Int.{pos}
use computer_science.Sbuf.{
  Sbuf, System, Step, Reach, fresh, next, start, p_slots, p_mutex_insert, write, put_item,
  sbuf_init, update, no_threads,
}
use computer_science.Sbuf.Counts.{Reach-IsSafe}
use computer_science.Sbuf.Fifo.{Ordered, Reach-Ordered}

abbrev granted : System
granted = record (start 2) {
  sp = record (sbuf_init 2) { slots = 1 };
  th = record no_threads { has_slot = 1 };
}

abbrev locked : System
locked = record (start 2) {
  sp = record (sbuf_init 2) { slots = 1; mutex = 0 };
  th = record no_threads { writing = 1 };
}

abbrev stored : Sbuf
stored = record (sbuf_init 2) {
  slots = 1;
  mutex = 0;
  rear = 1;
  buf = update (sbuf_init 2).buf 1 (pos 4);
}

abbrev filled : System
filled = record {
  sp = stored;
  th = record no_threads { written = 1 };
  inserted = pos 4 ∷ [];
  removed = [];
}

filled_reached : Reach 2 filled
unfolding sbuf_init put_item
filled_reached =
    let first : Step (start 2) granted = p_slots (omega arith) refl in
    let second : Step granted locked = p_mutex_insert (omega arith) (omega arith) refl in
    let third : Step locked filled = write (pos 4) stored (omega arith) refl refl in
    next (next (next fresh first) second) third

Reach-IsSafe_example :
    (filled.th.writing + filled.th.written + filled.th.reading + filled.th.read_done ≤ 1)
    × (filled.sp.rear - filled.sp.front ≤ 2)
    × (filled.sp.rear - filled.sp.front + filled.th.writing ≤ 2)
    × (filled.sp.front + filled.th.reading ≤ filled.sp.rear)
Reach-IsSafe_example = Reach-IsSafe filled_reached

Reach-Ordered_example : Ordered filled
Reach-Ordered_example = Reach-Ordered filled_reached
