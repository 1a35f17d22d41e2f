-- ===== src/Sbuf/Calls.antt =====
-- Calls that no other thread disturbs run to their end.
use computer_science.Prelude.{ℕ, ◌+◌, ◌-◌, ◌%◌, ◌<◌, ◌≡◌, refl, arith, [], ◌∷◌, ◌++◌, some}
use computer_science.Prelude.Int.{ℤ}
use computer_science.Sbuf.{
  Sbuf, System, Reach, p_slots, p_mutex_insert, write, v_mutex_insert, v_items, p_items,
  p_mutex_remove, read, v_mutex_remove, v_slots, next, put_item, take_item, update, int_max,
}
use computer_science.Sbuf.Channel.{Runs, stop, run, Inserts, Removes}

pub Runs-Reach : {n : ℕ} {s t : System} → Reach n s → Runs s t → Reach n t
Runs-Reach r stop = r
Runs-Reach r (run more st) = next (Runs-Reach r more) st

pub insert_call :
    (x : ℤ) (s : System)
    → 0 < s.sp.mutex
    → 0 < s.sp.slots
    → s.sp.rear < int_max
    → (t : System) × Inserts x s t
      × (0 < t.sp.mutex)
      × (0 < t.sp.items)
      × (t.sp.slots + 1 ≡ s.sp.slots)
      × (t.sp.front ≡ s.sp.front)
unfolding put_item
insert_call x s free room fits =
    let s1 : System = record s {
      sp = record (s.sp) { slots = s.sp.slots - 1 };
      th = record (s.th) { has_slot = s.th.has_slot + 1 };
    } in
    let s2 : System = record s1 {
      sp = record (s1.sp) { mutex = s1.sp.mutex - 1 };
      th = record (s1.th) { has_slot = s1.th.has_slot - 1; writing = s1.th.writing + 1 };
    } in
    let sp3 : Sbuf = record (s2.sp) {
      rear = s2.sp.rear + 1;
      buf = update s2.sp.buf ((s2.sp.rear + 1) % s2.sp.n) x;
    } in
    let s3 : System = record s2 {
      sp = sp3;
      th = record (s2.th) { writing = s2.th.writing - 1; written = s2.th.written + 1 };
      inserted = s2.inserted ++ x ∷ [];
    } in
    let s4 : System = record s3 {
      sp = record (s3.sp) { mutex = s3.sp.mutex + 1 };
      th = record (s3.th) {
        written = s3.th.written - 1;
        announcing_item = s3.th.announcing_item + 1;
      };
    } in
    let s5 : System = record s4 {
      sp = record (s4.sp) { items = s4.sp.items + 1 };
      th = record (s4.th) { announcing_item = s4.th.announcing_item - 1 };
    } in
    let written : put_item x s2.sp ≡ some sp3 = ground (arith, fits) in
    let r2 : Runs s s2 =
      run (run stop (p_slots room refl)) (p_mutex_insert (omega arith) free refl) in
    let r3 : Runs s s3 = run r2 (write x sp3 (omega arith) written refl) in
    let r5 : Runs s s5 =
      run (run r3 (v_mutex_insert (omega arith) refl)) (v_items (omega arith) refl) in
    (s5, (r5, refl, refl), omega arith, omega arith, omega (arith, room), refl)

pub remove_call :
    (s : System)
    → 0 < s.sp.mutex
    → 0 < s.sp.items
    → s.sp.front < int_max
    → (x : ℤ) × (t : System) × Removes x s t
      × (0 < t.sp.mutex)
      × (0 < t.sp.slots)
      × (t.sp.items + 1 ≡ s.sp.items)
      × (t.sp.rear ≡ s.sp.rear)
unfolding take_item
remove_call s free there fits =
    let x = s.sp.buf ((s.sp.front + 1) % s.sp.n) in
    let s1 : System = record s {
      sp = record (s.sp) { items = s.sp.items - 1 };
      th = record (s.th) { has_item = s.th.has_item + 1 };
    } in
    let s2 : System = record s1 {
      sp = record (s1.sp) { mutex = s1.sp.mutex - 1 };
      th = record (s1.th) { has_item = s1.th.has_item - 1; reading = s1.th.reading + 1 };
    } in
    let sp3 : Sbuf = record (s2.sp) { front = s2.sp.front + 1 } in
    let s3 : System = record s2 {
      sp = sp3;
      th = record (s2.th) { reading = s2.th.reading - 1; read_done = s2.th.read_done + 1 };
      removed = s2.removed ++ x ∷ [];
    } in
    let s4 : System = record s3 {
      sp = record (s3.sp) { mutex = s3.sp.mutex + 1 };
      th = record (s3.th) {
        read_done = s3.th.read_done - 1;
        announcing_slot = s3.th.announcing_slot + 1;
      };
    } in
    let s5 : System = record s4 {
      sp = record (s4.sp) { slots = s4.sp.slots + 1 };
      th = record (s4.th) { announcing_slot = s4.th.announcing_slot - 1 };
    } in
    let taken : take_item s2.sp ≡ some (x, sp3) = ground (arith, fits) in
    let r2 : Runs s s2 =
      run (run stop (p_items there refl)) (p_mutex_remove (omega arith) free refl) in
    let r3 : Runs s s3 = run r2 (read x sp3 (omega arith) taken refl) in
    let r5 : Runs s s5 =
      run (run r3 (v_mutex_remove (omega arith) refl)) (v_slots (omega arith) refl) in
    (x, s5, (r5, refl, refl), omega arith, omega arith, omega (arith, there), refl)
