-- ===== src/Tests/Echoing.antt =====
-- The echo server with one connection, whose client sends one line.
use computer_science.Prelude.{
  ℕ, ◌<◌, ◌≡◌, ◌∙◌, refl, ap, sym, arith, ◌==◌, Bool-cases, inl, inr, List, [], ◌∷◌, ◌++◌,
}
use mathlib.Core.List.{tail-eq_of_cons-eq}
use computer_science.Prelude.Int.{ℤ, pos}
use computer_science.Prelude.Sums.{sum}
use computer_science.Text.{Text, bytes}
use computer_science.Sbuf.{
  put_item, take_item, sbuf_init, p_slots, p_mutex_insert, write, v_mutex_insert, v_items, p_items,
  p_mutex_remove, read, v_mutex_remove, v_slots,
}
use computer_science.Sbuf
use computer_science.Sbuf.Queue.{QueueStep, contents, Step-QueueStep}
use computer_science.Sbuf.Channel.{Channel, Inserts, Removes, sbuf_channel}
use computer_science.Sbuf.Calls.{Runs-Reach, insert_call, remove_call}
use computer_science.EchoServer.{
  sbufsize, set, Worker, idle, System, Reach, accept, take, read_line, p_mutex, load, store,
  v_mutex, write_line, close, fresh, next,
}
use computer_science.EchoServer.Counting.{Accounted, Reach-Accounted}
use computer_science.EchoServer.Counting
use computer_science.EchoServer.Serving.{AllEchoed, Reach-all_served}

abbrev connection : ℤ
connection = pos 4

abbrev line : Text
line = bytes "ok"

-- A whole call of sbuf_insert, and one of sbuf_remove behind it
abbrev channel : Channel sbufsize
channel = sbuf_channel sbufsize

abbrev Filled : channel.State → Type 0
Filled q =
    Inserts connection (Sbuf.start sbufsize) q.0
    × (0 < q.0.sp.mutex)
    × (0 < q.0.sp.items)
    × (q.0.sp.front ≡ 0)

filled : (q : channel.State) × Filled q
unfolding sbuf_init
filled =
    let (t, call, free, there, slots, front) =
      insert_call connection (Sbuf.start sbufsize) (omega arith) (omega arith) (omega arith) in
    ((t, Runs-Reach Sbuf.fresh call.0), (call, free, there, front))

emptied : (x : ℤ) × (q : channel.State) × Removes x filled.0.0 q.0
emptied =
    let (q, (call, free, there, front)) = filled in
    let (x, t, removal, unlocked, room, one_less, rear) =
      remove_call q.0 free there (omega (arith, front)) in
    (x, (t, Runs-Reach q.1 removal.0), removal)

abbrev input : ℤ → List Text
input connfd = line ∷ []

idle_again :
    (a b c d e f g h : Worker) (k : ℕ)
    → set (set (set (set (set (set (set (set (λ j. idle) 0 a) 0 b) 0 c) 0 d) 0 e) 0 f) 0 g) 0 idle k
      ≡ idle
idle_again a b c d e f g h k = elim (Bool-cases (0 == k)) [
  | inl same ↦ rw same refl
  | inr other ↦ rw other refl
]

served :
    (s : System channel input) × Reach channel input s
    × ((k : ℕ) → s.workers k ≡ idle)
    × (s.sbuf ≡ emptied.1)
served =
    let x = emptied.0 in
    let r1 = next fresh (accept connection filled.0 filled.1.0 refl) in
    let r2 = next r1 (take 0 x emptied.1 (omega arith) refl emptied.2 refl) in
    let r3 = next r2 (read_line 0 x [] line [] (omega arith) refl refl) in
    let r4 = next r3 (p_mutex 0 x [] line [] (omega arith) refl (omega arith) refl) in
    let r5 = next r4 (load 0 x [] line [] (omega arith) refl refl) in
    let r6 = next r5 (store 0 0 x [] line [] (omega arith) refl (omega arith) refl) in
    let r7 = next r6 (v_mutex 0 x [] line [] (omega arith) refl refl) in
    let r8 = next r7 (write_line 0 x [] line [] (omega arith) refl refl) in
    let r9 = next r8 (close 0 x (line ∷ []) (omega arith) refl refl) in
    (_, r9, idle_again _ _ _ _ _ _ _ idle, refl)

emptied-contents : contents emptied.1.0 ≡ []
emptied-contents = tail-eq_of_cons-eq (
    sym (channel.items-remove {s = filled.0} {t = emptied.1} emptied.2)
    ∙ channel.items-insert {s = channel.created} {t = filled.0} filled.1.0
    ∙ ap (λ (l : List ℤ). l ++ connection ∷ []) channel.items-created)

Reach-all_served_example :
    (sum (λ c. 1) served.0.accepted ≡ sum (λ p. 1) served.0.closed)
    × AllEchoed channel input served.0.closed
    × (served.0.byte_cnt ≡ sum (Counting.bytes channel input) served.0.accepted)
Reach-all_served_example =
    Reach-all_served channel input served.1
      (ap contents (ap (λ (q : channel.State). q.0) served.3) ∙ emptied-contents)
      (λ k lt. served.2 k) (λ c. 1)

Reach-Accounted_example : Accounted channel input served.0
Reach-Accounted_example = Reach-Accounted channel input served.1

-- A thread that has the mutex, and one that has written
abbrev inside : Sbuf.System
inside = record {
  sp = record (sbuf_init sbufsize) { slots = 15; mutex = 0 };
  th = record (Sbuf.no_threads) { writing = 1 };
  inserted = [];
  removed = [];
}

inside-Reach : Sbuf.Reach sbufsize inside
unfolding sbuf_init
inside-Reach =
    Sbuf.next (Sbuf.next Sbuf.fresh (p_slots (omega arith) refl))
      (p_mutex_insert (omega arith) (omega arith) refl)

abbrev written_buffer : Sbuf.Sbuf
written_buffer = record (sbuf_init sbufsize) {
  slots = 15;
  mutex = 0;
  rear = 1;
  buf = Sbuf.update (λ i. pos 0) 1 connection;
}

abbrev behind_write : Sbuf.System
behind_write = record {
  sp = written_buffer;
  th = record (Sbuf.no_threads) { written = 1 };
  inserted = connection ∷ [];
  removed = [];
}

writes : Sbuf.Step inside behind_write
unfolding put_item sbuf_init
writes = write connection written_buffer (omega arith) refl refl

Step-QueueStep_example : QueueStep sbufsize (contents inside) (contents behind_write)
Step-QueueStep_example = Step-QueueStep inside-Reach writes
