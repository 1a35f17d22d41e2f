-- ===== src/EchoServer/Counting.antt =====
-- The bytes that the threads count.
use computer_science.Prelude.{
  ℕ, ◌+◌, ◌-◌, ◌<◌, ◌≡◌, ◌≢◌, ◌⊎◌, refl, sym, ap, arith, List, [], ◌∷◌, ◌++◌, ◌==◌, length, inl,
  inr, Bool-cases,
}
use mathlib.Core.Path.{subst}
use computer_science.Prelude.Int.{ℤ}
use computer_science.Prelude.Sums.{
  sum, sum_below, sum-append, sum_below-change, sum_below-terms, sum_below-zero,
}
use computer_science.Text.{Text}
use computer_science.Sbuf.Channel.{Channel}
use computer_science.EchoServer.{
  nthreads, Worker, idle, serving, received, locked, loaded, counted, unlocked, set, System, Step,
  accept, take, read_line, p_mutex, load, store, v_mutex, write_line, close, Reach, fresh, next,
}

-- Whether a thread is between P and V
abbrev pub inside : Worker → ℕ
inside (locked c e buf rest) = 1
inside (loaded v c e buf rest) = 1
inside (counted c e buf rest) = 1
inside w = 0

-- The bytes that a thread has taken on and not counted
abbrev pub uncounted : Worker → ℕ
uncounted idle = 0
uncounted (serving c e rest) = sum length rest
uncounted (received c e buf rest) = length buf + sum length rest
uncounted (locked c e buf rest) = length buf + sum length rest
uncounted (loaded v c e buf rest) = length buf + sum length rest
uncounted (counted c e buf rest) = sum length rest
uncounted (unlocked c e buf rest) = sum length rest

-- A value that is loaded is that of the counter.
abbrev Knows : ℕ → Worker → Type 0
Knows byte_cnt (loaded v c e buf rest) = v ≡ byte_cnt
Knows byte_cnt w = Unit

Knows-outside : (byte_cnt : ℕ) (w : Worker) → inside w ≡ 0 → Knows byte_cnt w
Knows-outside byte_cnt idle h = tt
Knows-outside byte_cnt (serving c e rest) h = tt
Knows-outside byte_cnt (received c e buf rest) h = tt
Knows-outside byte_cnt (locked c e buf rest) h = tt
Knows-outside byte_cnt (loaded v c e buf rest) h = absurd (omega (arith, h))
Knows-outside byte_cnt (counted c e buf rest) h = tt
Knows-outside byte_cnt (unlocked c e buf rest) h = tt

pub set_here : (workers : ℕ → Worker) (k : ℕ) (w : Worker) → set workers k w k ≡ w
set_here workers k w = ground arith

pub set_away : (workers : ℕ → Worker) (k j : ℕ) (w : Worker) → k ≢ j → set workers k w j ≡ workers j
set_away workers k j w ne = ground arith

-- What a new line of one thread does to a sum over the threads
pub sum_below-set :
    (g : Worker → ℕ) (workers : ℕ → Worker) (k : ℕ) (w w2 : Worker)
    → k < nthreads
    → workers k ≡ w
    → sum_below nthreads (λ j. g (set workers k w2 j)) + g w
      ≡ sum_below nthreads (λ j. g (workers j)) + g w2
sum_below-set g workers k w w2 lt at_line = omega (
  arith,
  sum_below-change nthreads (λ j. g (workers j)) (λ j. g (set workers k w2 j)) k lt
      (λ j ne. ap g (set_away workers k j w2 ne)),
  ap g at_line,
  ap g (set_here workers k w2),
)

module _ {n : ℕ} (C : Channel n) (input : ℤ → List Text) where
  open C use {State, created, items, items-created, items-insert, items-remove}

  abbrev pub bytes : ℤ → ℕ
  bytes connfd = sum length (input connfd)

  pub record Accounted (s : System C input) : Type 0 where
    pub exclusive : s.mutex + sum_below nthreads (λ k. inside (s.workers k)) ≡ 1
    pub knows : (k : ℕ) → k < nthreads → Knows s.byte_cnt (s.workers k)
    pub conserved :
        sum bytes s.accepted
        ≡ s.byte_cnt + sum bytes (items s.sbuf) + sum_below nthreads (λ k. uncounted (s.workers k))

  -- A thread that goes on to another line.
  moved :
      (s : System C input) (k byte_cnt mutex : ℕ) (sbuf : State) (w w2 : Worker)
      (closed : List (ℤ × List Text))
      → k < nthreads
      → s.workers k ≡ w
      → Accounted s
      → mutex + inside w2 ≡ s.mutex + inside w
      → byte_cnt + sum bytes (items sbuf) + uncounted w2
        ≡ s.byte_cnt + sum bytes (items s.sbuf) + uncounted w
      → (byte_cnt ≡ s.byte_cnt) ⊎ (inside w ≡ 1)
      → Knows byte_cnt w2
      → Accounted (record s {
        sbuf = sbuf;
        byte_cnt = byte_cnt;
        mutex = mutex;
        workers = set s.workers k w2;
        closed = closed;
      })
  moved s k byte_cnt mutex sbuf w w2 closed lt at_line c locks counts alone here = record {
    exclusive = omega (arith, c.exclusive, locks, sum_below-set inside s.workers k w w2 lt at_line);
    knows = λ j below. elim (Bool-cases (k == j)) [
      | inl same ↦ rw same here
      | inr other ↦ rw other (elim alone [
        | inl e ↦ subst (λ (m : ℕ). Knows m (s.workers j)) (sym e) (c.knows j below)
        | inr held ↦ Knows-outside byte_cnt (s.workers j) (
            omega (
              arith,
              held,
              ap inside at_line,
              c.exclusive,
              sum_below-terms nthreads (λ i. inside (s.workers i)) k j lt below
                  (ground (arith, other)),
            ))
      ])
    ];
    conserved =
        omega (arith, c.conserved, counts, sum_below-set uncounted s.workers k w w2 lt at_line);
  }

  accepted-Accounted :
      (s : System C input) (connfd : ℤ) (q : State)
      → items q ≡ items s.sbuf ++ connfd ∷ []
      → Accounted s
      → Accounted (record s { sbuf = q; accepted = s.accepted ++ connfd ∷ [] })
  accepted-Accounted s connfd q e c = record {
    exclusive = c.exclusive;
    knows = c.knows;
    conserved = omega (
      arith,
      c.conserved,
      ap (sum bytes) e,
      sum-append bytes (items s.sbuf) (connfd ∷ []),
      sum-append bytes s.accepted (connfd ∷ []),
    );
  }

  Step-Accounted : {s t : System C input} → Step C input s t → Accounted s → Accounted t
  unfolding sum
  Step-Accounted {s} (accept connfd q put e) c =
      rw e (accepted-Accounted s connfd q (items-insert put) c)
  Step-Accounted {s} (take k connfd q lt at_line got e) c = rw e (
      moved s k s.byte_cnt s.mutex q idle (serving connfd [] (input connfd)) s.closed lt at_line c
        refl (omega (arith, ap (sum bytes) (items-remove got))) (inl refl) tt)
  Step-Accounted {s} (read_line k connfd echoed buf rest lt at_line e) c = rw e (
      moved s k s.byte_cnt s.mutex s.sbuf (serving connfd echoed (buf ∷ rest))
        (received connfd echoed buf rest) s.closed lt at_line c refl (omega arith) (inl refl) tt)
  Step-Accounted {s} (p_mutex k connfd echoed buf rest lt at_line free e) c = rw e (
      moved s k s.byte_cnt (s.mutex - 1) s.sbuf (received connfd echoed buf rest)
        (locked connfd echoed buf rest) s.closed lt at_line c (omega (arith, free)) (omega arith)
        (inl refl) tt)
  Step-Accounted {s} (load k connfd echoed buf rest lt at_line e) c = rw e (
      moved s k s.byte_cnt s.mutex s.sbuf (locked connfd echoed buf rest)
        (loaded s.byte_cnt connfd echoed buf rest) s.closed lt at_line c refl (omega arith)
        (inl refl) refl)
  Step-Accounted {s} (store k value connfd echoed buf rest lt at_line fits e) c =
      let same : value ≡ s.byte_cnt = rw at_line at (c.knows k lt) in
      rw e (
        moved s k (value + length buf) s.mutex s.sbuf (loaded value connfd echoed buf rest)
          (counted connfd echoed buf rest) s.closed lt at_line c refl (omega (arith, same))
          (inr refl) tt)
  Step-Accounted {s} (v_mutex k connfd echoed buf rest lt at_line e) c = rw e (
      moved s k s.byte_cnt (s.mutex + 1) s.sbuf (counted connfd echoed buf rest)
        (unlocked connfd echoed buf rest) s.closed lt at_line c (omega arith) (omega arith)
        (inl refl) tt)
  Step-Accounted {s} (write_line k connfd echoed buf rest lt at_line e) c = rw e (
      moved s k s.byte_cnt s.mutex s.sbuf (unlocked connfd echoed buf rest)
        (serving connfd (echoed ++ buf ∷ []) rest) s.closed lt at_line c refl (omega arith)
        (inl refl) tt)
  Step-Accounted {s} (close k connfd echoed lt at_line e) c = rw e (
      moved s k s.byte_cnt s.mutex s.sbuf (serving connfd echoed []) idle
        (s.closed ++ (connfd, echoed) ∷ []) lt at_line c refl (omega arith) (inl refl) tt)

  -- In every state of the server, at most one thread is between P and V, and the bytes of all accepted
  -- connections are those that `byte_cnt` counts, those of the connections in the buffer, and those that the
  -- threads have taken on and not counted.
  pub Reach-Accounted : {s : System C input} → Reach C input s → Accounted s
  unfolding sum
  Reach-Accounted fresh = record {
    exclusive = omega (arith, sum_below-zero nthreads (λ k. inside idle) (λ k lt. refl));
    knows = λ k lt. tt;
    conserved = omega (
      arith,
      ap (sum bytes) items-created,
      sum_below-zero nthreads (λ k. uncounted idle) (λ k lt. refl),
    );
  }
  Reach-Accounted (next r st) = Step-Accounted st (Reach-Accounted r)
