-- ===== src/EchoServer/Serving.antt =====
-- Every connection is served once, and gets back what it has sent.
use computer_science.Prelude.{
  ℕ, ◌+◌, ◌<◌, ◌≡◌, ◌∙◌, refl, sym, ap, arith, List, [], ◌∷◌, ◌++◌, append_assoc, append-nil, ◌==◌,
  inl, inr, Bool-cases,
}
use computer_science.Prelude.Int.{ℤ}
use computer_science.Prelude.Sums.{sum, sum_below, sum-append, sum_below-zero}
use computer_science.Text.{Text}
use computer_science.Sbuf.Channel.{Channel}
use computer_science.EchoServer.{
  nthreads, Worker, idle, serving, received, locked, loaded, counted, unlocked, set, System, Step,
  accept, take, read_line, p_mutex, load, store, v_mutex, write_line, close, Reach, fresh, next,
}
use computer_science.EchoServer.Counting.{uncounted, sum_below-set, Reach-Accounted, bytes}

-- The weight of the connection that a thread serves
abbrev carried : (ℤ → ℕ) → Worker → ℕ
carried weight idle = 0
carried weight (serving c e rest) = weight c
carried weight (received c e buf rest) = weight c
carried weight (locked c e buf rest) = weight c
carried weight (loaded v c e buf rest) = weight c
carried weight (counted c e buf rest) = weight c
carried weight (unlocked c e buf rest) = weight c

module _ {n : ℕ} (C : Channel n) (input : ℤ → List Text) where
  open C use {State, created, items, items-created, items-insert, items-remove}

  -- What a thread has echoed and what it has still to read make up what the client sends.
  abbrev Echoes : Worker → Type 0
  Echoes idle = Unit
  Echoes (serving c e rest) = input c ≡ e ++ rest
  Echoes (received c e buf rest) = input c ≡ e ++ buf ∷ rest
  Echoes (locked c e buf rest) = input c ≡ e ++ buf ∷ rest
  Echoes (loaded v c e buf rest) = input c ≡ e ++ buf ∷ rest
  Echoes (counted c e buf rest) = input c ≡ e ++ buf ∷ rest
  Echoes (unlocked c e buf rest) = input c ≡ e ++ buf ∷ rest

  -- What was written to every closed connection is what its client has sent.
  abbrev pub AllEchoed : List (ℤ × List Text) → Type 0
  AllEchoed [] = Unit
  AllEchoed ((c, e) ∷ closed) = (e ≡ input c) × AllEchoed closed

  AllEchoed-append :
      (closed : List (ℤ × List Text)) (c : ℤ) (e : List Text)
      → AllEchoed closed
      → e ≡ input c
      → AllEchoed (closed ++ (c, e) ∷ [])
  AllEchoed-append [] c e all here = (here, tt)
  AllEchoed-append ((d, f) ∷ closed) c e (there, all) here =
      (there, AllEchoed-append closed c e all here)

  record Served (s : System C input) : Type 0 where
    echoes : (k : ℕ) → k < nthreads → Echoes (s.workers k)
    all_echoed : AllEchoed s.closed
    weighed :
        (weight : ℤ → ℕ)
        → sum weight s.accepted
          ≡ sum weight (items s.sbuf)
            + sum_below nthreads (λ k. carried weight (s.workers k))
            + sum (λ p. weight p.0) s.closed

  moved :
      (s : System C input) (k byte_cnt mutex : ℕ) (sbuf : State) (w w2 : Worker)
      (closed : List (ℤ × List Text))
      → k < nthreads
      → s.workers k ≡ w
      → Served s
      → Echoes w2
      → AllEchoed closed
      → ((weight : ℤ → ℕ)
          → sum weight (items sbuf) + carried weight w2 + sum (λ p. weight p.0) closed
            ≡ sum weight (items s.sbuf) + carried weight w + sum (λ p. weight p.0) s.closed)
      → Served (record s {
        sbuf = sbuf;
        byte_cnt = byte_cnt;
        mutex = mutex;
        workers = set s.workers k w2;
        closed = closed;
      })
  moved s k byte_cnt mutex sbuf w w2 closed lt at_line c here all balance = record {
    echoes = λ j below. elim (Bool-cases (k == j)) [
      | inl same ↦ rw same here
      | inr other ↦ rw other (c.echoes j below)
    ];
    all_echoed = all;
    weighed = λ weight. omega (
      arith,
      c.weighed weight,
      balance weight,
      sum_below-set (carried weight) s.workers k w w2 lt at_line,
    );
  }

  -- A thread that goes on to another line for its connection.
  goes_on :
      (s : System C input) (k byte_cnt mutex : ℕ) (w w2 : Worker)
      → k < nthreads
      → s.workers k ≡ w
      → Served s
      → (Echoes w → Echoes w2)
      → ((weight : ℤ → ℕ) → carried weight w2 ≡ carried weight w)
      → Served (record s { byte_cnt = byte_cnt; mutex = mutex; workers = set s.workers k w2 })
  goes_on s k byte_cnt mutex w w2 lt at_line c keeps same =
      moved s k byte_cnt mutex s.sbuf w w2 s.closed lt at_line c
        (keeps (rw at_line at (c.echoes k lt))) c.all_echoed (λ weight. omega (arith, same weight))

  accepted-Served :
      (s : System C input) (connfd : ℤ) (q : State)
      → items q ≡ items s.sbuf ++ connfd ∷ []
      → Served s
      → Served (record s { sbuf = q; accepted = s.accepted ++ connfd ∷ [] })
  accepted-Served s connfd q e c = record {
    echoes = c.echoes;
    all_echoed = c.all_echoed;
    weighed = λ weight. omega (
      arith,
      c.weighed weight,
      ap (sum weight) e,
      sum-append weight (items s.sbuf) (connfd ∷ []),
      sum-append weight s.accepted (connfd ∷ []),
    );
  }

  Step-Served : {s t : System C input} → Step C input s t → Served s → Served t
  unfolding sum
  Step-Served {s} (accept connfd q put e) c = rw e (accepted-Served s connfd q (items-insert put) c)
  Step-Served {s} (take k connfd q lt at_line got e) c = rw e (
      moved s k s.byte_cnt s.mutex q idle (serving connfd [] (input connfd)) s.closed lt at_line c
        refl c.all_echoed (λ weight. omega (arith, ap (sum weight) (items-remove got))))
  Step-Served {s} (read_line k connfd echoed buf rest lt at_line e) c = rw e (
      goes_on s k s.byte_cnt s.mutex _ (received connfd echoed buf rest) lt at_line c (λ h. h)
        (λ _. refl))
  Step-Served {s} (p_mutex k connfd echoed buf rest lt at_line free e) c =
      rw e (
        goes_on s k s.byte_cnt _ _ (locked connfd echoed buf rest) lt at_line c (λ h. h)
          (λ _. refl))
  Step-Served {s} (load k connfd echoed buf rest lt at_line e) c = rw e (
      goes_on s k s.byte_cnt s.mutex _ (loaded s.byte_cnt connfd echoed buf rest) lt at_line c
        (λ h. h) (λ _. refl))
  Step-Served {s} (store k value connfd echoed buf rest lt at_line fits e) c =
      rw e
        (goes_on s k _ s.mutex _ (counted connfd echoed buf rest) lt at_line c (λ h. h) (λ _. refl))
  Step-Served {s} (v_mutex k connfd echoed buf rest lt at_line e) c = rw e (
      goes_on s k s.byte_cnt _ _ (unlocked connfd echoed buf rest) lt at_line c (λ h. h)
        (λ _. refl))
  Step-Served {s} (write_line k connfd echoed buf rest lt at_line e) c = rw e (
      goes_on s k s.byte_cnt s.mutex _ (serving connfd (echoed ++ buf ∷ []) rest) lt at_line c
        (λ h. h ∙ sym (append_assoc echoed (buf ∷ []) rest)) (λ _. refl))
  Step-Served {s} (close k connfd echoed lt at_line e) c =
      let sent : input connfd ≡ echoed ++ [] = rw at_line at (c.echoes k lt) in
      rw e (
        moved s k s.byte_cnt s.mutex s.sbuf (serving connfd echoed []) idle
          (s.closed ++ (connfd, echoed) ∷ []) lt at_line c tt
          (AllEchoed-append s.closed connfd echoed c.all_echoed (sym (sent ∙ append-nil echoed)))
          (λ weight. omega (arith, sum-append (λ p. weight p.0) s.closed ((connfd, echoed) ∷ []))))

  Reach-Served : {s : System C input} → Reach C input s → Served s
  unfolding sum
  Reach-Served fresh = record {
    echoes = λ k lt. tt;
    all_echoed = tt;
    weighed = λ weight. omega (
      arith,
      ap (sum weight) items-created,
      sum_below-zero nthreads (λ k. carried weight idle) (λ k lt. refl),
    );
  }
  Reach-Served (next r st) = Step-Served st (Reach-Served r)

  -- In every state in which the buffer is empty and no thread has a connection, each connection has been
  -- closed as often as it was accepted, however connections are weighed; what was written to it is what its
  -- client has sent; and `byte_cnt` is the number of bytes that all clients have sent.
  pub Reach-all_served :
      {s : System C input}
      → Reach C input s
      → items s.sbuf ≡ []
      → ((k : ℕ) → k < nthreads → s.workers k ≡ idle)
      → (weight : ℤ → ℕ)
      → (sum weight s.accepted ≡ sum (λ p. weight p.0) s.closed)
        × AllEchoed s.closed
        × (s.byte_cnt ≡ sum (bytes C input) s.accepted)
  unfolding sum
  Reach-all_served {s} r empty all_idle weight =
      let c = Reach-Served r in
      let counts = Reach-Accounted C input r in
      (
        omega (
          arith,
          c.weighed weight,
          ap (sum weight) empty,
          sum_below-zero nthreads (λ k. carried weight (s.workers k))
              (λ k lt. ap (carried weight) (all_idle k lt)),
        ),
        c.all_echoed,
        omega (
          arith,
          counts.conserved,
          ap (sum (bytes C input)) empty,
          sum_below-zero nthreads (λ k. uncounted (s.workers k))
              (λ k lt. ap uncounted (all_idle k lt)),
        ),
      )
