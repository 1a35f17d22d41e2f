-- ===== src/Counter/Bad.antt =====
-- badcnt.c loses increments.
use computer_science.Prelude.{
  ℕ, zero, suc, ◌+◌, ◌≤◌, ◌<◌, ◌≡◌, ◌∙◌, refl, ap, arith, Bool, true, false, List, [], ◌∷◌, some,
}
use computer_science.Counter.{
  Phase, ready, loaded, Thread, System, bad_turn, advance, run, created, main_bad,
}

-- The counter that both threads increment in lockstep.
abbrev at : ℕ → System
at k = record {
  cnt = k;
  mutex = 1;
  tid1 = record { ran = k; phase = ready };
  tid2 = record { ran = k; phase = ready };
}

-- `n` times: both threads load, then both store.
abbrev pub lockstep : ℕ → List Bool
lockstep zero = []
lockstep (suc n) = true ∷ false ∷ true ∷ false ∷ lockstep n

-- The first thread has loaded the counter, and then the second has too.
abbrev one_loaded : ℕ → System
one_loaded k = record (at k) { tid1 = record { ran = k; phase = loaded k } }

abbrev both_loaded : ℕ → System
both_loaded k = record (one_loaded k) { tid2 = record { ran = k; phase = loaded k } }

bad_turn-ready :
    (niters k : ℕ)
    → k < niters
    → bad_turn niters k 1 k ready ≡ (k, 1, record { ran = k; phase = loaded k })
unfolding bad_turn
bad_turn-ready niters k h = ground arith

module _ (niters k : ℕ) (h : k < niters) where
  unfoldable turn : ℕ → ℕ → ℕ → Phase → ℕ × ℕ × Thread
  turn = bad_turn niters

  first_load : advance turn true (at k) ≡ one_loaded k
  unfolding turn
  first_load =
      ap (λ (v : ℕ × ℕ × Thread). record { cnt = v.0; mutex = v.1; tid1 = v.2; tid2 = (at k).tid2 })
        (bad_turn-ready niters k h)

  second_load : advance turn false (one_loaded k) ≡ both_loaded k
  unfolding turn
  second_load =
      ap
        (λ (v : ℕ × ℕ × Thread). record {
          cnt = v.0;
          mutex = v.1;
          tid1 = (one_loaded k).tid1;
          tid2 = v.2;
        })
        (bad_turn-ready niters k h)

  stores : advance turn false (advance turn true (both_loaded k)) ≡ at (k + 1)
  unfolding turn bad_turn
  stores = refl

  round-at :
      advance turn false (advance turn true (advance turn false (advance turn true (at k))))
      ≡ at (k + 1)
  round-at =
      ap (λ (s : System). advance turn false (advance turn true (advance turn false s))) first_load
      ∙ ap (λ (s : System). advance turn false (advance turn true s)) second_load
      ∙ stores

lockstep-at :
    (niters n k : ℕ) → k + n ≤ niters → run (bad_turn niters) (lockstep n) (at k) ≡ at (k + n)
unfolding run turn
lockstep-at niters zero k h = ap at (omega arith)
lockstep-at niters (suc n) k h =
    ap (run (bad_turn niters) (lockstep n)) (round-at niters k (omega arith))
    ∙ lockstep-at niters n (k + 1) (omega arith)
    ∙ ap at (omega arith)

-- For any number of iterations but zero there is a schedule on which both threads run all of them, and
-- badcnt.c prints BOOM, with half of the increments lost.
main_bad-lockstep :
    (niters : ℕ)
    → 0 < niters
    → (run (bad_turn niters) (lockstep niters) created ≡ record {
      cnt = niters;
      mutex = 1;
      tid1 = record { ran = niters; phase = ready };
      tid2 = record { ran = niters; phase = ready };
    })
      × (main_bad niters (lockstep niters) ≡ some false)
unfolding main_bad
main_bad-lockstep niters pos =
    let end : run (bad_turn niters) (lockstep niters) created ≡ at niters =
      lockstep-at niters niters 0 (omega arith) ∙ ap at (omega arith) in
    (end, rw end (ground arith))
