-- ===== src/Counter/Progress.antt =====
-- goodcnt.c never gets stuck: the semaphore is given back whenever it is taken.
use computer_science.Prelude.{
  ℕ, zero, suc, ◌+◌, ◌-◌, ◌*◌, ◌≤◌, ◌<◌, ◌≡◌, refl, ap, arith, Bool, true, false, List, [], ◌∷◌,
  ◌++◌, ltb, inl, inr, ◌⊎◌, Bool-cases,
}
use computer_science.Counter.{
  Phase, ready, locked, loaded, stored, Thread, System, good_turn, advance, run, created,
}
use computer_science.Counter.Good.{Sound, Finished, advance-Sound, run-Sound, created-Sound}

module _ (niters : ℕ) where
  -- How many steps a thread has before it.
  abbrev left : ℕ → Phase → ℕ
  left i ready = 4 * (niters - i)
  left i locked = 4 * (niters - i) - 1
  left i (loaded value) = 4 * (niters - i) - 2
  left i stored = 4 * (niters - i) - 3

  abbrev work : System → ℕ
  work s = left s.tid1.ran s.tid1.phase + left s.tid2.ran s.tid2.phase

  Onward : System → Type 0
  Onward s = Finished niters s ⊎ ((who : Bool) × (work (advance (good_turn niters) who s) < work s))

  abbrev system : ℕ → ℕ → ℕ → Phase → ℕ → Phase → System
  system cnt mutex i p j q = record {
    cnt = cnt;
    mutex = mutex;
    tid1 = record { ran = i; phase = p };
    tid2 = record { ran = j; phase = q };
  }

  enter-left :
      (cnt mutex i : ℕ)
      → i < niters
      → 0 < mutex
      → left (good_turn niters cnt mutex i ready).2.ran (good_turn niters cnt mutex i ready).2.phase
        < left i ready
  unfolding good_turn
  enter-left cnt mutex i h free = ground arith

  onward :
      (cnt mutex i : ℕ) (p : Phase) (j : ℕ) (q : Phase)
      → Sound niters (system cnt mutex i p j q)
      → Onward (system cnt mutex i p j q)
  unfolding good_turn Onward
  onward cnt mutex i locked j q c = inr (true, omega (arith, c.s_within))
  onward cnt mutex i (loaded value) j q c = inr (true, omega (arith, c.s_within))
  onward cnt mutex i stored j q c = inr (true, omega (arith, c.s_within))
  onward cnt mutex i ready j locked c = inr (false, omega (arith, c.t_within))
  onward cnt mutex i ready j (loaded value) c = inr (false, omega (arith, c.t_within))
  onward cnt mutex i ready j stored c = inr (false, omega (arith, c.t_within))
  onward cnt mutex i ready j ready c = elim (Bool-cases (ltb i niters)) [
    | inl more ↦
        inr (true, omega (arith, enter-left cnt mutex i (ground arith) (omega (arith, c.one))))
    | inr over ↦ elim (Bool-cases (ltb j niters)) [
      | inl more ↦
          inr (false, omega (arith, enter-left cnt mutex j (ground arith) (omega (arith, c.one))))
      | inr done ↦ inl (
        ap (λ (k : ℕ). record { ran = k; phase = ready }) (ground (arith, c.s_within)),
        ap (λ (k : ℕ). record { ran = k; phase = ready }) (ground (arith, c.t_within)),
      )
    ]
  ]

  finish :
      (fuel : ℕ) (s : System)
      → Sound niters s
      → work s ≤ fuel
      → (ts : List Bool) × Finished niters (run (good_turn niters) ts s)
  unfolding run Onward
  finish zero s c f =
      elim (onward s.cnt s.mutex s.tid1.ran s.tid1.phase s.tid2.ran s.tid2.phase c) [
        | inl done ↦ ([], done)
        | inr (who, less) ↦ absurd (omega (arith, less))
      ]
  finish (suc fuel) s c f =
      elim (onward s.cnt s.mutex s.tid1.ran s.tid1.phase s.tid2.ran s.tid2.phase c) [
        | inl done ↦ ([], done)
        | inr (who, less) ↦
            let (ts, end) =
              finish fuel (advance (good_turn niters) who s) (advance-Sound niters who s c)
                (omega (arith, less)) in
            (who ∷ ts, end)
      ]

run-append :
    (turn : ℕ → ℕ → ℕ → Phase → ℕ × ℕ × Thread) (ts us : List Bool) (s : System)
    → run turn (ts ++ us) s ≡ run turn us (run turn ts s)
unfolding run
run-append turn [] us s = refl
run-append turn (who ∷ ts) us s = run-append turn ts us (advance turn who s)

-- However the threads of goodcnt.c have been scheduled so far, there is a continuation of the schedule
-- with which both leave their loops: they are never in deadlock.
pub run-Finished :
    (niters : ℕ) (schedule : List Bool)
    → (more : List Bool) × Finished niters (run (good_turn niters) (schedule ++ more) created)
run-Finished niters schedule =
    let s = run (good_turn niters) schedule created in
    let (more, end) =
      finish niters (work niters s) s (run-Sound niters schedule created (created-Sound niters))
        (omega arith) in
    (more, rw (run-append (good_turn niters) schedule more created) end)
