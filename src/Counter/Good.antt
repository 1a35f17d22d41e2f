-- ===== src/Counter/Good.antt =====
-- goodcnt.c counts right under every schedule, and never gets stuck.
use computer_science.Prelude.{
  ℕ, ◌+◌, ◌≤◌, ◌≡◌, refl, arith, Bool, true, false, List, [], ◌∷◌, ltb, inl, inr, Bool-cases,
}
use computer_science.Counter.{
  Phase, ready, locked, loaded, stored, Thread, System, good_turn, advance, run, created,
}

-- Whether a thread stands between `P` and `V`.
abbrev pub inside : Phase → ℕ
inside ready = 0
inside locked = 1
inside (loaded value) = 1
inside stored = 1

-- The increments that a thread has made.
abbrev pub made : ℕ → Phase → ℕ
made i ready = i
made i locked = i
made i (loaded value) = i
made i stored = i + 1

-- What a thread has loaded is still the counter.
abbrev pub Current : ℕ → Phase → Type 0
Current cnt ready = Unit
Current cnt locked = Unit
Current cnt (loaded value) = value ≡ cnt
Current cnt stored = Unit

module _ (niters : ℕ) where
  pub record Counted (cnt mutex : ℕ) (s t : Thread) : Type 0 where
    pub one : mutex + inside s.phase + inside t.phase ≡ 1
    pub sum : cnt ≡ made s.ran s.phase + made t.ran t.phase
    pub left : Current cnt s.phase
    pub right : Current cnt t.phase
    pub s_within : s.ran + inside s.phase ≤ niters
    pub t_within : t.ran + inside t.phase ≤ niters

  swap-Counted : {cnt mutex : ℕ} {s t : Thread} → Counted cnt mutex s t → Counted cnt mutex t s
  swap-Counted c = record {
    one = omega (arith, c.one);
    sum = omega (arith, c.sum);
    left = c.right;
    right = c.left;
    s_within = c.t_within;
    t_within = c.s_within;
  }

  -- A thread that is not inside holds no value.
  outside-Current : (a b : ℕ) (p : Phase) → inside p ≡ 0 → Current b p
  outside-Current a b ready e = tt
  outside-Current a b locked e = tt
  outside-Current a b (loaded value) e = absurd (omega (arith, e))
  outside-Current a b stored e = tt

  turn-Counted :
      (cnt mutex i : ℕ) (p : Phase) (t : Thread)
      → Counted cnt mutex (record { ran = i; phase = p }) t
      → let (cnt', mutex', s') = good_turn niters cnt mutex i p in Counted cnt' mutex' s' t
  unfolding good_turn
  turn-Counted cnt mutex i ready t c = elim (Bool-cases (ltb i niters)) [
    | inl more ↦ elim (Bool-cases (ltb 0 mutex)) [
      | inl free ↦
          rw (more, free)
            (record {
              one = ground (arith, c.one);
              sum = c.sum;
              left = tt;
              right = c.right;
              s_within = ground arith;
              t_within = c.t_within;
            })
      | inr taken ↦ rw (more, taken) c
    ]
    | inr over ↦ rw over c
  ]
  turn-Counted cnt mutex i locked t c = record {
    one = c.one;
    sum = c.sum;
    left = refl;
    right = c.right;
    s_within = c.s_within;
    t_within = c.t_within;
  }
  turn-Counted cnt mutex i (loaded value) t c = record {
    one = c.one;
    sum = omega (arith, c.sum, c.left);
    left = tt;
    right = outside-Current cnt (value + 1) t.phase (omega (arith, c.one));
    s_within = c.s_within;
    t_within = c.t_within;
  }
  turn-Counted cnt mutex i stored t c = record {
    one = omega (arith, c.one);
    sum = c.sum;
    left = tt;
    right = c.right;
    s_within = omega (arith, c.s_within);
    t_within = c.t_within;
  }

  abbrev pub Sound : System → Type 0
  Sound s = Counted s.cnt s.mutex s.tid1 s.tid2

  pub advance-Sound : (who : Bool) (s : System) → Sound s → Sound (advance (good_turn niters) who s)
  advance-Sound true s c = turn-Counted s.cnt s.mutex s.tid1.ran s.tid1.phase s.tid2 c
  advance-Sound false s c =
      swap-Counted (turn-Counted s.cnt s.mutex s.tid2.ran s.tid2.phase s.tid1 (swap-Counted c))

  pub run-Sound : (ts : List Bool) (s : System) → Sound s → Sound (run (good_turn niters) ts s)
  unfolding run
  run-Sound [] s c = c
  run-Sound (who ∷ ts) s c = run-Sound ts (advance (good_turn niters) who s) (advance-Sound who s c)

  -- Both threads have left their loops.
  abbrev pub Finished : System → Type 0
  Finished s =
      (s.tid1 ≡ record { ran = niters; phase = ready })
      × (s.tid2 ≡ record { ran = niters; phase = ready })

  pub created-Sound : Sound created
  created-Sound = record {
    one = refl;
    sum = refl;
    left = tt;
    right = tt;
    s_within = omega arith;
    t_within = omega arith;
  }
