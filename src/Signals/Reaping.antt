-- ===== src/Signals/Reaping.antt =====
-- The parent returns only when every child has been reaped.
use computer_science.Prelude.{
  ℕ, ◌+◌, ◌-◌, ◌≤◌, ◌<◌, ◌≡◌, ◌⊎◌, refl, ap, arith, Bool, true, false, inl, inr,
}
use computer_science.Signals.{
  Parent, forking, testing, tested, pausing, returned, Handler, off, waiting, reaped, System,
  resumed, Step, fork, all_forked, test_end, spin, test_more, pause, die, interrupt, wait,
  wait_fails, count, Reach, fresh, next,
}

-- A child that is reaped and still counted
abbrev pub taken : Handler → ℕ
taken reaped = 1
taken h = 0

abbrev pub alarmed : Bool → ℕ
alarmed true = 1
alarmed false = 0

abbrev pub called : Handler → ℕ
called waiting = 1
called h = 0

-- What the parent knows of the number of forks and of the count
abbrev pub Knows : (n forks ccount : ℕ) → Parent → Type 0
Knows n forks ccount forking = forks ≤ n
Knows n forks ccount testing = forks ≡ n
Knows n forks ccount tested = forks ≡ n
Knows n forks ccount pausing = forks ≡ n
Knows n forks ccount returned = (forks ≡ n) × (ccount ≡ 0)

-- fork14 runs its handler no more often than children end; fork15 leaves none.
abbrev pub Heard : Bool → Bool → Handler → ℕ → Type 0
Heard false pending handler zombies = alarmed pending + called handler ≤ zombies
Heard true pending off zombies = (zombies ≡ 0) ⊎ (pending ≡ true)
Heard true pending handler zombies = Unit

pub record Reaping (loops : Bool) (n : ℕ) (s : System) : Type 0 where
  pub balance : s.ccount + s.forks ≡ n + s.running + s.zombies + taken s.handler
  pub knows : Knows n s.forks s.ccount s.parent
  pub heard : Heard loops s.pending s.handler s.zombies

Knows-le : (n forks ccount : ℕ) (p : Parent) → Knows n forks ccount p → forks ≤ n
Knows-le n forks ccount forking k = k
Knows-le n forks ccount testing k = omega (arith, k)
Knows-le n forks ccount tested k = omega (arith, k)
Knows-le n forks ccount pausing k = omega (arith, k)
Knows-le n forks ccount returned k = omega (arith, k.0)

Knows-resumed :
    (n forks ccount : ℕ) (p : Parent) → Knows n forks ccount p → Knows n forks ccount (resumed p)
Knows-resumed n forks ccount forking k = k
Knows-resumed n forks ccount testing k = k
Knows-resumed n forks ccount tested k = k
Knows-resumed n forks ccount pausing k = k
Knows-resumed n forks ccount returned k = k

-- A count that is not 0 can change.
Knows-count :
    (n forks ccount ccount2 : ℕ) (p : Parent)
    → 0 < ccount
    → Knows n forks ccount p
    → Knows n forks ccount2 p
Knows-count n forks ccount ccount2 forking more k = k
Knows-count n forks ccount ccount2 testing more k = k
Knows-count n forks ccount ccount2 tested more k = k
Knows-count n forks ccount ccount2 pausing more k = k
Knows-count n forks ccount ccount2 returned more (e, z) = absurd (omega (arith, more, z))

Heard-die :
    (loops pending : Bool) (h : Handler) (zombies : ℕ)
    → Heard loops pending h zombies
    → Heard loops true h (zombies + 1)
Heard-die false pending h zombies k = omega (arith, k)
Heard-die true pending off zombies k = inr refl
Heard-die true pending waiting zombies k = tt
Heard-die true pending reaped zombies k = tt

Heard-interrupt :
    (loops : Bool) (zombies : ℕ) → Heard loops true off zombies → Heard loops false waiting zombies
Heard-interrupt false zombies k = omega (arith, k)
Heard-interrupt true zombies k = tt

Heard-wait :
    (loops pending : Bool) (zombies : ℕ)
    → 0 < zombies
    → Heard loops pending waiting zombies
    → Heard loops pending reaped (zombies - 1)
Heard-wait false pending zombies more k = omega (arith, more, k)
Heard-wait true pending zombies more k = tt

Step-Reaping :
    {loops : Bool} {n : ℕ} {s t : System} → Step loops n s t → Reaping loops n s → Reaping loops n t
Step-Reaping {loops} {n} {s} (fork h p lt e) c = rw e (record {
  balance = omega (arith, c.balance);
  knows = rw p (omega (arith, lt));
  heard = c.heard;
})
Step-Reaping {loops} {n} {s} (all_forked h p all e) c =
    rw e (record { balance = c.balance; knows = all; heard = c.heard })
Step-Reaping {loops} {n} {s} (test_end h p zero_left e) c =
    rw e (record { balance = c.balance; knows = (rw p at c.knows, zero_left); heard = c.heard })
Step-Reaping {loops} {n} {s} (spin l h p more e) c = rw e c
Step-Reaping {loops} {n} {s} (test_more l h p more e) c =
    rw e (record { balance = c.balance; knows = rw p at c.knows; heard = c.heard })
Step-Reaping {loops} {n} {s} (pause h p e) c =
    rw e (record { balance = c.balance; knows = rw p at c.knows; heard = c.heard })
Step-Reaping {loops} {n} {s} (die more e) c = rw e (record {
  balance = omega (arith, c.balance, more);
  knows = c.knows;
  heard = Heard-die loops s.pending s.handler s.zombies c.heard;
})
Step-Reaping {loops} {n} {s} (interrupt h p e) c = rw e (record {
  balance = omega (arith, c.balance, ap taken h);
  knows = c.knows;
  heard = Heard-interrupt loops s.zombies (rw (h, p) at c.heard);
})
Step-Reaping {loops} {n} {s} (wait h more e) c = rw e (record {
  balance = omega (arith, c.balance, ap taken h, more);
  knows = c.knows;
  heard = Heard-wait loops s.pending s.zombies more (rw h at c.heard);
})
Step-Reaping {loops = false} {n} {s} (wait_fails h r z e) c =
    let signalled : alarmed s.pending + 1 ≤ s.zombies = rw h at c.heard in
    absurd (omega (arith, signalled, z))
Step-Reaping {loops = true} {n} {s} (wait_fails h r z e) c = rw e (record {
  balance = omega (arith, c.balance, ap taken h);
  knows = Knows-resumed n s.forks s.ccount s.parent c.knows;
  heard = inl z;
})
Step-Reaping {loops = false} {n} {s} (count h e) c =
    let more : 0 < s.ccount =
      omega (arith, c.balance, ap taken h, Knows-le n s.forks s.ccount s.parent c.knows) in
    rw e (record {
      balance = omega (arith, c.balance, ap taken h, more);
      knows =
          Knows-resumed n s.forks (s.ccount - 1) s.parent
            (Knows-count n s.forks s.ccount (s.ccount - 1) s.parent more c.knows);
      heard = rw h at c.heard;
    })
Step-Reaping {loops = true} {n} {s} (count h e) c =
    let more : 0 < s.ccount =
      omega (arith, c.balance, ap taken h, Knows-le n s.forks s.ccount s.parent c.knows) in
    rw e (record {
      balance = omega (arith, c.balance, ap taken h, more);
      knows = Knows-count n s.forks s.ccount (s.ccount - 1) s.parent more c.knows;
      heard = tt;
    })

pub Reach-Reaping : {loops : Bool} {n : ℕ} {s : System} → Reach loops n s → Reaping loops n s
Reach-Reaping {loops = false} fresh = record {
  balance = omega arith;
  knows = omega arith;
  heard = omega arith;
}
Reach-Reaping {loops = true} fresh = record {
  balance = omega arith;
  knows = omega arith;
  heard = inl refl;
}
Reach-Reaping (next r st) = Step-Reaping st (Reach-Reaping r)

-- In every interleaving, when fork14 or fork15 returns, it has forked all its children and reaped every one.
pub Reach-reaped :
    {loops : Bool} {n : ℕ} {s : System}
    → Reach loops n s
    → s.parent ≡ returned
    → (s.forks ≡ n) × (s.running ≡ 0) × (s.zombies ≡ 0)
Reach-reaped {loops} {n} {s} r p =
    let c = Reach-Reaping r in
    let known : Knows n s.forks s.ccount returned = rw p at c.knows in
    (
      known.0,
      omega (arith, c.balance, known.0, known.1),
      omega (arith, c.balance, known.0, known.1),
    )
