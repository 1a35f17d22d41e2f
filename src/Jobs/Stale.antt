-- ===== src/Jobs/Stale.antt =====
-- procmask1.c can delete every job before it is added.
use computer_science.Prelude.{
  ℕ, zero, suc, ◌≡◌, ◌≢◌, refl, sym, ap, arith, false, List, [], ◌∷◌, ◌==◌, inl, inr, Bool-cases,
}
use mathlib.Core.Path.{subst}
use computer_science.Jobs.{
  Child, unborn, running, zombie, reaped, ready, off, JobCall, addjob, deletejob, System, set, fork,
  mask, add, unmask, die, interrupt, reap, guard, delete, unguard, resume, Reach, fresh, next,
}

-- The calls for `n` children, the newest first: each job is deleted, and then added.
abbrev pub stale : ℕ → List JobCall
stale zero = []
stale (suc n) = addjob n ∷ deletejob n ∷ stale n

-- Between two rounds, with `n` children behind them
abbrev quiet : ℕ → (ℕ → Child) → List JobCall → System
quiet n children calls = record {
  forks = n;
  children = children;
  blocked = false;
  pending = false;
  round = ready;
  handler = off;
  calls = calls;
}

abbrev Ended : Child → Type 0
Ended c = (c ≢ running) × (c ≢ zombie)

IsLive : Child → Type 0
IsLive running = Unit
IsLive zombie = Unit
IsLive c = ⊥

set_here : (children : ℕ → Child) (n : ℕ) (c : Child) → set children n c n ≡ c
set_here children n c = ground arith

reaped-Ended : Ended reaped
unfolding IsLive
reaped-Ended = (λ e. subst IsLive (sym e) tt, λ e. subst IsLive (sym e) tt)

-- A child that comes, ends and is reaped before `main` goes on
abbrev behind : (ℕ → Child) → ℕ → ℕ → Child
behind children n = set (set (set children n running) n zombie) n reaped

behind-Ended :
    (children : ℕ → Child) (n : ℕ)
    → ((k : ℕ) → Ended (children k))
    → (k : ℕ) → Ended (behind children n k)
behind-Ended children n all k = elim (Bool-cases (n == k)) [
  | inl same ↦ rw same reaped-Ended
  | inr other ↦ rw other (all k)
]

stale-round :
    (n : ℕ) (children : ℕ → Child) (calls : List JobCall)
    → ((k : ℕ) → Ended (children k))
    → Reach false (quiet n children calls)
    → Reach false (quiet (suc n) (behind children n) (addjob n ∷ deletejob n ∷ calls))
stale-round n children calls all r =
    let r1 = next r (fork refl refl refl) in
    let r2 = next r1 (die n (set_here children n running) refl) in
    let r3 = next r2 (interrupt refl refl refl refl) in
    let r4 = next r3 (reap n refl (set_here (set children n running) n zombie) refl) in
    let r5 = next r4 (guard n refl refl) in
    let r6 = next r5 (delete n refl refl) in
    let r7 = next r6 (unguard n refl refl) in
    let r8 = next r7 (resume refl (behind-Ended children n all) refl) in
    let r9 = next r8 (mask n refl refl refl) in
    let r10 = next r9 (add n refl refl refl) in
    next r10 (
      unmask n refl refl (
        ap (λ (m : ℕ). quiet m (behind children n) (addjob n ∷ deletejob n ∷ calls)) (omega arith)))

unborn-Ended : Ended unborn
unfolding IsLive
unborn-Ended = (λ e. subst IsLive (sym e) tt, λ e. subst IsLive (sym e) tt)

stale_rounds :
    (n : ℕ)
    → (children : ℕ → Child) × ((k : ℕ) → Ended (children k))
      × Reach false (quiet n children (stale n))
stale_rounds zero = (λ k. unborn, λ k. unborn-Ended, fresh)
stale_rounds (suc n) =
    let (children, all, r) = stale_rounds n in
    (behind children n, behind-Ended children n all, stale-round n children (stale n) all r)

-- For every number `n`, procmask1.c can run so that each of its first `n` children is deleted from the job
-- list before it is added, and all of them stay in it.
Reach-stale : (n : ℕ) → (s : System) × Reach false s × (s.forks ≡ n) × (s.calls ≡ stale n)
Reach-stale n =
    let (children, all, r) = stale_rounds n in (quiet n children (stale n), r, refl, refl)
