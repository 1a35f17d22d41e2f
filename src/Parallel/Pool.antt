-- ===== src/Parallel/Pool.antt =====
-- A pool of tasks that run in any order, and may add tasks to it.
use computer_science.Prelude.{
  ℕ, zero, suc, ◌≤◌, ◌<◌, ◌≡◌, arith, List, [], ◌∷◌, ◌++◌, Option, none, some, ◌>>=◌, Returns,
  Returns-bind, Returns-some,
}

module _ {ℓ} {T : Type ℓ} where
  -- The task at an index of the list `t ∷ ts`, or the last one, and the others.
  abbrev pub choose : ℕ → T → List T → T × List T
  choose zero t ts = (t, ts)
  choose (suc i) t [] = (t, [])
  choose (suc i) t (u ∷ us) = let (c, rest) = choose i u us in (c, t ∷ rest)

  -- Up to an empty pool: `pick` says which task runs when so many steps are left.
  unfoldable pub run_pool {κ} :
      {S : Type κ} → ℕ → (ℕ → ℕ) → (T → S → Option (S × List T)) → List T → S → Option S
  run_pool fuel pick exec [] s = some s
  run_pool zero pick exec (t ∷ ts) s = none
  run_pool (suc fuel) pick exec (t ∷ ts) s = exec (choose (pick fuel) t ts).0 s >>= λ (s', new).
      run_pool fuel pick exec (new ++ (choose (pick fuel) t ts).1) s'

  -- A pool ends in a state of the invariant, if choosing a task and running it keep the invariant, and
  -- running it makes the work less.
  pub run_pool-Returns {κ} :
      {S : Type κ} (I : List T → S → Type 0) (work : List T → ℕ)
      (exec : T → S → Option (S × List T))
      → ((i : ℕ) (t : T) (ts : List T) (s : S)
          → I (t ∷ ts) s
          → I ((choose i t ts).0 ∷ (choose i t ts).1) s)
      → ((i : ℕ) (t : T) (ts : List T)
          → work ((choose i t ts).0 ∷ (choose i t ts).1) ≡ work (t ∷ ts))
      → ((t : T) (ts : List T) (s : S)
          → I (t ∷ ts) s
          → Returns
              (λ out. I (out.1 ++ ts) out.0 × (work (out.1 ++ ts) < work (t ∷ ts)))
              (exec t s))
      → (fuel : ℕ) (pick : ℕ → ℕ) (ts : List T) (s : S) → work ts ≤ fuel
      → I ts s
      → Returns (I []) (run_pool fuel pick exec ts s)
  unfolding run_pool
  run_pool-Returns I work exec moved same step fuel pick [] s f inv = inv
  run_pool-Returns I work exec moved same step zero pick (t ∷ ts) s f inv =
      let (out, e, h) =
        Returns-some (λ out. I (out.1 ++ ts) out.0 × (work (out.1 ++ ts) < work (t ∷ ts)))
          (exec t s) (step t ts s inv) in
      absurd (omega (arith, h.1))
  run_pool-Returns I work exec moved same step (suc fuel) pick (t ∷ ts) s f inv =
      let c = (choose (pick fuel) t ts).0 in
      let rest = (choose (pick fuel) t ts).1 in
      Returns-bind (λ out. I (out.1 ++ rest) out.0 × (work (out.1 ++ rest) < work (c ∷ rest)))
        (I []) (exec c s) _ (step c rest s (moved (pick fuel) t ts s inv))
        λ out h.
          run_pool-Returns I work exec moved same step fuel pick (out.1 ++ rest) out.0
            (omega (arith, h.1, same (pick fuel) t ts)) h.0
