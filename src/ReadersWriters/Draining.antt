-- ===== src/ReadersWriters/Draining.antt =====
-- The threads of rw1.c do not block each other for good.
use computer_science.Prelude.{
  ℕ, zero, suc, ◌+◌, ◌*◌, ◌≤◌, ◌<◌, ◌≡◌, refl, arith, ltb, Bool-cases, inl, inr,
}
use mathlib.Core.Path.{subst}
use computer_science.ReadersWriters.{
  System, Step, readcnt_in, p_w_reader, v_mutex_in, p_mutex_out, readcnt_out, v_w_reader,
  v_mutex_out, v_w_writer, count_in, count_out, unlocked, Steps, stay, then_step,
}
use computer_science.ReadersWriters.Exclusion.{Balanced, Step-Balanced, Steps-Balanced}

-- More lines than all threads inside have to run.
abbrev work : System → ℕ
work s =
    9 * s.counting_in
    + 8 * s.first_in
    + 7 * s.opening
    + 6 * s.reading
    + 5 * s.counting_out
    + 3 * s.last_out
    + 2 * s.closing
    + s.writing

abbrev Advance : System → Type 0
Advance s = (t : System) × Step s t × (work t < work s)

advance : (s : System) → Balanced s → 0 < work s → Advance s
unfolding count_in count_out
advance s b busy = elim (Bool-cases (ltb 0 s.counting_in)) [
  | inl h ↦ (_, readcnt_in (ground (arith, h)) refl, ground (arith, h))
  | inr no_in ↦ elim (Bool-cases (ltb 0 s.opening)) [
    | inl h ↦ (_, v_mutex_in (ground (arith, h)) refl, ground (arith, h))
    | inr no_opening ↦ elim (Bool-cases (ltb 0 s.counting_out)) [
      | inl h ↦ (_, readcnt_out (ground (arith, h)) refl, ground (arith, h))
      | inr no_out ↦ elim (Bool-cases (ltb 0 s.last_out)) [
        | inl h ↦ (_, v_w_reader (ground (arith, h)) refl, ground (arith, h))
        | inr no_last ↦ elim (Bool-cases (ltb 0 s.closing)) [
          | inl h ↦ (_, v_mutex_out (ground (arith, h)) refl, ground (arith, h))
          | inr no_closing ↦ elim (Bool-cases (ltb 0 s.writing)) [
            | inl h ↦ (_, v_w_writer (ground (arith, h)) refl, ground (arith, h))
            | inr no_writing ↦ elim (Bool-cases (ltb 0 s.first_in)) [
              | inl h ↦ (
                _,
                p_w_reader (ground (arith, h)) (ground (arith, h, no_last, no_writing, b.one_group))
                    refl,
                ground (arith, h),
              )
              | inr no_first ↦ (
                _,
                p_mutex_out (ground arith) (ground (arith, b.one_in_mutex)) refl,
                ground arith,
              )
            ]
          ]
        ]
      ]
    ]
  ]
]

-- Nobody inside, and the semaphores as at first.
idle : (s : System) → Balanced s → work s ≡ 0 → s ≡ unlocked
idle s b e = ground arith

first_step : {s t u : System} → Step s t → Steps t u → Steps s u
first_step st stay = then_step stay st
first_step st (then_step r last) = then_step (first_step st r) last

drain : (n : ℕ) (s : System) → Balanced s → work s ≤ n → Steps s unlocked
drain zero s b le = subst (Steps s) (idle s b (omega (arith, le))) stay
drain (suc n) s b le = elim (Bool-cases (ltb 0 (work s))) [
  | inl busy ↦
      let (t, st, less) = advance s b (ground (arith, busy)) in
      first_step st (drain n t (Step-Balanced st b) (omega (arith, le, less)))
  | inr done ↦ subst (Steps s) (idle s b (ground (arith, done))) stay
]

-- From every reachable state of any number of readers and writers some steps lead back to the state in
-- which nobody is inside and the semaphores and `readcnt` are as at first: there is no deadlock.
pub Steps-drains : (s : System) → Steps unlocked s → Steps s unlocked
Steps-drains s r = drain (work s) s (Steps-Balanced r) (omega arith)
