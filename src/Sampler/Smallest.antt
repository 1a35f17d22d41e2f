-- ===== src/Sampler/Smallest.antt =====
-- What the sampler keeps: the k smallest samples, in order.
use computer_science.Prelude.{
  ℕ, ◌+◌, ◌-◌, ◌≤◌, ◌<◌, ◌≡◌, ◌∙◌, refl, sym, ap, inl, inr, ◌⊎◌, arith, ◌==◌, ltb, if◌then◌else◌,
  Bool-cases, true, false, Returns,
}
use computer_science.Memory.{Memory, update}
use computer_science.Memory.Counts.{count, hit, count_add, count_agree, count-update}
use computer_science.Memory.Segments.{All-SameCounts}
use computer_science.Sort.Serial.{Ascending}
use computer_science.Sampler.{Sampler, insert_down, write_at, place_sample, add_sample}
use computer_science.Sampler.Bubble.{insert_down-Ascending, insert_down-SameCounts}

-- How many values there are.
abbrev pub kept : ℕ → ℕ → ℕ
kept k n = if ltb n k then n else k

-- `values` holds the k smallest of the first `n` samples, or all of them, ascending: what is kept was
-- sampled, as often at least, and what was sampled more often than it is kept is not less than any
-- value kept.
pub record Smallest (k n : ℕ) (values samples : Memory) : Type 0 where
  pub ascending : Ascending 0 (kept k n) values
  pub sampled : (v : ℕ) → count values 0 (kept k n) v ≤ count samples 0 n v
  pub least :
      (v : ℕ)
      → count values 0 (kept k n) v < count samples 0 n v
      → (k ≤ n) × ((i : ℕ) → 0 ≤ i → i < 0 + kept k n → values i ≤ v)

count_last : (m : Memory) (n v : ℕ) → count m 0 (n + 1) v ≡ count m 0 n v + hit (m n) v
unfolding count
count_last m n v = omega (arith, count_add m 0 n 1 v, ap (λ (x : ℕ). hit (m x) v) (zero_left n))
  where
    zero_left : (n : ℕ) → 0 + n ≡ n
    zero_left n = omega arith

-- A new sample at the end.
count_sampled :
    (samples : Memory) (n val v : ℕ)
    → count (update samples n val) 0 (n + 1) v ≡ count samples 0 n v + hit val v
count_sampled samples n val v =
    count_last (update samples n val) n v
    ∙ ground (arith, count_agree (update samples n val) samples 0 n v (λ q a b. ground arith))

kept_room : (k n : ℕ) → n < k → kept k n ≡ n
kept_room k n h = ground arith

kept_next : (k n : ℕ) → n < k → kept k (n + 1) ≡ n + 1
kept_next k n h = ground arith

kept_full : (k n : ℕ) → k ≤ n → kept k n ≡ k
kept_full k n h = ground arith

module _ (k n val : ℕ) (values samples : Memory) (s : Smallest k n values samples) where
  -- As long as there is room, all samples are kept.
  kept_all : n < k → (v : ℕ) → count values 0 n v ≡ count samples 0 n v
  kept_all room v =
      let le = rw (kept_room k n room) at (s.sampled v) in
      elim (Bool-cases (ltb (count values 0 n v) (count samples 0 n v))) [
        | inl less ↦
            absurd
              (omega (arith, room, (s.least v (rw (kept_room k n room) (ground (arith, less)))).0))
        | inr same ↦ ground (arith, same, le)
      ]

  append-Smallest :
      n < k → Smallest k (n + 1) (insert_down n (update values n val)) (update samples n val)
  append-Smallest room =
      let next = kept_next k n room in
      let all : (v : ℕ)
          → count (insert_down n (update values n val)) 0 (n + 1) v
            ≡ count (update samples n val) 0 (n + 1) v =
        λ v.
          sym (insert_down-SameCounts (n + 1) n (update values n val) (omega arith) v)
          ∙ count_sampled values n val v
          ∙ ap (λ (x : ℕ). x + hit val v) (kept_all room v)
          ∙ sym (count_sampled samples n val v) in
      record {
        ascending = rw next (
            insert_down-Ascending (n + 1) n (update values n val)
              λ i j a b ne. ground (arith, rw (kept_room k n room) at (s.ascending i j)));
        sampled = λ v. rw next (omega (arith, all v));
        least = λ v. rw next (λ less. absurd (omega (arith, all v, less)));
      }

  module _ (full : k ≤ n) (positive : 0 < k) where
    full_values :
        (v : ℕ) → count values 0 k v < count samples 0 n v → (i : ℕ) → i < k → values i ≤ v
    full_values v less i lt =
        (s.least v (rw (kept_full k n full) less)).1 i (omega arith)
          (rw (kept_full k n full) (omega arith))

    full-Ascending : Ascending 0 k values
    full-Ascending = rw (kept_full k n full) at (s.ascending)

    full_sampled : (v : ℕ) → count values 0 k v ≤ count samples 0 n v
    full_sampled v = rw (kept_full k n full) at (s.sampled v)

    le_last : (i : ℕ) → i < k → values i ≤ values (k - 1)
    le_last i lt = elim (Bool-cases (i == k - 1)) [
      | inl last ↦ ground (arith, last)
      | inr before ↦ full-Ascending i (k - 1) (omega arith) (ground (arith, before)) (omega arith)
    ]

    -- What a sample adds to those that are not kept.
    left_out :
        (v : ℕ)
        → count values 0 k v < count (update samples n val) 0 (n + 1) v
        → (i : ℕ) → i < k
        → (values i ≤ v) ⊎ (val ≡ v)
    left_out v less i lt = elim (Bool-cases (val == v)) [
      | inl new ↦ inr (ground (arith, new))
      | inr old ↦
          inl (full_values v (ground (arith, less, old, count_sampled samples n val v)) i lt)
    ]

    ignore-Smallest : values (k - 1) ≤ val → Smallest k (n + 1) values (update samples n val)
    ignore-Smallest le =
        let same = kept_full k (n + 1) (omega arith) in
        record {
          ascending = rw same full-Ascending;
          sampled = λ v. rw same (omega (arith, full_sampled v, count_sampled samples n val v));
          least = λ v. rw same (λ less. (
            omega arith,
            λ i a b. elim (left_out v less i (omega (arith, b))) [
              | inl low ↦ low
              | inr new ↦ omega (arith, new, le, le_last i (omega (arith, b)))
            ],
          ));
        }

    abbrev replaced : Memory
    replaced = update values (k - 1) val

    replaced-count :
        (v : ℕ)
        → count (insert_down (k - 1) replaced) 0 k v + hit (values (k - 1)) v
          ≡ count values 0 k v + hit val v
    replaced-count v = omega (
      arith,
      insert_down-SameCounts k (k - 1) replaced (omega arith) v,
      count-update values 0 k (k - 1) val v (omega arith) (omega arith),
    )

    replaced-le :
        (v : ℕ)
        → values (k - 1) ≤ v ⊎ ((i : ℕ) → i < k → values i ≤ v)
        → val < values (k - 1)
        → (i : ℕ) → 0 ≤ i
        → i < 0 + k
        → replaced i ≤ v
    replaced-le v (inl last) less i a b = ground (arith, le_last i (omega (arith, b)))
    replaced-le v (inr all) less i a b =
        ground (arith, all i (omega (arith, b)), all (k - 1) (omega arith))

    replaced_out :
        (v : ℕ)
        → count (insert_down (k - 1) replaced) 0 k v < count (update samples n val) 0 (n + 1) v
        → (values (k - 1) ≤ v) ⊎ ((i : ℕ) → i < k → values i ≤ v)
    replaced_out v less = elim (Bool-cases (values (k - 1) == v)) [
      | inl last ↦ inl (ground (arith, last))
      | inr other ↦ inr (
          full_values v
            (ground (arith, less, other, replaced-count v, count_sampled samples n val v)))
    ]

    replace-Smallest :
        val < values (k - 1)
        → Smallest k (n + 1) (insert_down (k - 1) replaced) (update samples n val)
    replace-Smallest less =
        let same = kept_full k (n + 1) (omega arith) in
        record {
          ascending = rw same (
              insert_down-Ascending k (k - 1) replaced
                λ i j a b ne. ground (arith, full-Ascending i j));
          sampled = λ v.
              rw same
                (omega (arith, replaced-count v, count_sampled samples n val v, full_sampled v));
          least = λ v. rw same (λ out. (
            omega arith,
            λ i a b.
                All-SameCounts (λ x. x ≤ v) 0 k replaced (insert_down (k - 1) replaced)
                  (insert_down-SameCounts k (k - 1) replaced (omega arith))
                  (replaced-le v (replaced_out v out) less) i a (omega (arith, b)),
          ));
        }

-- The sampler after its samples: arrays of the sizes that `init_sampler` gives them, the samples that
-- were measured, and the k smallest of them.
pub record IsSampler (k maxsamples : ℕ) (measure : ℕ → ℕ) (s : Sampler) : Type 0 where
  pub values_size : s.values_size ≡ k
  pub samples_size : s.samples_size ≡ maxsamples + k
  pub measured : (i : ℕ) → i < s.samplecount → s.samples i ≡ measure i
  pub smallest : Smallest k s.samplecount s.values s.samples

-- With room in `samples`, `add_sample` writes to no place outside its arrays; it records the sample and
-- keeps the k smallest samples in ascending order.
pub add_sample-IsSampler :
    (k maxsamples : ℕ) (measure : ℕ → ℕ) (s : Sampler)
    → 0 < k
    → s.samplecount < maxsamples + k
    → IsSampler k maxsamples measure s
    → Returns
        (λ s1. IsSampler k maxsamples measure s1 × (s1.samplecount ≡ s.samplecount + 1))
        (add_sample (measure s.samplecount) k s)
unfolding add_sample place_sample write_at insert_down
add_sample-IsSampler k maxsamples measure s positive room i =
    let val = measure s.samplecount in
    let fits : ltb s.samplecount s.samples_size ≡ true = ground (arith, i.samples_size) in
    let recorded : (j : ℕ)
        → j < s.samplecount + 1
        → update s.samples s.samplecount val j ≡ measure j =
      λ j lt. ground (arith, i.measured j) in
    elim (Bool-cases (ltb s.samplecount k)) [
      | inl more ↦
          let fits_value : ltb s.samplecount s.values_size ≡ true =
            ground (arith, i.values_size, more) in
          rw (more, fits_value, fits)
            (
              record {
                values_size = i.values_size;
                samples_size = i.samples_size;
                measured = recorded;
                smallest =
                    append-Smallest k s.samplecount val s.values s.samples i.smallest
                      (ground (arith, more));
              },
              refl,
            )
      | inr full ↦
          let some_values : (k == 0) ≡ false = ground arith in
          let enough : k ≤ s.samplecount = ground (arith, full) in
          elim (Bool-cases (ltb val (s.values (k - 1)))) [
            | inl less ↦
                let fits_value : ltb (k - 1) s.values_size ≡ true = ground (arith, i.values_size) in
                rw (full, some_values, less, fits_value, fits)
                  (
                    record {
                      values_size = i.values_size;
                      samples_size = i.samples_size;
                      measured = recorded;
                      smallest =
                          replace-Smallest k s.samplecount val s.values s.samples i.smallest enough
                            positive (ground (arith, less));
                    },
                    refl,
                  )
            | inr more ↦
                rw (full, some_values, more, fits)
                  (
                    record {
                      values_size = i.values_size;
                      samples_size = i.samples_size;
                      measured = recorded;
                      smallest =
                          ignore-Smallest k s.samplecount val s.values s.samples i.smallest enough
                            positive (ground (arith, more));
                    },
                    refl,
                  )
          ]
    ]
