-- ===== src/Sbuf/Queue.antt =====
-- The buffer as the bounded queue that its clients see.
use mathlib.Core.List.{append_cancel_left}
use computer_science.Prelude.{
  ℕ, zero, suc, ◌+◌, ◌-◌, ◌≤◌, ◌<◌, ◌≡◌, ◌∙◌, refl, sym, ap, arith, List, [], ◌∷◌, ◌++◌,
  append_assoc, length, length-append, ◌⊎◌, inl, inr,
}
use computer_science.Prelude.Int.{ℤ}
use computer_science.Sbuf.{
  System, Step, Reach, p_slots, p_mutex_insert, write, v_mutex_insert, v_items, p_items,
  p_mutex_remove, read, v_mutex_remove, v_slots, next,
}
use computer_science.Sbuf.Counts.{Reach-IsSafe}
use computer_science.Sbuf.Fifo.{window, Reach-Ordered}

-- What the buffer holds, oldest first.
unfoldable pub contents : System → List ℤ
contents s = window s.sp.n s.sp.buf s.sp.front (s.sp.rear - s.sp.front)

-- A queue of at most `n` items: nothing happens, or an item is put at its end, or its first is taken.
pub data QueueStep (n : ℕ) (xs ys : List ℤ) : Type 0 where
  idle : ys ≡ xs → QueueStep n xs ys
  enqueue : (x : ℤ) → length xs < n → ys ≡ xs ++ x ∷ [] → QueueStep n xs ys
  dequeue : (x : ℤ) → xs ≡ x ∷ ys → QueueStep n xs ys

length-window : (n : ℕ) (buf : ℕ → ℤ) (front len : ℕ) → length (window n buf front len) ≡ len
length-window n buf front zero = refl
length-window n buf front (suc len) = ap suc (length-window n buf (front + 1) len)

pub length-contents : {n : ℕ} {s : System} → Reach n s → length (contents s) ≤ n
unfolding contents
length-contents {n} {s} r =
    omega
      (arith, (Reach-IsSafe r).1, length-window s.sp.n s.sp.buf s.sp.front (s.sp.rear - s.sp.front))

-- What states hold that differ in their histories so.
pub contents-same :
    {n : ℕ} {s t : System}
    → Reach n s
    → Reach n t
    → t.inserted ≡ s.inserted
    → t.removed ≡ s.removed
    → contents t ≡ contents s
unfolding contents
contents-same {n} {s} {t} r q i d =
    append_cancel_left s.removed _ _
      (ap (λ (l : List ℤ). l ++ contents t) (sym d) ∙ sym (Reach-Ordered q) ∙ i ∙ Reach-Ordered r)

pub contents-insert :
    {n : ℕ} {s t : System} (x : ℤ)
    → Reach n s
    → Reach n t
    → t.inserted ≡ s.inserted ++ x ∷ []
    → t.removed ≡ s.removed
    → contents t ≡ contents s ++ x ∷ []
unfolding contents
contents-insert {n} {s} {t} x r q i d = append_cancel_left s.removed _ _ (
    ap (λ (l : List ℤ). l ++ contents t) (sym d)
    ∙ sym (Reach-Ordered q)
    ∙ i
    ∙ ap (λ (l : List ℤ). l ++ x ∷ []) (Reach-Ordered r)
    ∙ append_assoc s.removed (contents s) (x ∷ []))

pub contents-remove :
    {n : ℕ} {s t : System} (x : ℤ)
    → Reach n s
    → Reach n t
    → t.inserted ≡ s.inserted
    → t.removed ≡ s.removed ++ x ∷ []
    → contents s ≡ x ∷ contents t
unfolding contents
contents-remove {n} {s} {t} x r q i d = append_cancel_left s.removed _ _ (
    sym (Reach-Ordered r)
    ∙ sym i
    ∙ Reach-Ordered q
    ∙ ap (λ (l : List ℤ). l ++ contents t) d
    ∙ append_assoc s.removed (x ∷ []) (contents t))

-- The histories behind a step.
abbrev Histories : System → System → Type 0
Histories s t =
    ((t.inserted ≡ s.inserted) × (t.removed ≡ s.removed))
    ⊎ ((x : ℤ) × (t.inserted ≡ s.inserted ++ x ∷ []) × (t.removed ≡ s.removed))
    ⊎ ((x : ℤ) × (t.inserted ≡ s.inserted) × (t.removed ≡ s.removed ++ x ∷ []))

Step-Histories : {s t : System} → Step s t → Histories s t
Step-Histories (p_slots h e) = inl (ap System.inserted e, ap System.removed e)
Step-Histories (p_mutex_insert h k e) = inl (ap System.inserted e, ap System.removed e)
Step-Histories (write x sp h p e) = inr (inl (x, ap System.inserted e, ap System.removed e))
Step-Histories (v_mutex_insert h e) = inl (ap System.inserted e, ap System.removed e)
Step-Histories (v_items h e) = inl (ap System.inserted e, ap System.removed e)
Step-Histories (p_items h e) = inl (ap System.inserted e, ap System.removed e)
Step-Histories (p_mutex_remove h k e) = inl (ap System.inserted e, ap System.removed e)
Step-Histories (read x sp h p e) = inr (inr (x, ap System.inserted e, ap System.removed e))
Step-Histories (v_mutex_remove h e) = inl (ap System.inserted e, ap System.removed e)
Step-Histories (v_slots h e) = inl (ap System.inserted e, ap System.removed e)

-- In every state that threads can reach, a line of any thread leaves what the buffer holds as it is, puts
-- an item behind it, if it holds fewer than `n`, or takes its first item off: the buffer is a queue.
pub Step-QueueStep :
    {n : ℕ} {s t : System} → Reach n s → Step s t → QueueStep n (contents s) (contents t)
Step-QueueStep {n} {s} {t} r st =
    let q = next r st in
    elim (Step-Histories st) [
      | inl h ↦ idle (contents-same r q h.0 h.1)
      | inr (inl h) ↦
          let grown = contents-insert h.0 r q h.1 h.2 in
          enqueue h.0
            (omega
              (arith, length-contents q, ap length grown, length-append (contents s) (h.0 ∷ [])))
            grown
      | inr (inr h) ↦ dequeue h.0 (contents-remove h.0 r q h.1 h.2)
    ]
