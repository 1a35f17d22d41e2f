-- ===== src/Sbuf/Fifo.antt =====
-- The buffer hands its items on in the order in which they were written, and loses none.
use native.Mathlib.Nat.{div-add-mod}
use computer_science.Prelude.{
  ℕ, zero, suc, ◌+◌, ◌-◌, ◌%◌, ◌≤◌, ◌<◌, ◌≡◌, ◌≢◌, ◌∙◌, sym, refl, ap, ap₂, arith, List, [], ◌∷◌,
  ◌++◌, append_assoc, none, some,
}
use computer_science.Prelude.Int.{ℤ}
use computer_science.Sbuf.{
  Sbuf, System, Step, Reach, update, p_slots, p_mutex_insert, write, v_mutex_insert, v_items,
  p_items, p_mutex_remove, read, v_mutex_remove, v_slots, fresh, next, put_item, take_item,
  sbuf_init, int_max,
}
use computer_science.Sbuf.Counts.{Counted, Reach-Counted}

module _ (n : ℕ) where
  -- The `len` items behind index `front`, going round at `n`.
  abbrev pub window : (ℕ → ℤ) → ℕ → ℕ → List ℤ
  window buf front zero = []
  window buf front (suc len) = buf ((front + 1) % n) ∷ window buf (front + 1) len

  -- Indices less than `n` apart are different slots.
  apart : (a b : ℕ) → a < b → b < a + n → a % n ≡ b % n → ⊥
  apart a b h k e = grind (arith, div-add-mod a n, div-add-mod b n)

  -- A write just behind a window that leaves a slot free extends it.
  window-update :
      (buf : ℕ → ℤ) (front len i : ℕ) (x : ℤ)
      → len < n
      → i ≡ (front + len + 1) % n
      → window (update buf i x) front (suc len) ≡ window buf front len ++ x ∷ []
  window-update buf front zero i x h e =
      let here : (front + 1) % n ≡ i = ap (λ (k : ℕ). k % n) (omega arith) ∙ sym e in ground arith
  window-update buf front (suc len) i x h e =
      let away : i ≢ (front + 1) % n = λ same.
        apart (front + 1) (front + suc len + 1) (omega arith) (omega arith) (sym same ∙ e) in
      let rest =
        window-update buf (front + 1) len i x (omega arith)
          (e ∙ ap (λ (k : ℕ). k % n) (omega arith)) in
      ap₂ ◌∷◌ (ground arith) rest

-- What was written is what was read, then what the buffer holds, in order.
abbrev pub Ordered : System → Type 0
Ordered s = s.inserted ≡ s.removed ++ window s.sp.n s.sp.buf s.sp.front (s.sp.rear - s.sp.front)

write-Ordered :
    {n : ℕ} {s : System} (item : ℤ)
    → Counted n s
    → 0 < s.th.writing
    → Ordered s
    → s.inserted ++ item ∷ []
      ≡ s.removed
        ++ window s.sp.n
            (update s.sp.buf ((s.sp.rear + 1) % s.sp.n) item)
            s.sp.front
            (s.sp.rear + 1 - s.sp.front)
write-Ordered {n} {s} item c h o =
    let len = s.sp.rear - s.sp.front in
    let size : s.sp.rear + 1 - s.sp.front ≡ suc len = omega arith in
    let grown =
      window-update s.sp.n s.sp.buf s.sp.front len ((s.sp.rear + 1) % s.sp.n) item (omega arith)
        (ap (λ (k : ℕ). k % s.sp.n) (omega arith)) in
    rw (size, grown, o) (append_assoc s.removed (window s.sp.n s.sp.buf s.sp.front len) (item ∷ []))

read-Ordered :
    {n : ℕ} {s : System}
    → Counted n s
    → 0 < s.th.reading
    → Ordered s
    → s.inserted
      ≡ (s.removed ++ s.sp.buf ((s.sp.front + 1) % s.sp.n) ∷ [])
        ++ window s.sp.n s.sp.buf (s.sp.front + 1) (s.sp.rear - (s.sp.front + 1))
read-Ordered {n} {s} c h o =
    let size : s.sp.rear - s.sp.front ≡ suc (s.sp.rear - (s.sp.front + 1)) = omega arith in
    o ∙ rw size (sym (append_assoc s.removed _ _))

put_item-some :
    (x : ℤ) (sp sp' : Sbuf)
    → put_item x sp ≡ some sp'
    → sp' ≡ record sp { rear = sp.rear + 1; buf = update sp.buf ((sp.rear + 1) % sp.n) x }
unfolding put_item
put_item-some x sp sp' e = ground arith

take_item-some :
    (sp : Sbuf) (x : ℤ) (sp' : Sbuf)
    → take_item sp ≡ some (x, sp')
    → (x ≡ sp.buf ((sp.front + 1) % sp.n)) × (sp' ≡ record sp { front = sp.front + 1 })
unfolding take_item
take_item-some sp x sp' e = ground arith

Step-Ordered : {n : ℕ} {s t : System} → Step s t → Counted n s → Ordered s → Ordered t
Step-Ordered (p_slots h e) c o = rw e o
Step-Ordered (p_mutex_insert h k e) c o = rw e o
Step-Ordered {n} {s} (write x sp h p e) c o =
    rw (e, put_item-some x s.sp sp p) (write-Ordered x c h o)
Step-Ordered (v_mutex_insert h e) c o = rw e o
Step-Ordered (v_items h e) c o = rw e o
Step-Ordered (p_items h e) c o = rw e o
Step-Ordered (p_mutex_remove h k e) c o = rw e o
Step-Ordered {n} {s} (read x sp h p e) c o =
    let (item, after) = take_item-some s.sp x sp p in rw (e, after, item) (read-Ordered c h o)
Step-Ordered (v_mutex_remove h e) c o = rw e o
Step-Ordered (v_slots h e) c o = rw e o

-- In every state that threads can reach, the items written so far are the items read so far, in the
-- same order, followed by those that the buffer holds: nothing is lost, repeated or overtaken.
pub Reach-Ordered : {n : ℕ} {s : System} → Reach n s → Ordered s
unfolding sbuf_init
Reach-Ordered fresh = refl
Reach-Ordered (next r st) = Step-Ordered st (Reach-Counted r) (Reach-Ordered r)

-- The indices only grow: with `rear` at the largest `int` no insertion is defined, in any state,
-- however many items have been removed; with `front` there, no removal.
pub item-overflow :
    (x : ℤ) (sp : Sbuf)
    → (int_max ≤ sp.rear → put_item x sp ≡ none) × (int_max ≤ sp.front → take_item sp ≡ none)
unfolding put_item take_item
item-overflow x sp = ground arith
