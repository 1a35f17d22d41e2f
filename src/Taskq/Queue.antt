-- ===== src/Taskq/Queue.antt =====
-- The linked queue implements the list of the threads that wait to be joined.
use computer_science.Prelude.{
  ℕ, true, false, ◌+◌, ◌≤◌, ◌≡◌, ◌≢◌, ◌∙◌, refl, ap, sym, arith, List, [], ◌∷◌, ◌++◌, Option, none,
  some, ◌==◌, ltb, if◌then◌else◌, length, length-append, Returns,
}
use computer_science.Taskq.{
  Element, TaskQueue, Heap, put, new_task_queue, spawn_task, Pass, returns, joins, join_pass,
}
use mathlib.Core.Path.{subst}

-- The address is none of these.
abbrev pub Distinct : ℕ → List ℕ → Type 0
Distinct a [] = Unit
Distinct a (q ∷ qs) = (a ≢ q) × Distinct a qs

-- From `p` to NULL stand the elements at `at` with the threads `tids`, the last one at `last`.
abbrev pub Linked : Heap → ℕ → ℕ → List ℕ → List ℕ → Type 0
Linked h p last [] [] = (p ≡ 0) × (last ≡ 0)
Linked h p last (q ∷ []) (t ∷ []) =
    (p ≡ q) × (last ≡ q) × (q ≢ 0) × (h q ≡ some (record { tid = t; next = 0 }))
Linked h p last (q ∷ r ∷ at) (t ∷ u ∷ ts) =
    (next : ℕ) × (p ≡ q)
    × (q ≢ 0)
    × (h q ≡ some (record { tid = t; next = next }))
    × Distinct q (r ∷ at)
    × Linked h next last (r ∷ at) (u ∷ ts)
Linked h p last at ts = ⊥

-- The queue holds the threads `tids`, and has held at most `max_tasks` at once.
pub record Represents (h : Heap) (at tids : List ℕ) (max_tasks : ℕ) (tq : TaskQueue) : Type 0 where
  pub linked : Linked h tq.head tq.tail at tids
  pub counted : tq.active_count ≡ length tids
  pub high : tq.max_active_count ≡ max_tasks
  pub within : length tids ≤ max_tasks

pub new_task_queue-Represents : (h : Heap) → Represents h [] [] 0 new_task_queue
unfolding new_task_queue
new_task_queue-Represents h = record {
  linked = (refl, refl);
  counted = refl;
  high = refl;
  within = omega arith;
}

-- A write elsewhere leaves the list.
Linked-put :
    (h : Heap) (p last : ℕ) (at ts : List ℕ) (a : ℕ) (c : Option Element)
    → Distinct a at
    → Linked h p last at ts
    → Linked (put h a c) p last at ts
Linked-put h p last [] [] a c d l = l
Linked-put h p last [] (t ∷ ts) a c d l = absurd l
Linked-put h p last (q ∷ []) [] a c d l = absurd l
Linked-put h p last (q ∷ []) (t ∷ []) a c d (here, end, real, node) =
    (here, end, real, ground arith)
Linked-put h p last (q ∷ []) (t ∷ u ∷ ts) a c d l = absurd l
Linked-put h p last (q ∷ r ∷ at) [] a c d l = absurd l
Linked-put h p last (q ∷ r ∷ at) (t ∷ []) a c d l = absurd l
Linked-put h p last (q ∷ r ∷ at) (t ∷ u ∷ ts) a c d (next, here, real, node, once, rest) =
    (next, here, real, ground arith, once, Linked-put h next last (r ∷ at) (u ∷ ts) a c d.1 rest)

Distinct-append : (a : ℕ) (qs : List ℕ) (b : ℕ) → Distinct a qs → a ≢ b → Distinct a (qs ++ b ∷ [])
Distinct-append a [] b d ne = (ne, tt)
Distinct-append a (q ∷ qs) b d ne = (d.0, Distinct-append a qs b d.1 ne)

-- The last element is an element, and is not NULL.
Linked-last :
    (h : Heap) (p last q : ℕ) (at : List ℕ) (t : ℕ) (ts : List ℕ)
    → Linked h p last (q ∷ at) (t ∷ ts)
    → (e : Element) × (last ≢ 0) × (h last ≡ some e)
Linked-last h p last q [] t [] (here, end, real, node) =
    (record { tid = t; next = 0 }, λ z. real (sym end ∙ z), ap h end ∙ node)
Linked-last h p last q [] t (u ∷ ts) l = absurd l
Linked-last h p last q (r ∷ at) t [] l = absurd l
Linked-last h p last q (r ∷ at) t (u ∷ ts) (next, here, real, node, once, rest) =
    Linked-last h next last r at u ts rest

Distinct-last :
    (h : Heap) (p last a q : ℕ) (at : List ℕ) (t : ℕ) (ts : List ℕ)
    → Linked h p last (q ∷ at) (t ∷ ts)
    → Distinct a (q ∷ at)
    → a ≢ last
Distinct-last h p last a q [] t [] (here, end, real, node) d = λ e. d.0 (e ∙ end)
Distinct-last h p last a q [] t (u ∷ ts) l d = absurd l
Distinct-last h p last a q (r ∷ at) t [] l d = absurd l
Distinct-last h p last a q (r ∷ at) t (u ∷ ts) (next, here, real, node, once, rest) d =
    Distinct-last h next last a r at u ts rest d.1

-- `tq->tail->next = ele`
Linked-append :
    (h : Heap) (p last ele tid q : ℕ) (at : List ℕ) (t : ℕ) (ts : List ℕ) (e : Element)
    → ele ≢ 0
    → h ele ≡ some (record { tid = tid; next = 0 })
    → Distinct ele (q ∷ at)
    → h last ≡ some e
    → Linked h p last (q ∷ at) (t ∷ ts)
    → Linked
        (put h last (some (record e { next = ele })))
        p
        ele
        ((q ∷ at) ++ ele ∷ [])
        ((t ∷ ts) ++ tid ∷ [])
Linked-append h p last ele tid q [] t [] e real new d node (here, end, q_real, at_q) = (
  ele,
  here,
  q_real,
  ground (arith, end, node, at_q, ap h end),
  (λ same. d.0 (sym same), tt),
  (refl, refl, real, ground (arith, new, end, d.0)),
)
Linked-append h p last ele tid q [] t (u ∷ ts) e real new d node l = absurd l
Linked-append h p last ele tid q (r ∷ at) t [] e real new d node l = absurd l
Linked-append h p last ele tid q (r ∷ at) t (u ∷ ts) e real new d node
      (next, here, q_real, at_q, once, rest) =
    let other = Distinct-last h next last q r at u ts rest once in
    (
      next,
      here,
      q_real,
      ground (arith, at_q, other),
      Distinct-append q (r ∷ at) ele once (λ same. d.0 (sym same)),
      Linked-append h next last ele tid r at u ts e real new d.1 node rest,
    )

-- `spawn_task`, at an address that is not NULL and not of the queue, puts the new thread at the end of
-- the list that the queue represents, and keeps the largest length that the list has had.
pub spawn_task-Represents :
    (ele tid : ℕ) (h : Heap) (at tids : List ℕ) (max_tasks : ℕ) (tq : TaskQueue)
    → ele ≢ 0
    → Distinct ele at
    → Represents h at tids max_tasks tq
    → Returns
        (λ out.
          Represents out.1
            (at ++ ele ∷ [])
            (tids ++ tid ∷ [])
            (if ltb max_tasks (length tids + 1) then length tids + 1 else max_tasks)
            out.0)
        (spawn_task ele tid tq h)
unfolding spawn_task
spawn_task-Represents ele tid h [] [] max_tasks tq real d r =
    let empty : (tq.tail == 0) ≡ true = ground (arith, r.linked.1) in
    rw empty (record {
      linked = (refl, refl, real, ground arith);
      counted = omega (arith, r.counted);
      high = ground (arith, r.high, r.counted);
      within = ground (arith, r.within);
    })
spawn_task-Represents ele tid h [] (t ∷ tids) max_tasks tq real d r = absurd r.linked
spawn_task-Represents ele tid h (q ∷ []) [] max_tasks tq real d r = absurd r.linked
spawn_task-Represents ele tid h (q ∷ r2 ∷ at) [] max_tasks tq real d r = absurd r.linked
spawn_task-Represents ele tid h (q ∷ at) (t ∷ tids) max_tasks tq real d r =
    let h1 = put h ele (some (record { tid = tid; next = 0 })) in
    let linked1 = Linked-put h tq.head tq.tail (q ∷ at) (t ∷ tids) ele _ d r.linked in
    let (e, tail_real, node) = Linked-last h1 tq.head tq.tail q at t tids linked1 in
    let some_tail : (tq.tail == 0) ≡ false = ground (arith, tail_real) in
    rw (some_tail, node)
      (record {
        linked =
            Linked-append h1 tq.head tq.tail ele tid q at t tids e real (ground arith) d node
              linked1;
        counted = omega (arith, r.counted, length-append (t ∷ tids) (tid ∷ []));
        high = ground (arith, r.high, r.counted);
        within = ground (arith, r.within, length-append (t ∷ tids) (tid ∷ []));
      })

-- What a pass does: with no thread in the list it returns the largest length that the list has had,
-- otherwise it joins the first thread and takes it off.
abbrev pub Takes : Heap → List ℕ → List ℕ → ℕ → Pass × TaskQueue × Heap → Type 0
Takes h at [] max_tasks (pass, tq, h') =
    (pass ≡ returns max_tasks) × Represents h' at [] max_tasks tq
Takes h at (t ∷ tids) max_tasks (pass, tq, h') =
    (pass ≡ joins t) × ((at' : List ℕ) × Represents h' at' tids max_tasks tq)

-- A pass of `join_tasks` on a queue that represents a list returns the largest length that the list
-- has had, if it is empty; otherwise it joins the first thread, and the queue represents the others.
join_pass-Takes :
    (h : Heap) (at tids : List ℕ) (max_tasks : ℕ) (tq : TaskQueue)
    → Represents h at tids max_tasks tq
    → Returns (Takes h at tids max_tasks) (join_pass tq h)
unfolding join_pass
join_pass-Takes h [] [] max_tasks tq r =
    let empty : (tq.head == 0) ≡ true = ground (arith, r.linked.0) in
    rw empty (ap returns r.high, r)
join_pass-Takes h [] (t ∷ tids) max_tasks tq r = absurd r.linked
join_pass-Takes h (q ∷ []) [] max_tasks tq r = absurd r.linked
join_pass-Takes h (q ∷ r2 ∷ at) [] max_tasks tq r = absurd r.linked
join_pass-Takes h (q ∷ []) (t ∷ u ∷ tids) max_tasks tq r = absurd r.linked
join_pass-Takes h (q ∷ r2 ∷ at) (t ∷ []) max_tasks tq r = absurd r.linked
join_pass-Takes h (q ∷ []) (t ∷ []) max_tasks tq r =
    let (here, end, real, node) = r.linked in
    let some_head : (tq.head == 0) ≡ false = ground (arith, here, real) in
    let both : (tq.head == tq.tail) ≡ true = ground (arith, here, end) in
    rw (some_head, ap h here ∙ node)
      (
        refl,
        (
          [],
          record {
            linked = (refl, ground (arith, both));
            counted = omega (arith, r.counted);
            high = r.high;
            within = omega arith;
          },
        ),
      )
join_pass-Takes h (q ∷ r2 ∷ at) (t ∷ u ∷ tids) max_tasks tq r =
    let (next, here, real, node, once, rest) = r.linked in
    let some_head : (tq.head == 0) ≡ false = ground (arith, here, real) in
    let other = Distinct-last h next tq.tail q r2 at u tids rest once in
    let once_head : Distinct tq.head (r2 ∷ at) =
      subst (λ a. Distinct a (r2 ∷ at)) (sym here) once in
    let apart : (tq.head == tq.tail) ≡ false = ground (arith, here, other) in
    rw (some_head, ap h here ∙ node)
      (
        refl,
        (
          r2 ∷ at,
          record {
            linked =
                rw apart
                  (Linked-put h next tq.tail (r2 ∷ at) (u ∷ tids) tq.head none once_head rest);
            counted = omega (arith, r.counted);
            high = r.high;
            within = omega (arith, r.within);
          },
        ),
      )
