-- ===== src/Taskq.antt =====
-- CMU15-213/26-parallelism/pqsort/taskq.c and taskq.h: the queue of tasks, a list linked on the heap
-- with a pointer to its tail. A pointer is a number, NULL is 0. `Malloc` and `Pthread_create` of csapp.h
-- end the program if they fail; what they give, the address of the new element and the thread's
-- number, are arguments. `none` is an access through a pointer to no element. The code is that without
-- the macro SEM, and the counts stay below 2^31.
pub mod Queue
pub mod Joining
use computer_science.Prelude.{ℕ, ◌+◌, ◌-◌, Option, none, some, ltb, ◌==◌, ◌>>=◌, if◌then◌else◌}

-- `task_list_t`
pub record Element : Type 0 where
  pub tid : ℕ
  pub next : ℕ

-- `task_queue_t`
pub record TaskQueue : Type 0 where
  pub active_count : ℕ
  pub max_active_count : ℕ
  pub head : ℕ
  pub tail : ℕ

abbrev pub Heap : Type 0
Heap = ℕ → Option Element

abbrev pub put : Heap → ℕ → Option Element → Heap
put h p c q = if p == q then c else h q

unfoldable pub new_task_queue : TaskQueue
new_task_queue = record { active_count = 0; max_active_count = 0; head = 0; tail = 0 }

-- `spawn_task`, at the new element `ele` and the new thread `tid`.
unfoldable pub spawn_task : ℕ → ℕ → TaskQueue → Heap → Option (TaskQueue × Heap)
spawn_task ele tid tq h =
    let h1 = put h ele (some (record { tid = tid; next = 0 })) in
    let active = tq.active_count + 1 in
    let grown : TaskQueue = record tq {
      tail = ele;
      active_count = active;
      max_active_count = if ltb tq.max_active_count active then active else tq.max_active_count;
    } in
    let linked : Option (TaskQueue × Heap) =
      h1 tq.tail >>= λ e. some (grown, put h1 tq.tail (some (record e { next = ele }))) in
    if tq.tail == 0 then some (record grown { head = ele }, h1) else linked

-- What a pass of the loop of `join_tasks` does: return, or take a thread to wait for.
pub data Pass : Type 0 where
  returns : (max_tasks : ℕ) → Pass
  joins : (tid : ℕ) → Pass

unfoldable pub join_pass : TaskQueue → Heap → Option (Pass × TaskQueue × Heap)
join_pass tq h =
    let old_head = tq.head in
    let taken : Option (Pass × TaskQueue × Heap) = h old_head >>= λ e. some (
      joins e.tid,
      record tq {
        head = e.next;
        tail = if old_head == tq.tail then 0 else tq.tail;
        active_count = tq.active_count - 1;
      },
      put h old_head none,
    ) in
    if old_head == 0 then some (returns tq.max_active_count, tq, h) else taken
