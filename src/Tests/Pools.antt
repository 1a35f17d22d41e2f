-- ===== src/Tests/Pools.antt =====
-- pqsort.c with its tasks on six numbers, and the task queue.
use computer_science.Prelude.{
  ◌≡◌, refl, some, none, [], ◌∷◌, Returns, arith, ◌>>=◌, true, false, inl, inr, if◌then◌else◌, ◌==◌,
}
use computer_science.Parallel.{Schedule, partition_parallel}
use computer_science.Parallel.Partition.{Divides, partition_parallel-Divides}
use computer_science.Parallel.Tqsort.{Config, tqsort}
use computer_science.Parallel.Threads.{SortsWith, tqsort-SortsWith}
use computer_science.Taskq.{TaskQueue, Heap, spawn_task}
use computer_science.Taskq.Queue.{Represents, spawn_task-Represents}
use computer_science.Taskq.Joining.{
  System, Reach, fresh, next, first_spawn, spawn, join, take, finish, reap, return, returned,
  Reach-finished,
}
use computer_science.Tests.Insertion.{insertion}
use computer_science.Tests.Sorting.{sample, first_eight}

-- Each pool takes its second task first.
abbrev pub seconds : Schedule
seconds = record { copying = λ b n k. 1; parting = λ b n k. 1; sorting = λ k. 1 }

abbrev fine : Config
fine = record {
  use_qsort_lib = true;
  serial_sort_fraction = 4;
  serial_partition_fraction = 4;
  lib = insertion;
  sched = seconds;
}

tqsort_runs :
    (tqsort fine 1 6 100 sample >>= λ m. some (first_eight m))
    ≡ some (9 ∷ 0 ∷ 2 ∷ 2 ∷ 5 ∷ 7 ∷ 9 ∷ 1 ∷ [])
unfolding tqsort computer_science.Tests.Insertion.insertion_sort
tqsort_runs = refl

tqsort-SortsWith_example : Returns (SortsWith 1 6 100 sample) (tqsort fine 1 6 100 sample)
tqsort-SortsWith_example =
    tqsort-SortsWith fine 1 6 100 sample (inl (omega arith)) (inr (omega arith))

partition_parallel-Divides_example :
    Returns (Divides 1 100 6 sample) (partition_parallel seconds 1 6 100 2 sample)
partition_parallel-Divides_example =
    partition_parallel-Divides seconds 1 6 100 2 sample (omega arith) (omega arith) (omega arith)
      (omega arith) (inr (omega arith))

abbrev two_elements : Heap
two_elements p =
    if p == 40
    then some (record { tid = 7; next = 48 })
    else if p == 48
    then some (record { tid = 8; next = 0 })
    else none

abbrev two_tasks : TaskQueue
two_tasks = record { active_count = 2; max_active_count = 5; head = 40; tail = 48 }

two_tasks-Represents : Represents two_elements (40 ∷ 48 ∷ []) (7 ∷ 8 ∷ []) 5 two_tasks
two_tasks-Represents = record {
  linked = (48, refl, omega arith, refl, (omega arith, tt), (refl, refl, omega arith, refl));
  counted = refl;
  high = refl;
  within = omega arith;
}

spawn_task-Represents_example :
    Returns
      (λ out. Represents out.1 (40 ∷ 48 ∷ 56 ∷ []) (7 ∷ 8 ∷ 9 ∷ []) 5 out.0)
      (spawn_task 56 9 two_tasks two_elements)
spawn_task-Represents_example =
    spawn_task-Represents 56 9 two_elements (40 ∷ 48 ∷ []) (7 ∷ 8 ∷ []) 5 two_tasks (omega arith)
      (omega arith, (omega arith, tt)) two_tasks-Represents

-- The first task spawns a second one while it is being joined.
abbrev after_join : System
after_join = record {
  created = 2;
  finished = λ k. if k == 1 then true else (if k == 0 then true else false);
  queue = [];
  reaper = returned;
}

after_join-Reach : Reach after_join
after_join-Reach =
    next
      (next
        (next
          (next
            (next
              (next
                (next
                  (next (next (next fresh (first_spawn refl refl)) (join refl refl))
                    (take 0 [] refl refl refl))
                  (spawn 0 (omega arith) refl refl))
                (finish 0 (omega arith) refl))
              (reap 0 refl refl refl))
            (take 1 [] refl refl refl))
          (finish 1 (omega arith) refl))
        (reap 1 refl refl refl))
      (return refl refl refl)

Reach-finished_example : after_join.finished 1 ≡ true
Reach-finished_example = Reach-finished after_join after_join-Reach refl 1 (omega arith)
