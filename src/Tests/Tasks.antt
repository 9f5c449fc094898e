-- ===== src/Tests/Tasks.antt =====
-- The ready queue, the scheduler and the task services.
use rosx.Base.{
  ℕ, ◌≤◌, ◌≡◌, ◌≢◌, refl, true, false, none, some, List, [], ◌∷◌, arith, ok, ◌>>=◌, inl, inr,
  update,
}
use rosx.Base.Int.{pos}
use rosx.Base.Lists.{NotIn}
use rosx.Base.Links.{IsList, AgreeOff}
use rosx.Kernel.{ready, running, complete, os_ok, Kernel}
use rosx.ReadyQueue.{add_to_ready_q, remove_from_ready_q}
use rosx.ReadyQueue.Spec.{insert, NoneAbove, IsReady}
use rosx.ReadyQueue.Add.{add_to_ready_q-refines}
use rosx.ReadyQueue.Remove.{remove_from_ready_q-refines}
use rosx.Sched.{sched, time_slice_tick}
use rosx.Sched.Laws.{sched-most_urgent}
use rosx.Sched.Slices.{round_robin, slice_renewed}
use rosx.Task.{complete_task, set_task_prio, suspend_task, resume_task, create_task, delete_task}
use rosx.Task.Laws.{
  resume-suspend, set_task_prio-refines, set_task_prio-stuck, complete_task-runs_next,
}
use rosx.Task.Create.{create_task-refines, delete_task-refines}
use rosx.Tests.Demo.{demo, queue, demo-IsReady}

abbrev woken : Kernel
woken = record demo { state = λ p. ready }

woken-IsReady : IsReady woken queue
woken-IsReady = record {
  linked = demo-IsReady.linked;
  distinct = demo-IsReady.distinct;
  sorted = demo-IsReady.sorted;
}

insert_demo : insert demo.prio 4 queue ≡ 1 ∷ 2 ∷ 4 ∷ 3 ∷ []
unfolding insert
insert_demo = refl

add_to_ready_q-refines_example :
    (k' : Kernel) × (add_to_ready_q 4 woken 4 ≡ ok (os_ok, k'))
    × IsReady k' (insert woken.prio 4 queue)
    × AgreeOff (4 ∷ queue) woken.next k'.next
    × (k' ≡ record woken {
      next = k'.next;
      ready_head = k'.ready_head;
      need_resched = k'.need_resched;
    })
add_to_ready_q-refines_example =
    add_to_ready_q-refines 4 woken 4 queue (omega arith) woken-IsReady (omega arith) refl

remove_from_ready_q-refines_example :
    (k' : Kernel) × (remove_from_ready_q 4 demo 2 ≡ ok k')
    × IsReady k' (1 ∷ 3 ∷ [])
    × NotIn 2 (1 ∷ 3 ∷ [])
    × (k'.next 2 ≡ none)
    × AgreeOff (2 ∷ queue) demo.next k'.next
    × (k' ≡ record demo { next = k'.next; ready_head = k'.ready_head })
remove_from_ready_q-refines_example =
    remove_from_ready_q-refines 4 demo 2 1 (2 ∷ 3 ∷ []) (omega arith) demo-IsReady

abbrev idle : Kernel
idle = record demo { curr = 0 }

idle-IsReady : IsReady idle queue
idle-IsReady = record {
  linked = demo-IsReady.linked;
  distinct = demo-IsReady.distinct;
  sorted = demo-IsReady.sorted;
}

sched-most_urgent_example :
    (k' : Kernel) × (sched idle ≡ ok k')
    × (k'.curr ≡ 1)
    × NoneAbove k'.prio (k'.prio k'.curr) (2 ∷ 3 ∷ [])
    × IsReady k' queue
    × (idle.curr ≢ 1 → (k'.need_resched ≡ false) × (k'.state 1 ≡ running))
    × (k' ≡ record idle {
      curr = k'.curr;
      state = k'.state;
      ticks = k'.ticks;
      need_resched = k'.need_resched;
    })
    × ((q : ℕ) → q ≢ 1 → k'.state q ≡ idle.state q)
sched-most_urgent_example = sched-most_urgent idle 1 (2 ∷ 3 ∷ []) idle-IsReady

round_robin_example :
    (k' : Kernel) × (time_slice_tick 4 demo ≡ ok k')
    × IsReady k' (2 ∷ insert demo.prio 1 (3 ∷ []))
    × (k'.need_resched ≡ true)
    × (k'.state 1 ≡ ready)
round_robin_example = round_robin 4 demo 2 (3 ∷ []) (omega arith) demo-IsReady refl refl refl

-- Task 1 with only the less urgent task 3 behind it.
abbrev alone : Kernel
alone = record demo { next = update demo.next 1 (some 3) }

alone-IsReady : IsReady alone (1 ∷ 3 ∷ [])
alone-IsReady = record {
  linked = (refl, (refl, refl));
  distinct = omega arith;
  sorted = omega arith;
}

slice_renewed_example :
    (k' : Kernel) × (time_slice_tick 4 alone ≡ ok k')
    × IsReady k' (1 ∷ 3 ∷ [])
    × (k'.curr ≡ 1)
    × (k'.state 1 ≡ running)
    × (k'.ticks 1 ≡ pos 10)
slice_renewed_example =
    slice_renewed 4 alone (3 ∷ []) (omega arith) alone-IsReady (omega arith) refl refl

resume-suspend_example :
    (k' : Kernel) × ((suspend_task 4 demo (some 2) >>= λ p. resume_task 4 p.1 2) ≡ ok (os_ok, k'))
    × IsReady k' (insert demo.prio 2 (1 ∷ 3 ∷ []))
    × (k'.state 2 ≡ ready)
resume-suspend_example = resume-suspend 4 demo 2 1 (2 ∷ 3 ∷ []) (omega arith) demo-IsReady refl

set_task_prio-refines_example :
    (k' : Kernel) × (set_task_prio 4 demo 3 2 ≡ ok (os_ok, k'))
    × IsReady k' (insert k'.prio 3 (1 ∷ 2 ∷ []))
    × (k'.prio ≡ update demo.prio 3 2)
set_task_prio-refines_example =
    set_task_prio-refines 4 demo 3 2 1 (2 ∷ 3 ∷ []) (omega arith) demo-IsReady refl (omega arith)
      (omega arith) (omega arith)

-- Every task of priority 4.
abbrev fourth : Kernel
fourth = record demo { prio = λ p. 4 }

set_task_prio-stuck_example : set_task_prio 4 fourth 3 2 ≡ ok (os_ok, fourth)
set_task_prio-stuck_example = set_task_prio-stuck 4 fourth 3 2 (inr refl)

complete_task-runs_next_example :
    (k' : Kernel) × (complete_task 4 demo 1 ≡ ok (os_ok, k'))
    × IsReady k' (2 ∷ 3 ∷ [])
    × (k'.curr ≡ 2)
    × (k'.state 2 ≡ running)
complete_task-runs_next_example =
    complete_task-runs_next 4 demo 2 (3 ∷ []) (omega arith) demo-IsReady

abbrev everyone : List ℕ
everyone = 1 ∷ 2 ∷ 3 ∷ 4 ∷ []

create_task-refines_example :
    (k' : Kernel) × (create_task 4 demo 6 (b'a' ∷ []) 40 (some 1000) 512 77 ready (pos 0)
      ≡ ok (os_ok, k'))
    × IsReady k' (insert k'.prio 6 queue)
    × IsList k'.list k'.list_head (1 ∷ 2 ∷ 3 ∷ 4 ∷ 6 ∷ [])
    × (k'.num_task ≡ 5)
    × (k'.prio 6 ≤ 31)
    × (k'.state 6 ≡ ready)
    × (k'.prio ≡ update demo.prio 6 31)
    × (k'.orig_prio 6 ≡ k'.prio 6)
    × (k'.func 6 ≡ 77)
    × (k'.stack_start 6 ≡ 1512)
    × (k'.time_slice 6 ≡ pos 0)
create_task-refines_example =
    create_task-refines 4 demo 6 (b'a' ∷ []) 40 1000 512 77 (pos 0) queue everyone (omega arith)
      (omega arith) (omega arith) demo-IsReady (omega arith) (refl, (refl, (refl, (refl, refl))))
      (omega arith) (omega arith)

delete_task-refines_example :
    (k' : Kernel) × (delete_task 4 (record demo { state = λ p. complete }) 3 ≡ ok (os_ok, k'))
    × IsList k'.list k'.list_head (1 ∷ 2 ∷ 4 ∷ [])
    × (k' ≡ record demo { state = λ p. complete; list = k'.list; list_head = k'.list_head })
delete_task-refines_example =
    delete_task-refines 4 (record demo { state = λ p. complete }) 3 1 (2 ∷ 3 ∷ 4 ∷ []) (omega arith)
      (refl, (refl, (refl, (refl, refl)))) (omega arith) (inr (inr (inl refl))) refl
