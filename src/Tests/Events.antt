-- ===== src/Tests/Events.antt =====
-- Event groups and tasklets.
use rosx.Base.{
  ℕ, ◌≡◌, refl, true, false, Option, none, some, [], ◌∷◌, arith, ok, out_of_fuel, ◌>>=◌, update,
}
use rosx.Base.Links.{IsList}
use rosx.Kernel.{suspend, ready, Kernel, os_ok}
use rosx.ReadyQueue.Spec.{insert, IsReady}
use rosx.Event.{EventGroup, process_event, wait_event_group}
use rosx.Event.Laws.{process_event-drops_rest, wait_event_group-forgets}
use rosx.Tasklet.{Tasklets, schedule_tasklet, run_tasklet}
use rosx.Tasklet.Laws.{IsPending, schedule_tasklet-appends, reschedule-loops}
use rosx.Tests.Demo.{demo, queue, demo-IsReady}

-- The tasks 4 and 6 wait for the flag 1.
abbrev asked : Kernel
asked = record demo { next = update demo.next 4 (some 6); event_flag = λ p. 1 }

asked-IsReady : IsReady asked queue
asked-IsReady = record {
  linked = (refl, (refl, (refl, refl)));
  distinct = demo-IsReady.distinct;
  sorted = demo-IsReady.sorted;
}

abbrev group : Option ℕ → EventGroup
group task = record { task = task; next = none }

process_event-drops_rest_example :
    (k' : Kernel) × (process_event 1 4 (group (some 4)) asked 1 ≡ ok (os_ok, group none, k'))
    × IsReady k' (insert demo.prio 4 queue)
    × (k'.state 4 ≡ ready)
    × (k'.event_recv 4 ≡ 1)
process_event-drops_rest_example =
    process_event-drops_rest 1 4 4 1 none asked queue (omega arith) (omega arith) asked-IsReady
      (omega arith) refl

wait_event_group-forgets_example :
    (k' : Kernel) × (wait_event_group 4 80 (group (some 4)) asked 1 ≡ ok (group (some 4), k'))
    × IsList k'.next (some 4) (4 ∷ 6 ∷ [])
    × IsReady k' (2 ∷ 3 ∷ [])
    × (k'.curr ≡ 2)
    × (k'.state 1 ≡ suspend)
    × (k'.event 1 ≡ some 80)
wait_event_group-forgets_example =
    wait_event_group-forgets 4 80 4 2 1 none asked (3 ∷ []) (6 ∷ []) (omega arith) (omega arith)
      asked-IsReady (refl, (refl, refl)) (omega arith)

-- The tasklets 1 and 2 are scheduled, and all are enabled.
abbrev pub pending : Tasklets
pending = record {
  enabled = λ t. true;
  scheduled = update (update (λ t. false) 1 true) 2 true;
  running = λ t. false;
  func = λ t. some 9;
  arg = λ t. 0;
  next = update (λ t. none) 1 (some 2);
  prev = update (λ t. none) 2 (some 1);
  head = some 1;
}

pub pending-IsPending : IsPending pending (1 ∷ 2 ∷ [])
pending-IsPending = record { linked = (refl, (refl, refl)); distinct = omega arith }

schedule_tasklet-appends_example :
    (s' : Tasklets) × (schedule_tasklet 3 pending (some 3) ≡ ok s')
    × IsPending s' (1 ∷ 2 ∷ 3 ∷ [])
    × (s'.scheduled 3 ≡ true)
schedule_tasklet-appends_example =
    schedule_tasklet-appends 3 pending 3 (1 ∷ 2 ∷ []) (omega arith) pending-IsPending (omega arith)
      refl refl refl

reschedule-loops_example :
    (s' : Tasklets) × ((run_tasklet {S = ℕ} (λ g v z q. ok (z, q)) 0 pending >>= λ r.
    schedule_tasklet 1 r.1 (some 1))
      ≡ ok s')
    × (schedule_tasklet 100 s' (some 3) ≡ out_of_fuel)
reschedule-loops_example =
    reschedule-loops 1 100 0 pending 1 2 3 9 (omega arith) pending-IsPending refl refl refl refl
      (omega arith)
