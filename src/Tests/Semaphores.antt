-- ===== src/Tests/Semaphores.antt =====
-- Semaphores and mutexes.
use rosx.Base.{
  ℕ, ◌≤◌, ◌≡◌, refl, ◌⊎◌, inl, inr, true, false, Option, none, some, List, [], ◌∷◌, arith, ok,
  update,
}
use rosx.Base.Int.{pos, negsuc, dec}
use rosx.Base.Lists.{In}
use rosx.Base.Links.{IsList}
use rosx.Kernel.{suspend, ready, timed_out, Kernel, os_ok, e_os_unavail}
use rosx.ReadyQueue.Spec.{insert, NoneAbove, IsReady}
use rosx.ReadyQueue.Wake.{insert_all}
use rosx.Semaphore
use rosx.Semaphore.{Semaphore, wait, post, sem_handler, delete_semaphore}
use rosx.Semaphore.Counting.{IsCounted, wait-sleeps, post-wakes_oldest, post-lost}
use rosx.Semaphore.Timeouts.{sem_handler-gives_up}
use rosx.Semaphore.Delete.{delete_semaphore-wakes_all}
use rosx.Mutex
use rosx.Mutex.{Mutex, lock, unlock}
use rosx.Mutex.Laws.{mutex_of, unlock-lock}
use rosx.Mutex.Inherit.{lock-lends}
use rosx.Mutex.HandOver.{IsLent, unlock-hands_over}
use rosx.Tests.Demo.{demo, queue, demo-IsReady}

-- Task 4 waits on the semaphore at address 50.
abbrev contended : Semaphore
contended = record { init_val = pos 1; curr_val = negsuc 0; task = some 4 }

contended-IsCounted : IsCounted contended demo (4 ∷ [])
contended-IsCounted = record { counted = refl; linked = (refl, refl); distinct = omega arith }

wait-sleeps_example :
    (s' : Semaphore) × (k' : Kernel) × (wait 4 50 contended demo (negsuc 0) 60 70
      ≡ ok (Semaphore.sleeps, s', k'))
    × IsCounted s' k' (4 ∷ 1 ∷ [])
    × IsReady k' (2 ∷ 3 ∷ [])
    × (k'.curr ≡ 2)
    × (k'.state 1 ≡ suspend)
    × (k'.sem 1 ≡ some 50)
unfolding dec
wait-sleeps_example =
    wait-sleeps 4 50 contended demo 0 60 70 2 (3 ∷ []) (4 ∷ []) (omega arith) (omega arith)
      demo-IsReady contended-IsCounted (omega arith) refl

post-wakes_oldest_example :
    (s' : Semaphore) × (k' : Kernel) × (post 4 contended demo ≡ ok (os_ok, s', k'))
    × IsCounted s' k' []
    × IsReady k' (insert demo.prio 4 queue)
    × (k'.state 4 ≡ ready)
    × (k'.sem 4 ≡ none)
post-wakes_oldest_example =
    post-wakes_oldest 4 contended demo 4 [] queue (omega arith) demo-IsReady contended-IsCounted
      (omega arith)

abbrev noted : Kernel
noted = record demo { sem = update demo.sem 4 (some 50) }

noted-IsReady : IsReady noted queue
noted-IsReady = record {
  linked = demo-IsReady.linked;
  distinct = demo-IsReady.distinct;
  sorted = demo-IsReady.sorted;
}

noted-IsCounted : IsCounted contended noted (4 ∷ [])
noted-IsCounted = record { counted = refl; linked = (refl, refl); distinct = omega arith }

sem_handler-gives_up_example :
    (s' : Semaphore) × (k' : Kernel) × (sem_handler 4 contended noted 4 ≡ ok (s', k'))
    × IsCounted s' k' []
    × IsReady k' (insert noted.prio 4 queue)
    × (k'.state 4 ≡ ready)
    × (k'.timeout 4 ≡ timed_out)
    × (k'.sem 4 ≡ none)
    × (k'.timer 4 ≡ none)
sem_handler-gives_up_example =
    sem_handler-gives_up 4 50 contended noted 4 (4 ∷ []) queue (omega arith) (omega arith) refl
      (inl refl) noted-IsReady noted-IsCounted (omega arith)

delete_semaphore-wakes_all_example :
    (s' : Semaphore) × (k' : Kernel) × (delete_semaphore 2 5 contended demo ≡ ok (s', k'))
    × (s'.task ≡ none)
    × (s'.curr_val ≡ negsuc 0)
    × IsReady k' (insert_all demo.prio (4 ∷ []) queue)
    × ((q : ℕ) → (demo.state q ≡ ready) ⊎ In q (4 ∷ []) → k'.state q ≡ ready)
delete_semaphore-wakes_all_example =
    delete_semaphore-wakes_all 2 5 contended demo (4 ∷ []) queue (omega arith) (omega arith)
      demo-IsReady (refl, refl) (omega arith) (omega arith) (refl, tt)

abbrev last_unit : Semaphore
last_unit = record { init_val = pos 1; curr_val = pos 1; task = none }

abbrev used_up : Semaphore
used_up = record { init_val = pos 1; curr_val = pos 0; task = none }

post-lost_example :
    (wait 4 50 last_unit demo (pos 3) 60 70 ≡ ok (Semaphore.returns os_ok, used_up, demo))
    × (post 4 used_up demo ≡ ok (os_ok, used_up, demo))
    × (wait 4 50 used_up demo (pos 0) 60 70 ≡ ok (Semaphore.returns e_os_unavail, used_up, demo))
post-lost_example = post-lost 4 50 last_unit demo (pos 3) 60 70 refl refl

unlock-lock_example :
    (lock 4 90 (mutex_of false none none none) demo (pos 3) 60 70
      ≡ ok (Mutex.returns os_ok, mutex_of true (some 1) none none, demo))
    × (unlock 4 (mutex_of true (some 1) none none) demo
        ≡ ok (os_ok, mutex_of false (some 1) none none, demo))
unlock-lock_example = unlock-lock 4 90 none none demo (pos 3) 60 70 refl

-- Task 3 holds the mutex, task 4 waits for it, and the more urgent task 1 comes next.
lock-lends_example :
    (head : Option ℕ) × (k' : Kernel) × (zs : List ℕ) × (lock 4 90
        (mutex_of true (some 3) (some 4) none)
        demo
        (negsuc 0)
        60
        70
      ≡ ok (Mutex.sleeps, mutex_of true (some 3) head none, k'))
    × IsList k'.next head (4 ∷ 1 ∷ [])
    × (k'.prio ≡ update demo.prio 3 5)
    × (insert k'.prio 3 (2 ∷ []) ≡ k'.curr ∷ zs)
    × IsReady k' (k'.curr ∷ zs)
    × (k'.state 1 ≡ suspend)
    × NoneAbove k'.prio (k'.prio k'.curr) zs
lock-lends_example =
    lock-lends 4 90 3 (some 4) none demo 0 60 70 2 (3 ∷ []) (4 ∷ []) (omega arith) (omega arith)
      demo-IsReady (refl, refl) (omega arith) (omega arith) (inr (inl refl)) refl (omega arith)

-- Task 1 unlocks a mutex that the tasks 4 and 6 wait for.
abbrev awaited : Kernel
awaited = record demo { next = update demo.next 4 (some 6) }

awaited-IsReady : IsReady awaited queue
awaited-IsReady = record {
  linked = (refl, (refl, (refl, refl)));
  distinct = demo-IsReady.distinct;
  sorted = demo-IsReady.sorted;
}

unlock-hands_over_example :
    (v : ℕ) × (k' : Kernel) × (unlock 4 (mutex_of true (some 1) (some 4) none) awaited
      ≡ ok (os_ok, mutex_of true (some 4) (some 6) none, k'))
    × IsList k'.next (some 6) (6 ∷ [])
    × (k'.prio ≡ update demo.prio 4 v)
    × (v ≤ 7)
    × NoneAbove demo.prio v (6 ∷ [])
    × ((v ≡ 7) ⊎ IsLent demo.prio v (6 ∷ []))
    × IsReady k' (insert k'.prio 4 queue)
    × (k'.state 4 ≡ ready)
    × (k'.mutex 4 ≡ none)
unlock-hands_over_example =
    unlock-hands_over 4 none awaited 4 (6 ∷ []) queue (omega arith) (omega arith) awaited-IsReady
      (refl, (refl, refl)) (omega arith) (omega arith) refl refl
