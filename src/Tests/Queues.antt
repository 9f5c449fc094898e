-- ===== src/Tests/Queues.antt =====
-- Message queues and block pools.
use rosx.Base.{ℕ, ◌≤◌, ◌<◌, ◌%◌, ◌≡◌, refl, Option, none, some, List, [], ◌∷◌, arith, ok, update}
use rosx.Base.Links.{IsList}
use rosx.Kernel.{suspend, Kernel, os_ok}
use rosx.ReadyQueue.Spec.{IsReady}
use rosx.MsgQueue.{MsgQueue, read, write, returns, delivers, sleeps}
use rosx.MsgQueue.Memory.{copy_out}
use rosx.MsgQueue.Fifo.{IsQueue}
use rosx.MsgQueue.Laws.{write-appends, read-takes_oldest}
use rosx.MsgQueue.Ring.{write-overruns, write-drops_all}
use rosx.MsgQueue.Waiting.{read-sleeps_long}
use rosx.BlockPool.{BlockPool, allocate_block, release_block}
use rosx.BlockPool.Making.{IsPool}
use rosx.BlockPool.Laws.{release-allocate, allocate-returns_nothing}
use rosx.Tests.Demo.{demo, demo-IsReady}

-- A queue of two blocks of two bytes, by its flags, the ends, the waiting reader and the memory.
abbrev queue_of : (flag head tail : ℕ) → (reader : Option ℕ) → MsgQueue
queue_of flag head tail reader = record {
  mem = update (update (update (update (λ a. 0) 0 11) 1 12) 2 21) 3 22;
  head = head;
  tail = tail;
  flag = flag;
  size_of_block = 2;
  num_of_blocks = 2;
  write_task = none;
  read_task = reader;
}

abbrev two : List (List ℕ)
two = (11 ∷ 12 ∷ []) ∷ (21 ∷ 22 ∷ []) ∷ []

abbrev message : List ℕ
message = 31 ∷ 32 ∷ []

two-IsQueue : (reader : Option ℕ) → IsQueue (queue_of 0 4 0 reader) two
unfolding copy_out
two-IsQueue reader = record {
  first = 0;
  free = 2;
  sized = omega arith;
  some_blocks = omega arith;
  first_in = omega arith;
  free_in = omega arith;
  at_tail = refl;
  at_head = refl;
  count = omega arith;
  apart = omega arith;
  stored = (refl, refl, (refl, refl, tt));
  full = λ e. absurd (omega arith);
  empty = λ e. absurd (omega arith);
}

one-IsQueue : IsQueue (queue_of 0 2 0 none) ((11 ∷ 12 ∷ []) ∷ [])
unfolding copy_out
one-IsQueue = record {
  first = 0;
  free = 1;
  sized = omega arith;
  some_blocks = omega arith;
  first_in = omega arith;
  free_in = omega arith;
  at_tail = refl;
  at_head = refl;
  count = omega arith;
  apart = omega arith;
  stored = (refl, refl, tt);
  full = λ e. absurd (omega arith);
  empty = λ e. absurd (omega arith);
}

-- The third slot holds zeros.
abbrev three : List (List ℕ)
three = (11 ∷ 12 ∷ []) ∷ (21 ∷ 22 ∷ []) ∷ (0 ∷ 0 ∷ []) ∷ []

three-IsQueue : (flag : ℕ) → flag % 2 ≡ 1 → IsQueue (queue_of flag 0 0 none) three
unfolding copy_out
three-IsQueue flag odd = record {
  first = 0;
  free = 0;
  sized = omega arith;
  some_blocks = omega arith;
  first_in = omega arith;
  free_in = omega arith;
  at_tail = refl;
  at_head = refl;
  count = omega arith;
  apart = omega arith;
  stored = (refl, refl, (refl, refl, (refl, refl, tt)));
  full = λ e. rw odd refl;
  empty = λ e. absurd (omega arith);
}

-- The flag is RX_Q_BLOCK.
none-IsQueue : IsQueue (queue_of 8 4 4 none) []
none-IsQueue = record {
  first = 2;
  free = 2;
  sized = omega arith;
  some_blocks = omega arith;
  first_in = omega arith;
  free_in = omega arith;
  at_tail = refl;
  at_head = refl;
  count = omega arith;
  apart = omega arith;
  stored = tt;
  full = λ e. absurd (omega arith);
  empty = λ e. refl;
}

write-appends_example :
    (q' : MsgQueue) × (write 4 (queue_of 0 2 0 none) demo message 0 60
      ≡ ok (returns os_ok, q', demo))
    × IsQueue q' ((11 ∷ 12 ∷ []) ∷ message ∷ [])
    × (2 ≤ q'.num_of_blocks)
    × ((a : ℕ) → 4 ≤ a → q'.mem a ≡ (queue_of 0 2 0 none).mem a)
write-appends_example =
    write-appends 4 (queue_of 0 2 0 none) demo message ((11 ∷ 12 ∷ []) ∷ []) 0 60 one-IsQueue refl
      (omega arith) (omega arith) refl

read-takes_oldest_example :
    (q' : MsgQueue) × (read 4 (queue_of 0 4 0 none) demo 2 0 60
      ≡ ok (delivers (11 ∷ 12 ∷ []), q', demo))
    × IsQueue q' ((21 ∷ 22 ∷ []) ∷ [])
read-takes_oldest_example =
    read-takes_oldest 4 (queue_of 0 4 0 none) demo (11 ∷ 12 ∷ []) ((21 ∷ 22 ∷ []) ∷ []) 0 60
      (two-IsQueue none) refl refl

write-overruns_example :
    (q' : MsgQueue) × (write 4 (queue_of 0 4 0 none) demo message 0 60
      ≡ ok (returns os_ok, q', demo))
    × (copy_out q'.mem 4 2 ≡ message)
    × ((a : ℕ) → a < 4 → q'.mem a ≡ (queue_of 0 4 0 none).mem a)
write-overruns_example =
    write-overruns 4 (queue_of 0 4 0 none) demo message two 0 60 (two-IsQueue none) refl refl refl
      refl

-- The flags are RX_QUEUE_FULL and RX_Q_CYCLIC_FULL.
write-drops_all_example :
    (q' : MsgQueue) × (write 4 (queue_of 3 0 0 none) demo message 0 60
      ≡ ok (returns os_ok, q', demo))
    × IsQueue q' (message ∷ [])
write-drops_all_example =
    write-drops_all 4 (queue_of 3 0 0 none) demo message three 0 60 (three-IsQueue 3 refl) refl refl
      refl refl

-- 100 ticks after the boot a timeout of 5 ticks ends after 105.
abbrev aged : Kernel
aged = record demo { jiffies = 100 }

read-sleeps_long_example :
    (k' : Kernel) × (read 4 (queue_of 8 4 4 none) aged 2 5 60
      ≡ ok (sleeps, queue_of 8 4 4 (some 1), k'))
    × IsReady k' (2 ∷ 3 ∷ [])
    × (k'.state 1 ≡ suspend)
    × (k'.time_expiry 60 ≡ 205)
read-sleeps_long_example =
    read-sleeps_long 4 (queue_of 8 4 4 none) aged 5 60 2 (3 ∷ []) [] none-IsQueue refl refl
      (omega arith) (omega arith) (omega arith)
      (record {
        linked = demo-IsReady.linked;
        distinct = demo-IsReady.distinct;
        sorted = demo-IsReady.sorted;
      })
      (record { linked = refl; backed = tt; distinct = tt; sorted = tt }) tt

abbrev unmade : BlockPool
unmade = record {
  start_of_pool = 0;
  pool_size = 0;
  block_size = 0;
  available = 0;
  magic = 0;
  free_blocks = none;
  task = none;
  link = λ a. none;
  block = λ a. 0;
}

-- A pool with one free block, and one with none.
abbrev pool_of : (available : ℕ) → (free : Option ℕ) → BlockPool
pool_of available free = record {
  start_of_pool = 1000;
  pool_size = 32;
  block_size = 24;
  available = available;
  magic = 1431655765;
  free_blocks = free;
  task = none;
  link = λ a. none;
  block = λ a. 1008;
}

release-allocate_example :
    (p1 p2 : BlockPool) × (allocate_block 4 900 (pool_of 1 (some 1000)) demo 0
      ≡ ok (os_ok, some 1008, p1, demo))
    × IsPool p1 []
    × (release_block 4 p1 demo 1008 ≡ ok (os_ok, p2, demo))
    × IsPool p2 (1000 ∷ [])
release-allocate_example =
    release-allocate 4 900 1000 (pool_of 1 (some 1000)) demo 0 []
      (record {
        stamped = refl;
        linked = (refl, refl);
        distinct = omega arith;
        headed = (refl, tt);
        count = refl;
      })
      refl

allocate-returns_nothing_example :
    (p' : BlockPool) × (k' : Kernel) × (allocate_block 4 900 (pool_of 0 none) demo 1
      ≡ ok (os_ok, none, p', k'))
    × IsList k'.next p'.task (1 ∷ [])
    × IsReady k' (2 ∷ 3 ∷ [])
    × (k'.curr ≡ 1)
    × (k'.state 1 ≡ suspend)
allocate-returns_nothing_example =
    allocate-returns_nothing 4 900 (pool_of 0 none) demo 1 (2 ∷ 3 ∷ []) []
      (record { stamped = refl; linked = refl; distinct = tt; headed = tt; count = refl })
      (omega arith) (omega arith) (omega arith) demo-IsReady refl tt tt
