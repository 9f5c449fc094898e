-- ===== src/Tests/Demo.antt =====
-- A kernel with three ready tasks: 1 and 2 with priority 5, 1 running, and 3 with priority 9.
-- Task 4, with priority 7, is suspended; all four are on the list of all tasks.
use rosx.Base.{ℕ, ◌==◌, if◌then◌else◌, refl, Option, none, some, List, [], ◌∷◌, arith, update}
use rosx.Base.Int.{ℤ, pos, negsuc}
use rosx.Kernel.{suspend, ready, running, Kernel, boot}
use rosx.ReadyQueue.Spec.{IsReady}

abbrev chain : ℕ → Option ℕ
chain = update (update (λ p. none) 1 (some 2)) 2 (some 3)

abbrev pub demo : Kernel
demo = record boot {
  next = chain;
  list = update chain 3 (some 4);
  prio = update (update (update (update (λ p. 0) 1 5) 2 5) 3 9) 4 7;
  orig_prio = update (update (update (update (λ p. 0) 1 5) 2 5) 3 9) 4 7;
  state = update (update (update (λ p. suspend) 1 running) 2 ready) 3 ready;
  time_slice = update (λ p. pos 0) 1 (pos 10);
  ticks = update (λ p. pos 0) 1 (pos 1);
  ready_head = some 1;
  list_head = some 1;
  curr = 1;
  num_task = 4;
}

abbrev pub queue : List ℕ
queue = 1 ∷ 2 ∷ 3 ∷ []

pub demo-IsReady : IsReady demo queue
demo-IsReady = record {
  linked = (refl, (refl, (refl, refl)));
  distinct = omega arith;
  sorted = omega arith;
}

-- The C library's `strcmp`, but for the size of the difference.
abbrev pub strcmp : List ℕ → List ℕ → ℤ
strcmp [] [] = pos 0
strcmp [] (c ∷ cs) = negsuc 0
strcmp (c ∷ cs) [] = pos 1
strcmp (c ∷ cs) (d ∷ ds) = if c == d then strcmp cs ds else pos 1
