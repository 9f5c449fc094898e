-- ===== src/ReadyQueue.antt =====
-- The ready queue of kernel/rx_task.c: `__rx_add_to_ready_q` and `__rx_remove_from_ready_q`.
-- A walk along the queue has a number of rounds; one round for each task
-- on the queue, and one more, are what the callers need.
pub mod Spec
mod Walk
mod Front
pub mod Add
pub mod Remove
pub mod Park
pub mod Wake
use rosx.Base.{
  ℕ, zero, suc, Bool, true, false, ◌||◌, Option, none, some, ◌==◌, leb, same, update, if◌then◌else◌,
  Run, ok, null_deref, out_of_fuel, ◌>>=◌,
}
use rosx.Kernel.{TaskState, ready, running, Status, os_ok, os_err, Kernel}

-- Where the walk of `__rx_add_to_ready_q` stops.
pub data Spot : Type 0 where
  after : ℕ → Spot
  before : Option ℕ → ℕ → Spot
  at_end : Option ℕ → Spot

-- `while(start) { … prev = start; start = start->next; }`
unfoldable pub ready_spot : ℕ → Kernel → ℕ → Option ℕ → Option ℕ → Run Spot
ready_spot zero k p prev start = out_of_fuel
ready_spot (suc fuel) k p prev none = ok (at_end prev)
ready_spot (suc fuel) k p prev (some start) =
    let more = ready_spot fuel k p (some start) (k.next start) in
    if leb p (k.prio start)
    then if k.prio start == p
      then elim (k.next start) [
        | none ↦ ok (after start)
        | some n ↦ if k.prio n == p then more else ok (after start)
      ]
      else ok (before prev start)
    else more

-- The writes at that place. `new->next` is NULL when the walk starts.
unfoldable pub place : Kernel → ℕ → Spot → Run Kernel
place k new (after start) =
    ok (record k { next = update (update k.next new (k.next start)) start (some new) })
place k new (before prev start) =
    let nx = update k.next new (some start) in
    if same (some start) k.ready_head
    then ok (record k { next = nx; ready_head = some new })
    else elim prev [ none ↦ null_deref | some p ↦ ok (record k { next = update nx p (some new) }) ]
place k new (at_end none) = null_deref
place k new (at_end (some p)) = ok (record k { next = update k.next p (some new) })

-- The label `done`.
abbrev pub mark_resched : Kernel → Kernel
mark_resched k = if same (some k.curr) k.ready_head then k else record k { need_resched = true }

abbrev pub is_runnable : TaskState → Bool
is_runnable ready = true
is_runnable running = true
is_runnable _ = false

unfoldable pub add_to_ready_q : ℕ → Kernel → ℕ → Run (Status × Kernel)
unfolding ready_spot place
add_to_ready_q fuel k new =
    let k1 = record k { next = update k.next new none } in
    if is_runnable (k.state new)
    then elim k.ready_head [
      | none ↦ ok (os_ok, record k1 { ready_head = some new })
      | some h ↦ do
        spot ← ready_spot fuel k1 (k.prio new) none (some h)
        k2 ← place k1 new spot
        ok (os_ok, mark_resched k2)
    ]
    else ok (os_err, k)

-- `while(start != NULL)` of `__rx_remove_from_ready_q`, from a node behind `prev`.
unfoldable pub unlink : ℕ → Kernel → ℕ → Option ℕ → Option ℕ → Run Kernel
unlink zero k rmv prev start = out_of_fuel
unlink (suc fuel) k rmv none none = null_deref
unlink (suc fuel) k rmv (some p) none =
    ok (record k { next = update (update k.next p none) rmv none })
unlink (suc fuel) k rmv prev (some start) =
    let more = unlink fuel k rmv (some start) (k.next start) in
    if start == rmv
    then if same (some start) k.ready_head
      then ok (record k { ready_head = k.next start; next = update k.next rmv none })
      else elim prev [
        | none ↦ null_deref
        | some p ↦ ok (record k { next = update (update k.next p (k.next start)) rmv none })
      ]
    else more

unfoldable pub remove_from_ready_q : ℕ → Kernel → ℕ → Run Kernel
unfolding unlink
remove_from_ready_q fuel k rmv = unlink fuel k rmv none k.ready_head
