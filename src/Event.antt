-- ===== src/Event.antt =====
-- kernel/rx_event.c, but for the event thread and its queue. A wait is modelled up to the switch.
pub mod Laws
use Prim.Native.Nat.{bit_and, bit_or}
use rosx.Base.{
  ℕ, zero, suc, ◌-◌, Bool, true, false, Option, none, some, ◌==◌, same, update, if◌then◌else◌, Run,
  ok, null_deref, out_of_fuel, ◌>>=◌, deref,
}
use rosx.Kernel.{suspend, ready, Status, os_ok, Kernel}
use rosx.ReadyQueue.{add_to_ready_q, remove_from_ready_q}
use rosx.Sched.{sched}

pub record EventGroup : Type 0 where
  pub task : Option ℕ
  pub next : Option ℕ

-- `rx_create_event_group`
unfoldable create_event_group : EventGroup → Status × EventGroup
create_event_group g = (os_ok, record { task = none; next = none })

-- `rx_delete_event_group`: one round for each waiting task.
unfoldable delete_event_group : ℕ → ℕ → EventGroup → Kernel → Run (EventGroup × Kernel)
delete_event_group zero fuel g k = out_of_fuel
delete_event_group (suc rounds) fuel g k = elim g.task [
  | none ↦ ok (g, k)
  | some t ↦ do
    (_, k1) ←
        add_to_ready_q fuel
          (record k { state = update k.state t ready; event = update k.event t none }) t
    delete_event_group rounds fuel (record g { task = k.next t }) k1
]

-- `rx_set_event_flag`
unfoldable set_event_flag : Kernel → ℕ → Status × Kernel
set_event_flag k flag = (
  os_ok,
  record k { event_flag = update k.event_flag k.curr (bit_or (k.event_flag k.curr) flag) },
)

-- `rx_clear_event_flag`; `a & ~b` is `a - (a & b)`.
unfoldable clear_event_flag : Kernel → ℕ → Status × Kernel
clear_event_flag k flag = (
  os_ok,
  record k {
    event_flag =
        update k.event_flag k.curr (k.event_flag k.curr - bit_and (k.event_flag k.curr) flag);
    event_recv =
        update k.event_recv k.curr (k.event_recv k.curr - bit_and (k.event_recv k.curr) flag);
  },
)

-- `while(tmp) tmp = tmp->next;`
unfoldable pub run_out : ℕ → (ℕ → Option ℕ) → Option ℕ → Run (Option ℕ)
run_out zero nx t = out_of_fuel
run_out (suc fuel) nx none = ok none
run_out (suc fuel) nx (some t) = run_out fuel nx (nx t)

-- `rx_wait_event_group` up to the switch, with the group at the address `event`. The last
-- assignment of the walk is to the local `tmp`.
unfoldable pub wait_event_group :
    ℕ → (event : ℕ) → EventGroup → Kernel → ℕ → Run (EventGroup × Kernel)
unfolding run_out
wait_event_group fuel event g k flag = do
  k1 ←
      remove_from_ready_q fuel
        (record k {
          event_flag = update k.event_flag k.curr (bit_or (k.event_flag k.curr) flag);
          state = update k.state k.curr suspend;
          event = update k.event k.curr (some event);
        })
        k.curr
  let k2 = record k1 { next = update k1.next k1.curr none }
  g1 ← elim g.task [
    | none ↦ ok (record g { task = some k2.curr })
    | some h ↦ do _ ← run_out fuel k2.next (some h); ok g
  ]
  k3 ← sched k2
  ok (g1, k3)

-- The loop of `rx_process_event`, from a node and the one before it.
unfoldable pub notify :
    ℕ → ℕ → (flag : ℕ) → (prev start : Option ℕ) → EventGroup → Kernel → Run (EventGroup × Kernel)
notify zero fuel flag prev start g k = out_of_fuel
notify (suc rounds) fuel flag prev none g k = ok (g, k)
notify (suc rounds) fuel flag prev (some start) g k =
    let k1 = record k {
      event_recv = update k.event_recv start flag;
      state = update k.state start ready;
      event = update k.event start none;
      next = update k.next start none;
    } in
    elim (bit_and (k.event_flag start) flag == 0) [
      | true ↦ notify rounds fuel flag (some start) (k.next start) g k
      | false ↦ elim (same (some start) g.task) [
        | true ↦ do
          let g1 = record g { task = k1.next start }
          (_, k2) ← add_to_ready_q fuel k1 start
          elim g1.task [
            | none ↦ ok (g1, k2)
            | some h ↦ notify rounds fuel flag (some h) (k2.next h) g1 k2
          ]
        | false ↦ do
          p ← deref prev
          (_, k2) ←
              add_to_ready_q fuel (record k1 { next = update k1.next p (k1.next start) }) start
          notify rounds fuel flag prev (k2.next p) g k2
      ]
    ]

-- `rx_process_event` behind the wake-up of the wait queues, for a group that is not NULL
unfoldable pub process_event : ℕ → ℕ → EventGroup → Kernel → ℕ → Run (Status × EventGroup × Kernel)
unfolding notify
process_event rounds fuel g k flag = do
  (g1, k1) ← notify rounds fuel flag g.task g.task g k
  ok (os_ok, g1, k1)
