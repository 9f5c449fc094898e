-- ===== src/Timer.antt =====
-- kernel/rx_timer.c: the list of active timers, and the services that start and stop timers.
-- `flag` is held as its bit __RX_TIMER_ENABLED, the only one that the code sets. A `struct
-- timer_list` on a task's stack is one more address.
pub mod Spec
mod Insert
pub mod Add
pub mod Remove
pub mod Sleep
pub mod Expire
use rosx.Base.{
  ℕ, zero, suc, ◌+◌, ◌*◌, ◌/◌, ◌%◌, ◌^◌, Bool, true, false, not, Option, none, some, ◌==◌, ltb, leb,
  same, update, if◌then◌else◌, Run, ok, null_deref, out_of_fuel, ◌>>=◌, deref,
}
use rosx.Kernel.{suspend, ready, Status, os_ok, os_err, Kernel}
use rosx.ReadyQueue.{add_to_ready_q, remove_from_ready_q}
use rosx.Sched.{sched}

-- CONFIG_HZ
abbrev hz : ℕ
hz = 100

-- Where the walk of `__rx_add_to_active_timer_list` stops: before a timer, or behind the last one.
pub data Spot : Type 0 where
  before : ℕ → Spot
  behind : ℕ → Spot

unfoldable pub timer_spot : ℕ → Kernel → ℕ → ℕ → Run Spot
timer_spot zero k tick start = out_of_fuel
timer_spot (suc fuel) k tick start =
    if leb tick (k.time_expiry start)
    then ok (before start)
    else elim (k.timer_next start) [ none ↦ ok (behind start) | some n ↦ timer_spot fuel k tick n ]

unfoldable pub place_timer : Kernel → ℕ → Spot → Run Kernel
place_timer k p (before s) =
    if same (some s) k.active_timer_head
    then ok (record k {
      timer_prev = update k.timer_prev s (some p);
      timer_next = update k.timer_next p (some s);
      active_timer_head = some p;
    })
    else elim (k.timer_prev s) [
      | none ↦ null_deref
      | some q ↦ ok (record k {
        timer_next = update (update k.timer_next p (some s)) q (some p);
        timer_prev = update (update k.timer_prev p (some q)) s (some p);
      })
    ]
place_timer k p (behind s) = ok (record k {
  timer_next = update k.timer_next s (some p);
  timer_prev = update k.timer_prev p (some s);
})

-- The fields of a timer that is started, `jiffies` ticks after the boot.
abbrev pub arm : Kernel → ℕ → Kernel
arm k p = record k {
  time_expiry = update k.time_expiry p ((k.delay p + k.jiffies) % 2 ^ 32);
  enabled = update k.enabled p true;
  timer_prev = update k.timer_prev p none;
  timer_next = update k.timer_next p none;
}

-- `__rx_add_to_active_timer_list`
unfoldable pub add_to_active : ℕ → Kernel → ℕ → Run Kernel
unfolding timer_spot place_timer
add_to_active fuel k p =
    let k1 = arm k p in
    elim k.active_timer_head [
      | none ↦ ok (record k1 { active_timer_head = some p })
      | some h ↦ do spot ← timer_spot fuel k1 (k1.time_expiry p) h; place_timer k1 p spot
    ]

-- `__rx_remove_from_timer_list(p, &__rx_active_timer_head)`
unfoldable pub remove_from_active : Kernel → ℕ → Run Kernel
remove_from_active k p = elim k.active_timer_head [
  | none ↦ ok k
  | some h ↦
      if h == p
      then elim (k.timer_next p) [
        | none ↦ ok (record k { active_timer_head = none })
        | some n ↦
            ok (record k { active_timer_head = some n; timer_prev = update k.timer_prev n none })
      ]
      else elim (k.timer_prev p) [
        | none ↦ null_deref
        | some q ↦
            let nx = update k.timer_next q (k.timer_next p) in
            elim (nx p) [
              | none ↦ null_deref
              | some n ↦ ok (record k {
                timer_next = nx;
                timer_prev = update k.timer_prev n (k.timer_prev p);
              })
            ]
      ]
]

-- `__rx_add_timer`; with no handler the task sleeps on the timer.
unfoldable pub add_timer : ℕ → Kernel → ℕ → Option ℕ → ℕ → ℕ → Run Kernel
add_timer fuel k p func delay tid =
    let k1 = record k {
      delay = update k.delay p delay;
      time_expiry = update k.time_expiry p 0;
      timer_task = update k.timer_task p tid;
      handler = update k.handler p func;
      timer_next = update k.timer_next p none;
      timer_prev = update k.timer_prev p none;
    } in
    elim func [
      | none ↦ do
        k2 ← add_to_active fuel k1 p
        k3 ←
            remove_from_ready_q fuel
              (record k2 {
                timer = update k2.timer tid (some p);
                state = update k2.state tid suspend;
              })
              tid
        sched k3
      | some f ↦ ok (record k1 { enabled = update k1.enabled p false })
    ]

-- `rx_init_timer`
unfoldable pub init_timer : ℕ → Kernel → ℕ → Option ℕ → ℕ → ℕ → Run (Status × Kernel)
init_timer fuel k p func priv ticks = if ticks == 0 then ok (os_err, k) else (do
  k1 ←
      add_timer fuel (record k { priv = update k.priv p priv; enabled = update k.enabled p false })
        p func ticks k.curr
  ok (os_ok, k1))

-- `rx_create_timer`
unfoldable pub create_timer : ℕ → Kernel → ℕ → Option ℕ → ℕ → ℕ → Run (Status × Kernel)
create_timer fuel k p func priv ticks = if ticks == 0 then ok (os_err, k) else (do
  k1 ← add_timer fuel (record k { priv = update k.priv p priv }) p func ticks k.curr
  ok (os_ok, k1))

-- `rx_start_timer`
unfoldable pub start_timer : ℕ → Kernel → Option ℕ → Run Kernel
start_timer fuel k none = ok k
start_timer fuel k (some p) = if k.enabled p then ok k else add_to_active fuel k p

-- `rx_stop_timer`
unfoldable pub stop_timer : Kernel → ℕ → Run Kernel
stop_timer k p =
    if k.enabled p
    then (do k1 ← remove_from_active k p; ok (record k1 { enabled = update k1.enabled p false }))
    else ok k

-- `rx_mod_timer`
unfoldable mod_timer : ℕ → Kernel → Option ℕ → ℕ → Run Kernel
unfolding start_timer
mod_timer fuel k none delay = ok k
mod_timer fuel k (some p) delay =
    if k.enabled p
    then ok k
    else if k.delay p == 0
    then ok k
    else start_timer fuel (record k { delay = update k.delay p (delay * (1000 / hz) % 2 ^ 32) })
        (some p)

-- `rx_msleep`, with `p` the timer on the caller's stack
unfoldable pub msleep : ℕ → Kernel → ℕ → ℕ → Run (Status × Kernel)
msleep fuel k p time =
    if ltb 100000 time then ok (os_err, k) else if time == 0 then ok (os_err, k) else (do
      k1 ← add_timer fuel k p none (if time / hz == 0 then 1 else time / hz) k.curr
      ok (os_ok, k1))

-- `rx_ssleep`
unfoldable ssleep : ℕ → Kernel → ℕ → ℕ → Run (Status × Kernel)
ssleep fuel k p time =
    if time == 0
    then ok (os_err, k)
    else (do k1 ← add_timer fuel k p none (time * 1000 % 2 ^ 32 / hz) k.curr; ok (os_ok, k1))

-- `RX_MSECS_TO_TICKS`, for a time that is not negative
unfoldable msecs_to_ticks : ℕ → ℕ
msecs_to_ticks m = if m == 0 then 0 else if ltb m (1000 / hz) then 1 else m / (1000 / hz)

-- The loop of `rx_timer_thread` over the active timers, `tick` being the value of `jiffies` when
-- it was entered. `run` calls a timer's handler with the timer's `priv`.
unfoldable pub expire :
    (rounds fuel : ℕ) → (run : ℕ → ℕ → Kernel → Run Kernel) → (tick : ℕ) → Kernel → Run Kernel
expire zero fuel run tick k = out_of_fuel
expire (suc rounds) fuel run tick k = elim k.active_timer_head [
  | none ↦ ok k
  | some start ↦
      if leb (k.time_expiry start) tick
      then (do
        k' ← elim (k.handler start) [
          | some f ↦ do
            k1 ← remove_from_active k start
            run f (k1.priv start) (record k1 { enabled = update k1.enabled start false })
          | none ↦ do
            let t = k.timer_task start
            (_, k1) ← add_to_ready_q fuel (record k { state = update k.state t ready }) t
            remove_from_active (record k1 { timer = update k1.timer t none }) start
        ]
        expire rounds fuel run tick k')
      else ok k
]
