-- ===== src/Tasklet.antt =====
-- kernel/rx_tasklet.c. The fields of the tasklets (`arg` is `data`) are maps from addresses; `status` is
-- held by its three bits: __RX_ENABLE_TASKLET, __RX_SCHED_TASKLET, __RX_RUNNING_TASKLET.
pub mod Laws
pub mod Thread
pub mod Serving
pub mod Disabling
use rosx.Base.{
  ℕ, zero, suc, Bool, true, false, not, ◌&&◌, ◌||◌, Option, none, some, update, if◌then◌else◌, Run,
  ok, null_deref, out_of_fuel, ◌>>=◌, deref,
}
use rosx.Base.Links.{last}
use rosx.Kernel.{Status, os_ok, os_err}

pub record Tasklets : Type 0 where
  pub enabled : ℕ → Bool
  pub scheduled : ℕ → Bool
  pub running : ℕ → Bool
  pub func : ℕ → Option ℕ
  pub arg : ℕ → ℕ
  pub next : ℕ → Option ℕ
  pub prev : ℕ → Option ℕ
  pub head : Option ℕ

-- `rx_init_tasklet`
unfoldable init_tasklet : Tasklets → (t func : Option ℕ) → (arg : ℕ) → Status × Tasklets
init_tasklet s none func arg = (os_err, s)
init_tasklet s (some t) none arg = (os_err, s)
init_tasklet s (some t) (some f) arg = (
  os_ok,
  record s {
    enabled = update s.enabled t false;
    scheduled = update s.scheduled t false;
    running = update s.running t false;
    func = update s.func t (some f);
    arg = update s.arg t arg;
    next = update s.next t none;
    prev = update s.prev t none;
  },
)

-- All bits of the status are 0: __RX_DISABLE_TASKLET.
abbrev is_disabled : Tasklets → ℕ → Bool
is_disabled s t = not (s.enabled t || s.scheduled t || s.running t)

-- `rx_enable_tasklet`
unfoldable enable_tasklet : Tasklets → Option ℕ → Tasklets
enable_tasklet s none = s
enable_tasklet s (some t) =
    if is_disabled s t then record s { enabled = update s.enabled t true } else s

-- The removal from the list of scheduled tasklets.
unfoldable unschedule : Tasklets → ℕ → Tasklets
unschedule s t =
    let s1 : Tasklets = elim (s.prev t) [
      | none ↦ elim (s.next t) [
        | none ↦ record s { head = none }
        | some n ↦ record s { head = some n; prev = update s.prev n none }
      ]
      | some p ↦ elim (s.next t) [
        | none ↦ record s { next = update s.next p none }
        | some n ↦ record s { next = update s.next p (some n); prev = update s.prev n (some p) }
      ]
    ] in
    record s1 { next = update s1.next t none; prev = update s1.prev t none }

-- `rx_disable_tasklet`
unfoldable pub disable_tasklet : Tasklets → Option ℕ → Tasklets
unfolding unschedule
disable_tasklet s none = s
disable_tasklet s (some t) =
    if is_disabled s t
    then s
    else (let s1 = if s.scheduled t then unschedule s t else s in
        record s1 {
          enabled = update s1.enabled t false;
          scheduled = update s1.scheduled t false;
          running = update s1.running t false;
        })

-- `rx_schedule_tasklet`
unfoldable pub schedule_tasklet : ℕ → Tasklets → Option ℕ → Run Tasklets
schedule_tasklet fuel s none = ok s
schedule_tasklet fuel s (some t) =
    if not (s.scheduled t) && s.enabled t
    then (let s1 = record s { scheduled = update s.scheduled t true } in
        elim s1.head [
          | none ↦ ok (record s1 { head = some t })
          | some h ↦ do
            ride ← last fuel s1.next h
            ok (record s1 {
              next = update s1.next ride (some t);
              prev = update s1.prev t (some ride);
            })
        ])
    else ok s

-- A function of a tasklet, by its address and the tasklet's data: it works on the memory `S` of the
-- application, and may schedule tasklets.
abbrev pub Function : Type 0 → Type 0
Function S = (func arg : ℕ) → S → Tasklets → Run (S × Tasklets)

-- One round of `rx_bh_thread`, after the wait for a tasklet; `call` runs its function.
unfoldable pub run_tasklet : {S : Type 0} → Function S → S → Tasklets → Run (S × Tasklets)
run_tasklet call m s = do
  run ← deref s.head
  f ← deref (s.func run)
  (m1, s1) ← call f (s.arg run) m (record s {
    head = s.next run;
    running = update s.running run true;
    scheduled = update s.scheduled run false;
  })
  ok (m1, record s1 { running = update s1.running run false })
