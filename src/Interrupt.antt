-- ===== src/Interrupt.antt =====
-- kernel/rx_irq.c, and the interrupt entry of the simulator (arch/x86/x86_sim.c). `count` is the
-- port's CONFIG_IRQ_COUNT. `call` runs a handler; `S` is what handlers change.
pub mod Lines
pub mod Preempt
use rosx.Base.{
  ℕ, zero, suc, ◌+◌, ◌-◌, ◌/◌, ◌%◌, ◌^◌, Bool, true, false, ◌&&◌, ◌||◌, not, Option, none, some,
  List, [], ◌∷◌, ◌==◌, ltb, update, if◌then◌else◌, Run, ok, null_deref, ◌>>=◌,
}
use rosx.Kernel.{ready, Status, os_ok, os_err, e_os_unavail, Kernel}
use rosx.Sched.{sched}

-- `__rx_irq_pool`, field by field, and `__rx_raw_irq_counter`
pub record Irqs : Type 0 where
  pub devname : ℕ → List ℕ
  pub handler : ℕ → Option ℕ
  pub flags : ℕ → ℕ
  pub dev_id : ℕ → Option ℕ
  pub next : ℕ → Option ℕ
  pub raw_counter : ℕ

-- The entries of the pool.
abbrev pub pool_size : ℕ → ℕ
pool_size count = count - 1

-- RX_IRQF_SHARED
abbrev pub is_shared : ℕ → Bool
is_shared flags = flags / 4 % 2 == 1

abbrev is_null : Option ℕ → Bool
is_null none = true
is_null (some p) = false

-- The handler of a line is in place, or one that shares it.
abbrev pub is_taken : Irqs → ℕ → Bool
is_taken r irq = not (is_null (r.handler irq)) || not (is_null (r.next irq))

-- The first seven characters of a name; the eighth byte of the field is kept.
abbrev name_part : ℕ → List ℕ → List ℕ
name_part n [] = []
name_part zero (c ∷ cs) = []
name_part (suc n) (c ∷ cs) = c ∷ name_part n cs

-- `Init irq structure`
abbrev pub install : Irqs → (irq handler flags : ℕ) → (name : List ℕ) → (dev_id : Option ℕ) → Irqs
install r irq handler flags name dev_id = record r {
  handler = update r.handler irq (some handler);
  flags = update r.flags irq flags;
  devname = update r.devname irq (name_part 7 name);
  dev_id = update r.dev_id irq dev_id;
  next = update r.next irq none;
}

-- `rx_request_irq`
unfoldable pub request_irq :
    (count : ℕ)
    → Irqs
    → (irq handler flags : ℕ) → (name : List ℕ) → (dev_id : Option ℕ) → Status × Irqs
request_irq count r irq handler flags name dev_id =
    if ltb count irq
    then (os_err, r)
    else if is_taken r irq
    then (if not (is_shared flags) || is_null dev_id then (e_os_unavail, r) else (os_ok, r))
    else (os_ok, install r irq handler flags name dev_id)

-- `rx_free_irq`
unfoldable pub free_irq : (count : ℕ) → Irqs → (irq : ℕ) → Status × Irqs
free_irq count r irq =
    if ltb count irq
    then (e_os_unavail, r)
    else if is_shared (r.flags irq)
    then (os_ok, r)
    else (os_ok, record r { handler = update r.handler irq none })

-- `__rx_irq_handler`
unfoldable pub irq_handler :
    {S : Type 0}
    → ((handler irq : ℕ) → Option ℕ → S → Run S)
    → Irqs
    → (irq : ℕ) → S
    → Run (Irqs × S)
irq_handler call r irq s =
    let r1 = record r { raw_counter = (r.raw_counter + 1) % 2 ^ 32 } in
    if is_taken r irq
    then elim (r.handler irq) [
      | none ↦ null_deref
      | some f ↦ do s1 ← call f irq (r.dev_id irq) s; ok (r1, s1)
    ]
    else ok (r1, s)

-- `sig_handler` on SIGUSR1, with the number of the interrupt. The preempted task enters `rx_sched`
-- on its way back.
unfoldable pub sig_handler :
    {S : Type 0}
    → ((handler irq : ℕ) → Option ℕ → S × Kernel → Run (S × Kernel))
    → Irqs
    → (irq : ℕ) → S
    → Kernel
    → Run (Irqs × S × Kernel)
unfolding irq_handler
sig_handler call r irq s k = do
  let tcb = k.curr
  (r1, (s1, k1)) ← irq_handler call r irq (s, k)
  if k1.need_resched
      then (do
        k2 ← sched (record k1 { need_resched = false; state = update k1.state tcb ready })
        ok (r1, s1, k2))
      else ok (r1, s1, k1)
