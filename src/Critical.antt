-- ===== src/Critical.antt =====
-- Critical sections of the simulator's port: `__disable_irq_global` and `__restore_irq_global` of
-- arch/x86/osport.c, which `rx_enter_critical` and `rx_leavecritical` stand for. The calls of
-- `sigprocmask` succeed; `blocked` says whether the simulated interrupt is in the process's mask.
pub mod Nesting
use rosx.Base.{Bool, true, false, ◌||◌, not, List, [], ◌∷◌, if◌then◌else◌}

-- `__context` is __IRQ, `__critical`, the mask of the process, and `orig_mask`.
pub record Masks : Type 0 where
  pub in_irq : Bool
  pub critical : Bool
  pub blocked : Bool
  pub orig_blocked : Bool

-- `__disable_irq_global`
unfoldable pub disable_irq_global : Masks → Masks
disable_irq_global m =
    if m.in_irq || m.critical
    then m
    else record m { blocked = true; orig_blocked = m.blocked; critical = true }

-- `__restore_irq_global`
unfoldable pub restore_irq_global : Masks → Masks
restore_irq_global m =
    if m.in_irq || not m.critical
    then m
    else record m { blocked = m.orig_blocked; critical = false }

-- What code does: it enters and exits critical sections, and works on shared data between.
pub data Action : Type 0 where
  enter leave work : Action

-- The run of a piece of code: for each piece of work, whether interrupts were blocked during it,
-- and the masks at the end.
unfoldable pub run_code : Masks → List Action → List Bool × Masks
unfolding disable_irq_global restore_irq_global
run_code m [] = ([], m)
run_code m (enter ∷ code) = run_code (disable_irq_global m) code
run_code m (leave ∷ code) = run_code (restore_irq_global m) code
run_code m (work ∷ code) = let (safe, end) = run_code m code in (m.blocked ∷ safe, end)
