-- ===== src/Timer/Spec.antt =====
-- What the list of active timers promises: doubly linked, the timers in the order of expiry.
use rosx.Base.{
  ℕ, ◌≡◌, sym, Option, none, some, List, [], ◌∷◌, leb, update, update_ne, if◌then◌else◌,
}
use rosx.Base.Lists.{NotIn, Distinct}
use rosx.Base.Links.{IsList}
use rosx.Kernel.{Kernel}
use rosx.ReadyQueue.Spec.{IsSorted}

-- Before the first timer that does not expire earlier.
unfoldable pub insert : (ℕ → ℕ) → ℕ → List ℕ → List ℕ
insert expiry new [] = new ∷ []
insert expiry new (x ∷ xs) =
    if leb (expiry new) (expiry x) then new ∷ x ∷ xs else x ∷ insert expiry new xs

-- Each node of the list points back to the one before it, the first to `q`.
abbrev pub Backed : (ℕ → Option ℕ) → Option ℕ → List ℕ → Type 0
Backed pv q [] = Unit
Backed pv q (x ∷ xs) = (pv x ≡ q) × Backed pv (some x) xs

pub Backed-update :
    (pv : ℕ → Option ℕ) (q : Option ℕ) (xs : List ℕ) (p : ℕ) (v : Option ℕ)
    → NotIn p xs
    → Backed pv q xs
    → Backed (update pv p v) q xs
Backed-update pv q [] p v n b = tt
Backed-update pv q (x ∷ xs) p v n b =
    (rw (update_ne pv p x v (λ e. n.0 (sym e))) b.0, Backed-update pv (some x) xs p v n.1 b.1)

pub record IsTimers (k : Kernel) (xs : List ℕ) : Type 0 where
  pub linked : IsList k.timer_next k.active_timer_head xs
  pub backed : Backed k.timer_prev none xs
  pub distinct : Distinct xs
  pub sorted : IsSorted k.time_expiry xs
