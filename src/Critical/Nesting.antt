-- ===== src/Critical/Nesting.antt =====
-- Critical sections one inside the other.
use rosx.Base.{ℕ, zero, suc, ◌≡◌, refl, ap, ◌∙◌, Bool, true, false, List, [], ◌∷◌, ◌++◌}
use rosx.Critical.{
  Masks, Action, enter, leave, work, disable_irq_global, restore_irq_global, run_code,
}

abbrev pub times : {A : Type 0} → ℕ → A → List A
times zero a = []
times (suc n) a = a ∷ times n a

-- Work leaves the masks, and is as safe as they are.
run_code-work :
    (n : ℕ) (m : Masks) (code : List Action)
    → run_code m (times n work ++ code)
      ≡ (times n m.blocked ++ (run_code m code).0, (run_code m code).1)
unfolding run_code
run_code-work zero m code = refl
run_code-work (suc n) m code =
    ap (λ (r : List Bool × Masks). (m.blocked ∷ r.0, r.1)) (run_code-work n m code)

-- Outside of interrupts and of critical sections.
abbrev pub open_masks : Masks
open_masks = record { in_irq = false; critical = false; blocked = false; orig_blocked = false }

-- Interrupts are blocked during a section that has none inside it, and let in again behind it.
run_code-flat :
    (n : ℕ)
    → run_code open_masks (enter ∷ times n work ++ leave ∷ []) ≡ (times n true ++ [], open_masks)
unfolding run_code disable_irq_global restore_irq_global
run_code-flat n = run_code-work n (disable_irq_global open_masks) (leave ∷ [])

-- A section inside another one ends both: the work that the outer section does before the inner
-- one and in it is protected from interrupts, what it does behind it is not.
pub run_code-nested :
    (a b c : ℕ)
    → run_code open_masks (
        enter
        ∷ (times a work ++ (enter ∷ (times b work ++ (leave ∷ (times c work ++ leave ∷ []))))))
      ≡ (times a true ++ (times b true ++ (times c false ++ [])), open_masks)
unfolding run_code disable_irq_global restore_irq_global
run_code-nested a b c =
    let closed : Masks = disable_irq_global open_masks in
    let inner : List Action = leave ∷ (times c work ++ leave ∷ []) in
    run_code-work a closed (enter ∷ (times b work ++ inner))
    ∙ ap (before (times a true)) (
        run_code-work b closed inner
        ∙ ap (before (times b true)) (run_code-work c open_masks (leave ∷ [])))
  where
    before : List Bool → List Bool × Masks → List Bool × Masks
    before safe r = (safe ++ r.0, r.1)
