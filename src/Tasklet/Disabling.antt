-- ===== src/Tasklet/Disabling.antt =====
-- `rx_disable_tasklet` on the list of scheduled tasklets, which is doubly linked.
use rosx.Base.{
  ℕ, ◌≡◌, ◌≢◌, refl, sym, inl, inr, true, false, Option, none, some, List, [], ◌∷◌, ◌++◌, update,
  update_self, update_ne, Bool-cases, subst,
}
use mathlib.Core.List.{append-nil}
use rosx.Base.Lists.{NotIn, Distinct, NotIn-append_left, NotIn-append_right, Distinct-drop}
use rosx.Base.Links.{IsList, IsList-update}
use rosx.Timer.Spec.{Backed, Backed-update}
use rosx.Timer.Remove.{unlinked}
use rosx.Tasklet.{Tasklets, unschedule, disable_tasklet}
use rosx.Tasklet.Laws.{IsPending}

-- Cutting the last node off a doubly linked list.
cut_last :
    (nx pv : ℕ → Option ℕ) (h q : Option ℕ) (a : ℕ) (xs : List ℕ) (p : ℕ)
    → IsList nx h (a ∷ xs ++ p ∷ [])
    → Backed pv q (a ∷ xs ++ p ∷ [])
    → Distinct (a ∷ xs ++ p ∷ [])
    → (b : ℕ) × (pv p ≡ some b)
      × (nx p ≡ none)
      × IsList (update nx b none) h (a ∷ xs)
      × Backed pv q (a ∷ xs)
      × ((z : ℕ) → NotIn z (a ∷ xs) → z ≢ b)
cut_last nx pv h q a [] p l b d =
    (a, b.1.0, l.1.1, (l.0, update_self nx a none), (b.0, tt), (λ z n. n.0))
cut_last nx pv h q a (x ∷ xs) p l b d =
    let (c, back, end, linked, backed, apart) = cut_last nx pv (nx a) (some a) x xs p l.1 b.1 d.1 in
    let ne : a ≢ c = apart a (NotIn-append_left a (x ∷ xs) (p ∷ []) d.0) in
    (c, back, end, (l.0, rw (update_ne nx c a none ne) linked), (b.0, backed), (λ z n. apart z n.1))

-- The tasklet that is gone from a list that holds it once.
gone : (t : ℕ) (xs ys : List ℕ) → Distinct (xs ++ t ∷ ys) → NotIn t (xs ++ ys)
gone t [] ys d = d.0
gone t (x ∷ xs) ys d =
    let apart : NotIn x (t ∷ ys) = NotIn-append_right x xs (t ∷ ys) d.0 in
    ((λ e. apart.0 (sym e)), gone t xs ys d.1)

-- The scheduled tasklets with their links in both directions.
abbrev pub IsChain : Tasklets → List ℕ → Type 0
IsChain s ts = IsPending s ts × Backed s.prev none ts

-- What the removal leaves of the list.
unschedule_lem :
    (s : Tasklets) (t : ℕ) (xs ys : List ℕ)
    → IsChain s (xs ++ t ∷ ys)
    → (h : Option ℕ) × (nx pv : ℕ → Option ℕ) × (unschedule s t
        ≡ record s { head = h; next = update nx t none; prev = update pv t none })
      × IsList nx h (xs ++ ys)
      × Backed pv none (xs ++ ys)
unfolding unschedule
unschedule_lem s t [] [] (p, b) = (none, s.next, s.prev, simp (b.0, p.linked.1) refl, refl, tt)
unschedule_lem s t [] (y ∷ ys) (p, b) = (
  some y,
  s.next,
  update s.prev y none,
  simp (b.0, p.linked.1.0) refl,
  (refl, p.linked.1.1),
  (update_self s.prev y none, Backed-update s.prev (some y) ys y none p.distinct.1.0 b.1.1),
)
unschedule_lem s t (x ∷ xs) [] (p, b) =
    let (c, back, end, linked, backed, apart) =
      cut_last s.next s.prev s.head none x xs t p.linked b p.distinct in
    let nx : ℕ → Option ℕ = update s.next c none in
    let whole : x ∷ xs ≡ (x ∷ xs) ++ [] = sym (append-nil (x ∷ xs)) in
    (
      s.head,
      nx,
      s.prev,
      simp (back, end) refl,
      subst (λ zs. IsList nx s.head zs) whole linked,
      subst (λ zs. Backed s.prev none zs) whole backed,
    )
unschedule_lem s t (x ∷ xs) (y ∷ ys) (p, b) =
    let (c, back, on, ne, linked, backed, apart) =
      unlinked s.next s.prev s.head none x xs t y ys p.linked b p.distinct in
    (
      s.head,
      update s.next c (some y),
      update s.prev y (some c),
      simp (back, on) refl,
      linked,
      backed,
    )

disable_lem :
    (s : Tasklets) (t : ℕ) (h : Option ℕ) (nx pv : ℕ → Option ℕ)
    → s.scheduled t ≡ true
    → unschedule s t ≡ record s { head = h; next = nx; prev = pv }
    → disable_tasklet s (some t) ≡ record s {
      head = h;
      next = nx;
      prev = pv;
      enabled = update s.enabled t false;
      scheduled = update s.scheduled t false;
      running = update s.running t false;
    }
unfolding disable_tasklet
disable_lem s t h nx pv on cut = elim (Bool-cases (s.enabled t)) [
  | inl e ↦ simp (e, on, cut) refl
  | inr e ↦ simp (e, on, cut) refl
]

-- While the scheduled tasklets are linked in both directions, the first of them back to NULL, a
-- tasklet of the list that is marked as scheduled is taken off it when it is disabled, wherever it
-- stands: the others stay on the list, in their order, linked in both directions. The tasklet is
-- neither enabled nor scheduled any more, and its links are NULL.
pub disable_tasklet-removes :
    (s : Tasklets) (t : ℕ) (xs ys : List ℕ)
    → IsChain s (xs ++ t ∷ ys)
    → s.scheduled t ≡ true
    → IsChain (disable_tasklet s (some t)) (xs ++ ys)
      × ((disable_tasklet s (some t)).enabled t ≡ false)
      × ((disable_tasklet s (some t)).scheduled t ≡ false)
      × ((disable_tasklet s (some t)).next t ≡ none)
      × ((disable_tasklet s (some t)).prev t ≡ none)
disable_tasklet-removes s t xs ys chain on =
    let (h, nx, pv, cut, linked, backed) = unschedule_lem s t xs ys chain in
    let away : NotIn t (xs ++ ys) = gone t xs ys chain.0.distinct in
    let left : Tasklets = record s {
      head = h;
      next = update nx t none;
      prev = update pv t none;
      enabled = update s.enabled t false;
      scheduled = update s.scheduled t false;
      running = update s.running t false;
    } in
    let run : disable_tasklet s (some t) ≡ left =
      disable_lem s t h (update nx t none) (update pv t none) on cut in
    rw run (
      (
        record {
          linked = IsList-update nx h (xs ++ ys) t none away linked;
          distinct = Distinct-drop xs t ys chain.0.distinct;
        },
        Backed-update pv none (xs ++ ys) t none away backed,
      ),
      update_self s.enabled t false,
      update_self s.scheduled t false,
      update_self nx t none,
      update_self pv t none,
    )

-- `rx_bh_thread` takes the first tasklet off without clearing the back link of the next one. When
-- that one is disabled then, it stays at the front of the list, marked as not scheduled, and
-- the tasklets behind it are lost.
disable_tasklet-keeps :
    (s : Tasklets) (t a : ℕ) (ts : List ℕ)
    → IsPending s (t ∷ ts)
    → s.prev t ≡ some a
    → s.scheduled t ≡ true
    → ((disable_tasklet s (some t)).head ≡ some t)
      × ((disable_tasklet s (some t)).scheduled t ≡ false)
      × ((disable_tasklet s (some t)).next t ≡ none)
unfolding unschedule
disable_tasklet-keeps s t a [] p back on =
    let nx : ℕ → Option ℕ = update s.next a none in
    rw
      (disable_lem s t s.head (update nx t none) (update s.prev t none) on
        (simp (back, p.linked.1) refl))
      (p.linked.0, update_self s.scheduled t false, update_self nx t none)
disable_tasklet-keeps s t a (y ∷ ys) p back on =
    let nx : ℕ → Option ℕ = update s.next a (some y) in
    let pv : ℕ → Option ℕ = update s.prev y (some a) in
    rw
      (disable_lem s t s.head (update nx t none) (update pv t none) on
        (simp (back, p.linked.1.0) refl))
      (p.linked.0, update_self s.scheduled t false, update_self nx t none)
