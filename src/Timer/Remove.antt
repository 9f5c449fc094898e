-- ===== src/Timer/Remove.antt =====
-- `__rx_remove_from_timer_list` at the head, in the middle and at the end of the list.
use rosx.Base.{
  ℕ, ◌≡◌, refl, sym, ap, ◌∙◌, ◌≢◌, inl, inr, Option, none, some, List, [], ◌∷◌, ◌++◌, ◌==◌, update,
  if◌then◌else◌, update_self, update_ne, Bool-cases, ==_ne, ==_refl, Run, ok, null_deref,
}
use rosx.Base.Lists.{NotIn, Distinct, NotIn-append_left, NotIn-append_right, Distinct-drop}
use rosx.Base.Links.{IsList, IsList-update}
use rosx.Kernel.{Kernel}
use rosx.ReadyQueue.Spec.{IsSorted-drop}
use rosx.Timer.{remove_from_active}
use rosx.Timer.Spec.{Backed, Backed-update, IsTimers}

-- The first timer of the list is taken off, also when it is the only one.
pub remove_from_active-head :
    (k : Kernel) (p : ℕ) (xs : List ℕ)
    → IsTimers k (p ∷ xs)
    → (k' : Kernel) × (remove_from_active k p ≡ ok k')
      × IsTimers k' xs
      × (k' ≡ record k { active_timer_head = k'.active_timer_head; timer_prev = k'.timer_prev })
unfolding remove_from_active
remove_from_active-head k p [] r = (
  record k { active_timer_head = none },
  rw r.linked.0 (rw (==_refl p, r.linked.1) refl),
  record { linked = refl; backed = tt; distinct = tt; sorted = tt },
  refl,
)
remove_from_active-head k p (y ∷ ys) r = (
  record k { active_timer_head = some y; timer_prev = update k.timer_prev y none },
  rw r.linked.0 (rw (==_refl p, r.linked.1.0) refl),
  record {
    linked = (refl, r.linked.1.1);
    backed = (
      update_self k.timer_prev y none,
      Backed-update k.timer_prev (some y) ys y none r.distinct.1.0 r.backed.1.1,
    );
    distinct = r.distinct.1;
    sorted = r.sorted.1;
  },
  refl,
)

-- A timer is last on the list behind a given node.
links_of_last :
    (nx pv : ℕ → Option ℕ) (h : Option ℕ) (q : Option ℕ) (a : ℕ) (xs : List ℕ) (p : ℕ)
    → IsList nx h (a ∷ xs ++ p ∷ [])
    → Backed pv q (a ∷ xs ++ p ∷ [])
    → (b : ℕ) × (nx p ≡ none) × (pv p ≡ some b)
links_of_last nx pv h q a [] p l b = (a, l.1.1, b.1.0)
links_of_last nx pv h q a (x ∷ xs) p l b = links_of_last nx pv (nx a) (some a) x xs p l.1 b.1

-- Removing the last of two or more timers writes through a NULL pointer: `p->next->prev`.
remove_from_active-last_faults :
    (k : Kernel) (h p : ℕ) (xs : List ℕ)
    → IsTimers k (h ∷ xs ++ p ∷ [])
    → h ≢ p
    → remove_from_active k p ≡ null_deref
unfolding remove_from_active
remove_from_active-last_faults k h p xs r ne =
    let (b, end, back) =
      links_of_last k.timer_next k.timer_prev k.active_timer_head none h xs p r.linked r.backed in
    let still : update k.timer_next b (k.timer_next p) p ≡ none = elim (Bool-cases (p == b)) [
      | inl e ↦ rw e end
      | inr e ↦ rw e end
    ] in
    rw r.linked.0 (rw (==_ne h p ne, back) (rw still refl))

-- Taking a node out of the middle of a doubly linked list.
pub unlinked :
    (nx pv : ℕ → Option ℕ) (h q : Option ℕ) (a : ℕ) (xs : List ℕ) (p c : ℕ) (ys : List ℕ)
    → IsList nx h (a ∷ xs ++ p ∷ c ∷ ys)
    → Backed pv q (a ∷ xs ++ p ∷ c ∷ ys)
    → Distinct (a ∷ xs ++ p ∷ c ∷ ys)
    → (b : ℕ) × (pv p ≡ some b)
      × (nx p ≡ some c)
      × (b ≢ p)
      × IsList (update nx b (some c)) h (a ∷ xs ++ c ∷ ys)
      × Backed (update pv c (some b)) q (a ∷ xs ++ c ∷ ys)
      × ((z : ℕ) → NotIn z (a ∷ xs) → z ≢ b)
unlinked nx pv h q a [] p c ys l b d = (
  a,
  b.1.0,
  l.1.1.0,
  d.0.0,
  (
    l.0,
    (
      update_self nx a (some c),
      rw (update_ne nx a c (some c) (λ e. d.0.1.0 (sym e)))
          (IsList-update nx (nx c) ys a (some c) d.0.1.1 l.1.1.1),
    ),
  ),
  (
    update_ne pv c a (some a) d.0.1.0 ∙ b.0,
    (update_self pv c (some a), Backed-update pv (some c) ys c (some a) d.1.1.0 b.1.1.1),
  ),
  (λ z m. m.0),
)
unlinked nx pv h q a (x ∷ xs) p c ys l b d =
    let (e, back, fore, ne, linked, backed, other) =
      unlinked nx pv (nx a) (some a) x xs p c ys l.1 b.1 d.1 in
    let far : a ≢ c = (NotIn-append_right a (x ∷ xs) (p ∷ c ∷ ys) d.0).1.0 in
    (
      e,
      back,
      fore,
      ne,
      (
        l.0,
        rw (update_ne nx e a (some c) (other a (NotIn-append_left a (x ∷ xs) (p ∷ c ∷ ys) d.0)))
            linked,
      ),
      (update_ne pv c a (some e) far ∙ b.0, backed),
      (λ z m. other z m.1),
    )

-- The call, with the head of the list given.
abbrev removed : Kernel → ℕ → Option ℕ → Run Kernel
removed k p head = elim head [
  | none ↦ ok k
  | some h ↦
      if h == p
      then elim (k.timer_next p) [
        | none ↦ ok (record k { active_timer_head = none })
        | some n ↦
            ok (record k { active_timer_head = some n; timer_prev = update k.timer_prev n none })
      ]
      else elim (k.timer_prev p) [
        | none ↦ null_deref
        | some q ↦ elim (update k.timer_next q (k.timer_next p) p) [
          | none ↦ null_deref
          | some n ↦ ok (record k {
            timer_next = update k.timer_next q (k.timer_next p);
            timer_prev = update k.timer_prev n (k.timer_prev p);
          })
        ]
      ]
]

-- A timer between two others is taken off the list, and the rest stays as it was.
pub remove_from_active-middle :
    (k : Kernel) (h : ℕ) (xs : List ℕ) (p c : ℕ) (ys : List ℕ)
    → IsTimers k (h ∷ xs ++ p ∷ c ∷ ys)
    → (k' : Kernel) × (remove_from_active k p ≡ ok k')
      × IsTimers k' (h ∷ xs ++ c ∷ ys)
      × (k'.next ≡ k.next)
unfolding remove_from_active
remove_from_active-middle k h xs p c ys r =
    let (b, back, fore, ne, linked, backed, other) =
      unlinked k.timer_next k.timer_prev k.active_timer_head none h xs p c ys r.linked r.backed
        r.distinct in
    let not_head : h ≢ p = (NotIn-append_right h xs (p ∷ c ∷ ys) r.distinct.0).0 in
    let at_p : update k.timer_next b (k.timer_next p) p ≡ some c =
      update_ne k.timer_next b p (k.timer_next p) (λ e. ne (sym e)) ∙ fore in
    (
      record k {
        timer_next = update k.timer_next b (some c);
        timer_prev = update k.timer_prev c (some b);
      },
      ap (removed k p) r.linked.0
          ∙ rw (==_ne h p not_head) (
              rw back (
                rw at_p (
                  rw fore (
                    ap
                      (λ v. ok (record k {
                        timer_next = update k.timer_next b (some c);
                        timer_prev = update k.timer_prev c v;
                      }))
                      back)))),
      record {
        linked = linked;
        backed = backed;
        distinct = Distinct-drop (h ∷ xs) p (c ∷ ys) r.distinct;
        sorted = IsSorted-drop k.time_expiry (h ∷ xs) p (c ∷ ys) r.sorted;
      },
      refl,
    )
