-- ===== src/Timer/Add.antt =====
-- `__rx_add_to_active_timer_list` and the sorted insertion.
use rosx.Base.{
  ℕ, zero, suc, ◌+◌, ◌%◌, ◌^◌, ◌<◌, ◌≤◌, ◌≡◌, refl, sym, ap, ◌∙◌, ◌≢◌, inl, inr, true, Option, none,
  some, List, [], ◌∷◌, arith, leb, update, update_self, update_ne, Bool-cases, leb→le, leb→lt, Run,
  ok, ◌>>=◌,
}
use rosx.Base.Lists.{length, NotIn, Distinct}
use rosx.Base.Links.{AgreeOff, IsList-update}
use rosx.Kernel.{Kernel}
use rosx.ReadyQueue.Spec.{NoneAbove, IsSorted, NoneAbove-mono, IsSorted-update}
use rosx.Timer.{arm, timer_spot, place_timer, add_to_active}
use rosx.Timer.Spec.{insert, Backed-update, IsTimers}
use rosx.Timer.Insert.{front}

module _ (expiry : ℕ → ℕ) where
  NoneAbove-insert :
      (q new : ℕ) (xs : List ℕ)
      → q ≤ expiry new
      → NoneAbove expiry q xs
      → NoneAbove expiry q (insert expiry new xs)
  unfolding insert
  NoneAbove-insert q new [] h n = (h, tt)
  NoneAbove-insert q new (x ∷ xs) h n = elim (Bool-cases (leb (expiry new) (expiry x))) [
    | inl e ↦ rw e (h, n)
    | inr e ↦ rw e (n.0, NoneAbove-insert q new xs h n.1)
  ]

  IsSorted-insert :
      (new : ℕ) (xs : List ℕ) → IsSorted expiry xs → IsSorted expiry (insert expiry new xs)
  unfolding insert
  IsSorted-insert new [] s = (tt, tt)
  IsSorted-insert new (x ∷ xs) s = elim (Bool-cases (leb (expiry new) (expiry x))) [
    | inl e ↦
        let near : expiry new ≤ expiry x = leb→le _ _ e in
        rw e ((near, NoneAbove-mono expiry (expiry new) (expiry x) xs near s.0), s)
    | inr e ↦
        let past : expiry x < expiry new = leb→lt (expiry new) (expiry x) e in
        rw e (NoneAbove-insert (expiry x) new xs (omega arith) s.0, IsSorted-insert new xs s.1)
  ]

  NotIn-insert : (a new : ℕ) (xs : List ℕ) → a ≢ new → NotIn a xs → NotIn a (insert expiry new xs)
  unfolding insert
  NotIn-insert a new [] h n = (h, tt)
  NotIn-insert a new (x ∷ xs) h n = elim (Bool-cases (leb (expiry new) (expiry x))) [
    | inl e ↦ rw e (h, n)
    | inr e ↦ rw e (n.0, NotIn-insert a new xs h n.1)
  ]

  Distinct-insert :
      (new : ℕ) (xs : List ℕ) → NotIn new xs → Distinct xs → Distinct (insert expiry new xs)
  unfolding insert
  Distinct-insert new [] n d = (tt, tt)
  Distinct-insert new (x ∷ xs) n d = elim (Bool-cases (leb (expiry new) (expiry x))) [
    | inl e ↦ rw e (n, d)
    | inr e ↦ rw e (NotIn-insert x new xs (λ q. n.0 (sym q)) d.0, Distinct-insert new xs n.1 d.1)
  ]

-- The call, with the head of the list given.
abbrev entered : ℕ → Kernel → ℕ → Option ℕ → Run Kernel
entered fuel k p head = elim head [
  | none ↦ ok (record (arm k p) { active_timer_head = some p })
  | some h ↦ do
    spot ← timer_spot fuel (arm k p) ((arm k p).time_expiry p) h
    place_timer (arm k p) p spot
]

pub add_active_lem :
    (fuel : ℕ) (k : Kernel) (p : ℕ) (xs : List ℕ)
    → length xs < suc fuel
    → IsTimers k xs
    → NotIn p xs
    → (h : ℕ) × (nx pv : ℕ → Option ℕ) × (add_to_active fuel k p
        ≡ ok (record (arm k p) { timer_next = nx; timer_prev = pv; active_timer_head = some h }))
      × IsTimers
          (record (arm k p) { timer_next = nx; timer_prev = pv; active_timer_head = some h })
          (insert (arm k p).time_expiry p xs)
      × AgreeOff (p ∷ xs) k.timer_next nx
      × AgreeOff (p ∷ xs) k.timer_prev pv
unfolding add_to_active insert
add_active_lem fuel k p [] b r n = (
  p,
  update k.timer_next p none,
  update k.timer_prev p none,
  rw r.linked refl,
  record {
    linked = (refl, update_self k.timer_next p none);
    backed = (update_self k.timer_prev p none, tt);
    distinct = (tt, tt);
    sorted = (tt, tt);
  },
  (λ q m. update_ne k.timer_next p q none m.0),
  (λ q m. update_ne k.timer_prev p q none m.0),
)
add_active_lem zero k p (h ∷ xs) b r n = absurd (omega arith)
add_active_lem (suc f) k p (h ∷ xs) b r n =
    let k1 : Kernel = arm k p in
    let when : ℕ = (k.delay p + k.jiffies) % 2 ^ 32 in
    let r1 : IsTimers k1 (h ∷ xs) = record {
      linked = IsList-update k.timer_next k.active_timer_head (h ∷ xs) p none n r.linked;
      backed = Backed-update k.timer_prev none (h ∷ xs) p none n r.backed;
      distinct = r.distinct;
      sorted = IsSorted-update k.time_expiry p when (h ∷ xs) n r.sorted;
    } in
    let (spot, h', nx, pv, found, put, linked, backed, off, off') =
      front f k1 p h xs (omega arith) r1 n (update_self k.timer_next p none)
        (update_self k.timer_prev p none) in
    (
      h',
      nx,
      pv,
      ap (entered (suc f) k p) r.linked.0 ∙ rw found put,
      record {
        linked = linked;
        backed = backed;
        distinct = Distinct-insert k1.time_expiry p (h ∷ xs) n r1.distinct;
        sorted = IsSorted-insert k1.time_expiry p (h ∷ xs) r1.sorted;
      },
      (λ q m. off q m ∙ update_ne k.timer_next p q none m.0),
      (λ q m. off' q m ∙ update_ne k.timer_prev p q none m.0),
    )

-- Starting a timer that is not active enters it before the first timer that does not expire
-- earlier: the list stays doubly linked, without repetition and in the order of expiry. The timer
-- expires `delay` ticks from now, modulo 2^32, and is enabled; the ready queue is untouched.
pub add_to_active-refines :
    (fuel : ℕ) (k : Kernel) (p : ℕ) (xs : List ℕ)
    → length xs < suc fuel
    → IsTimers k xs
    → NotIn p xs
    → (k' : Kernel) × (add_to_active fuel k p ≡ ok k')
      × IsTimers k' (insert k'.time_expiry p xs)
      × (k'.time_expiry p ≡ (k.delay p + k.jiffies) % 2 ^ 32)
      × (k'.enabled p ≡ true)
      × (k'.ready_head ≡ k.ready_head)
      × (k'.next ≡ k.next)
add_to_active-refines fuel k p xs b r n =
    let (h, nx, pv, e, r', off, off') = add_active_lem fuel k p xs b r n in
    (
      record (arm k p) { timer_next = nx; timer_prev = pv; active_timer_head = some h },
      e,
      r',
      update_self k.time_expiry p ((k.delay p + k.jiffies) % 2 ^ 32),
      update_self k.enabled p true,
      refl,
      refl,
    )
