-- ===== src/WaitQueue/Waits.antt =====
-- `__rx_add_to_wait_queue`: the running task joins a wait queue, and the queue the system's list.
use rosx.Base.{
  ℕ, zero, suc, ◌<◌, ◌≡◌, refl, sym, ap, ◌∙◌, ◌≢◌, ◌⊎◌, inl, inr, Option, none, some, List, [], ◌∷◌,
  ◌++◌, arith, subst, ◌==◌, ==→eq, ==→ne, ==_refl, ==_ne, update, update_self, update_ne,
  if◌then◌else◌, Bool-cases, ok, ◌>>=◌,
}
use rosx.Base.Int.{ℤ, pos}
use rosx.Base.Lists.{length, NotIn, Distinct, Apart}
use rosx.Base.Links.{IsList, AgreeOff}
use rosx.Kernel.{TaskState, Kernel}
use rosx.ReadyQueue.Spec.{IsReady}
use rosx.ReadyQueue.Park.{park_lem}
use rosx.WaitQueue.{WaitQueues, join, ride_to, start_timeout, add_to_wait_queue}

-- The list with `a` at its end, unless it is there already.
abbrev pub insert_end : ℕ → List ℕ → List ℕ
insert_end a [] = a ∷ []
insert_end a (x ∷ xs) = if x == a then x ∷ xs else x ∷ insert_end a xs

-- The walk finds the queue itself or the last of the list.
abbrev Rode : ℕ → (ℕ → Option ℕ) → (wq x : ℕ) → List ℕ → Type 0
Rode fuel nx wq x xs =
    (r : ℕ) × (ride_to fuel nx wq x ≡ ok r)
    × (((r ≡ wq) × (insert_end wq (x ∷ xs) ≡ x ∷ xs))
        ⊎ ((r ≢ wq)
            × IsList (update nx r (some wq)) (some x) (insert_end wq (x ∷ xs))
            × AgreeOff (x ∷ xs) nx (update nx r (some wq))))

ride_lem :
    (fuel : ℕ) (nx : ℕ → Option ℕ) (wq x : ℕ) (xs : List ℕ)
    → length xs < fuel
    → IsList nx (nx x) xs
    → Distinct (x ∷ xs)
    → (NotIn wq (x ∷ xs) → nx wq ≡ none)
    → Rode fuel nx wq x xs
unfolding ride_to
ride_lem zero nx wq x xs b l d e = absurd (omega arith)
ride_lem (suc f) nx wq x [] b l d e = elim (Bool-cases (x == wq)) [
  | inl hit ↦ (x, rw (l, ride_to) refl, inl (==→eq x wq hit, rw hit refl))
  | inr miss ↦
      let ne : x ≢ wq = ==→ne x wq miss in
      let back : wq ≢ x = λ q. ne (sym q) in
      (
        x,
        rw (l, ride_to) refl,
        inr (
          ne,
          rw miss
              (refl, (update_self nx x (some wq), update_ne nx x wq (some wq) back ∙ e (back, tt))),
          (λ q m. update_ne nx x q (some wq) m.0),
        ),
      )
]
ride_lem (suc f) nx wq x (y ∷ ys) b l d e = elim (Bool-cases (x == wq)) [
  | inl hit ↦ (x, rw (l.0, ride_to) (rw hit refl), inl (==→eq x wq hit, rw hit refl))
  | inr miss ↦
      let back : wq ≢ x = λ q. ==→ne x wq miss (sym q) in
      let (r, found, spot) = ride_lem f nx wq y ys (omega arith) l.1 d.1 (λ n. e (back, n)) in
      (
        r,
        rw (l.0, ride_to) (rw miss found),
        rw miss (elim spot [
          | inl same_list ↦ inl (same_list.0, ap (λ zs. x ∷ zs) same_list.1)
          | inr grown ↦ inr (
            grown.0,
            (
              refl,
              subst (λ o. IsList (update nx r (some wq)) o (insert_end wq (y ∷ ys)))
                  (sym (grown.2 x d.0 ∙ l.0)) grown.1,
            ),
            (λ q m. grown.2 q m.1),
          )
        ]),
      )
]

-- The wait queues that have a task, in the order of the system's list.
pub record IsQueues (w : WaitQueues) (qs : List ℕ) : Type 0 where
  pub linked : IsList w.next w.head qs
  pub distinct : Distinct qs

NotIn-insert_end : (a b : ℕ) (xs : List ℕ) → b ≢ a → NotIn b xs → NotIn b (insert_end a xs)
NotIn-insert_end a b [] ne n = (ne, tt)
NotIn-insert_end a b (x ∷ xs) ne n = elim (Bool-cases (x == a)) [
  | inl e ↦ rw e n
  | inr e ↦ rw e (n.0, NotIn-insert_end a b xs ne n.1)
]

Distinct-insert_end : (a : ℕ) (xs : List ℕ) → Distinct xs → Distinct (insert_end a xs)
Distinct-insert_end a [] d = (tt, tt)
Distinct-insert_end a (x ∷ xs) d = elim (Bool-cases (x == a)) [
  | inl e ↦ rw e d
  | inr e ↦ rw e (NotIn-insert_end a x xs (==→ne x a e) d.0, Distinct-insert_end a xs d.1)
]

-- What `join` leaves.
join_lem :
    (fuel : ℕ) (w : WaitQueues) (wq : ℕ) (qs : List ℕ)
    → length qs < suc fuel
    → IsQueues w qs
    → (NotIn wq qs → w.next wq ≡ none)
    → (w' : WaitQueues) × (join fuel w wq ≡ ok w')
      × IsQueues w' (insert_end wq qs)
      × (w'.task ≡ w.task)
unfolding join
join_lem fuel w wq [] b i e = (
  record w { head = some wq },
  rw (i.linked, join) refl,
  record { linked = (refl, e tt); distinct = (tt, tt) },
  refl,
)
join_lem fuel w wq (x ∷ xs) b i e =
    let head_x : w ≡ record w { head = some x } =
      ap (λ (o : Option ℕ). record w { head = o }) i.linked.0 in
    let (r, found, spot) = ride_lem fuel w.next wq x xs (omega arith) i.linked.1 i.distinct e in
    elim spot [
      | inl still ↦ (
        w,
        rw (i.linked.0, join) (rw found (rw (still.0, ==_refl wq) (ap ok head_x))),
        rw still.1 i,
        refl,
      )
      | inr grown ↦ (
        record w {
          next = update w.next r (some wq);
          prev = update w.prev wq (some r);
          head = some x;
        },
        ap (λ z. join fuel z wq) head_x ∙ rw found (rw (==_ne r wq grown.0) refl),
        record { linked = grown.1; distinct = Distinct-insert_end wq (x ∷ xs) i.distinct },
        refl,
      )
    ]

-- The wait up to its timer.
abbrev Parked :
    ℕ
    → WaitQueues
    → Kernel
    → (wq : ℕ) → TaskState
    → (ws xs qs : List ℕ) → WaitQueues
    → Kernel
    → Type 0
Parked fuel w k wq st ws xs qs w1 k1 =
    IsReady k1 xs
    × IsList k1.next (w1.task wq) (ws ++ k.curr ∷ [])
    × IsQueues w1 (insert_end wq qs)
    × AgreeOff (wq ∷ []) w.task w1.task
    × (k1 ≡ record k {
      state = update k.state k.curr st;
      wq = update k.wq k.curr (some wq);
      next = k1.next;
      ready_head = k1.ready_head;
    })
    × ((timeout : ℤ) (tm handler : ℕ)
        → add_to_wait_queue fuel w k wq st timeout tm handler
          ≡ (do k2 ← start_timeout fuel k1 timeout tm handler; ok (w1, k2)))

pub parked_lem :
    (fuel : ℕ) (w : WaitQueues) (k : Kernel) (wq : ℕ) (st : TaskState) (ws xs qs : List ℕ)
    → length (k.curr ∷ xs) < fuel
    → length ws < suc fuel
    → length qs < suc fuel
    → IsReady k (k.curr ∷ xs)
    → IsList k.next (w.task wq) ws
    → Distinct ws
    → Apart ws (k.curr ∷ xs)
    → IsQueues w qs
    → (NotIn wq qs → w.next wq ≡ none)
    → (w1 : WaitQueues) × (k1 : Kernel) × Parked fuel w k wq st ws xs qs w1 k1
unfolding add_to_wait_queue
parked_lem fuel w k wq st ws xs qs b c b' r l d a i e =
    let k0 : Kernel = record k {
      state = update k.state k.curr st;
      wq = update k.wq k.curr (some wq);
    } in
    let (first, hd, g, g', e1, e2, queue, dist, others) =
      park_lem fuel k0 (w.task wq) xs ws b c r.linked r.distinct l d a in
    let w0 : WaitQueues = record w { task = update w.task wq first } in
    let i0 : IsQueues w0 qs = record { linked = i.linked; distinct = i.distinct } in
    let (w1, e3, i1, tasks) = join_lem fuel w0 wq qs b' i0 e in
    let at_wq : w1.task wq ≡ first = ap (λ f. f wq) tasks ∙ update_self w.task wq first in
    (
      w1,
      record k0 { next = g'; ready_head = hd },
      (
        record { linked = others; distinct = r.distinct.1; sorted = r.sorted.1 },
        subst (λ o. IsList g' o (ws ++ k.curr ∷ [])) (sym at_wq) queue,
        i1,
        (λ q m. ap (λ f. f q) tasks ∙ update_ne w.task wq q first m.0),
        refl,
        (λ timeout tm handler. rw (e1, add_to_wait_queue) (rw e2 (rw e3 refl))),
      ),
    )

-- A task that waits without a timeout leaves the ready queue for the end of the wait queue, in the
-- state that it waits in, and the wait queue is at the end of the system's list, unless it was on
-- it; the other wait queues keep their heads.
pub add_to_wait_queue-parks :
    (fuel : ℕ) (w : WaitQueues) (k : Kernel) (wq : ℕ) (st : TaskState) (tm handler : ℕ)
    (ws xs qs : List ℕ)
    → length (k.curr ∷ xs) < fuel
    → length ws < suc fuel
    → length qs < suc fuel
    → IsReady k (k.curr ∷ xs)
    → IsList k.next (w.task wq) ws
    → Distinct ws
    → Apart ws (k.curr ∷ xs)
    → IsQueues w qs
    → (NotIn wq qs → w.next wq ≡ none)
    → (w' : WaitQueues) × (k' : Kernel) × (add_to_wait_queue fuel w k wq st (pos 0) tm handler
        ≡ ok (w', k'))
      × IsReady k' xs
      × IsList k'.next (w'.task wq) (ws ++ k.curr ∷ [])
      × IsQueues w' (insert_end wq qs)
      × (k'.state k.curr ≡ st)
      × (k'.wq k.curr ≡ some wq)
      × AgreeOff (wq ∷ []) w.task w'.task
unfolding start_timeout
add_to_wait_queue-parks fuel w k wq st tm handler ws xs qs b c b' r l d a i e =
    let (w1, k1, (ready, queue, queues, others, frame, run)) =
      parked_lem fuel w k wq st ws xs qs b c b' r l d a i e in
    (
      w1,
      k1,
      run (pos 0) tm handler,
      ready,
      queue,
      queues,
      ap (λ z. z.state k.curr) frame ∙ update_self k.state k.curr st,
      ap (λ z. z.wq k.curr) frame ∙ update_self k.wq k.curr (some wq),
      others,
    )
