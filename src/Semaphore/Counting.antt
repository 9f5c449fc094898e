-- ===== src/Semaphore/Counting.antt =====
-- The count of a semaphore and its wait queue.
use rosx.Base.{
  ℕ, suc, ◌<◌, ◌≡◌, refl, sym, ap, ◌∙◌, false, Option, none, some, List, [], ◌∷◌, ◌++◌, arith,
  subst, update, update_self, Run, ok, ◌>>=◌,
}
use rosx.Base.Int.{ℤ, pos, negsuc, inc, dec, neg_part}
use rosx.Base.Lists.{length, length-append, Distinct, Apart, Apart-cons}
use rosx.Base.Links.{IsList, IsList-agree}
use rosx.Kernel.{suspend, ready, os_ok, e_os_unavail, timer_off, Kernel, Status}
use rosx.ReadyQueue.{add_to_ready_q}
use rosx.ReadyQueue.Spec.{insert, IsReady}
use rosx.ReadyQueue.Add.{add_to_ready_q-refines}
use rosx.ReadyQueue.Park.{park_lem}
use rosx.Sched.Laws.{sched-most_urgent}
use rosx.Semaphore.{Semaphore, enqueue, post, wait, nonneg, returns, sleeps}

-- A negative count is the number of the waiting tasks, which are `ws`, in the order of arrival.
pub record IsCounted (s : Semaphore) (k : Kernel) (ws : List ℕ) : Type 0 where
  pub counted : neg_part s.curr_val ≡ length ws
  pub linked : IsList k.next s.task ws
  pub distinct : Distinct ws

-- The running task goes from the ready queue to the end of the wait queue.
enqueue_lem :
    (fuel sem : ℕ) (s : Semaphore) (k : Kernel) (xs ws : List ℕ)
    → length (k.curr ∷ xs) < fuel
    → length ws < suc fuel
    → IsReady k (k.curr ∷ xs)
    → IsList k.next s.task ws
    → Distinct ws
    → Apart ws (k.curr ∷ xs)
    → (head hd : Option ℕ) × (g : ℕ → Option ℕ) × (enqueue fuel sem s k
        ≡ ok (
          record s { task = head },
          record k {
            next = g;
            ready_head = hd;
            state = update k.state k.curr suspend;
            sem = update k.sem k.curr (some sem);
            timeout = update k.timeout k.curr timer_off;
          },
        ))
      × IsList g head (ws ++ k.curr ∷ [])
      × Distinct (ws ++ k.curr ∷ [])
      × IsList g hd xs
unfolding enqueue
enqueue_lem fuel sem s k xs ws b c r l d a =
    let (head, hd, g, g', e, e', queue, distinct, others) =
      park_lem fuel
        (record k {
          state = update k.state k.curr suspend;
          sem = update k.sem k.curr (some sem);
          timeout = update k.timeout k.curr timer_off;
        })
        s.task xs ws b c r.linked r.distinct l d a in
    (head, hd, g', rw (e, e') refl, queue, distinct, others)

neg_part-dec : (v : ℤ) → nonneg (dec v) ≡ false → neg_part (dec v) ≡ suc (neg_part v)
unfolding dec
neg_part-dec v h = ground arith

-- A task that waits for ever on a semaphore whose count is used up joins the end of the wait
-- queue, the count goes on telling the number of waiting tasks, and the next ready task runs.
pub wait-sleeps :
    (fuel sem : ℕ) (s : Semaphore) (k : Kernel) (n tm handler y : ℕ) (ys ws : List ℕ)
    → length (k.curr ∷ y ∷ ys) < fuel
    → length ws < suc fuel
    → IsReady k (k.curr ∷ y ∷ ys)
    → IsCounted s k ws
    → Apart ws (k.curr ∷ y ∷ ys)
    → nonneg (dec s.curr_val) ≡ false
    → (s' : Semaphore) × (k' : Kernel) × (wait fuel sem s k (negsuc n) tm handler
        ≡ ok (sleeps, s', k'))
      × IsCounted s' k' (ws ++ k.curr ∷ [])
      × IsReady k' (y ∷ ys)
      × (k'.curr ≡ y)
      × (k'.state k.curr ≡ suspend)
      × (k'.sem k.curr ≡ some sem)
unfolding wait
wait-sleeps fuel sem s k n tm handler y ys ws b c r w a neg =
    let (head, hd, g, e, queue, distinct, others) =
      enqueue_lem fuel sem (record s { curr_val = dec s.curr_val }) k (y ∷ ys) ws b c r w.linked
        w.distinct a in
    let k1 : Kernel = record k {
      next = g;
      ready_head = hd;
      state = update k.state k.curr suspend;
      sem = update k.sem k.curr (some sem);
      timeout = update k.timeout k.curr timer_off;
    } in
    let r1 : IsReady k1 (y ∷ ys) = record {
      linked = others;
      distinct = r.distinct.1;
      sorted = r.sorted.1;
    } in
    let (k', e', runs, urgent, r', switched, frame, states) = sched-most_urgent k1 y ys r1 in
    let more : neg_part (dec s.curr_val) ≡ length (ws ++ k.curr ∷ []) =
      omega (arith, neg_part-dec s.curr_val neg, w.counted, length-append ws (k.curr ∷ [])) in
    (
      record s { curr_val = dec s.curr_val; task = head },
      k',
      rw neg (rw (e, e') refl),
      record {
        counted = more;
        linked =
            subst (λ f. IsList f head (ws ++ k.curr ∷ [])) (sym (ap (λ q. q.next) frame)) queue;
        distinct = distinct;
      },
      r',
      runs,
      states k.curr r.distinct.0.0 ∙ update_self k.state k.curr suspend,
      ap (λ q. q.sem k.curr) frame ∙ update_self k.sem k.curr (some sem),
    )

pub neg_part-inc : (v : ℤ) (n : ℕ) → neg_part v ≡ suc n → neg_part (inc v) ≡ n
unfolding inc
neg_part-inc v n h = ground arith

-- A post with tasks waiting hands over to the one that has waited longest: it is ready, in the
-- ready queue by its priority, and the others wait on.
pub post-wakes_oldest :
    (fuel : ℕ) (s : Semaphore) (k : Kernel) (t : ℕ) (ws xs : List ℕ)
    → length xs < fuel
    → IsReady k xs
    → IsCounted s k (t ∷ ws)
    → Apart (t ∷ ws) xs
    → (s' : Semaphore) × (k' : Kernel) × (post fuel s k ≡ ok (os_ok, s', k'))
      × IsCounted s' k' ws
      × IsReady k' (insert k.prio t xs)
      × (k'.state t ≡ ready)
      × (k'.sem t ≡ none)
unfolding post
post-wakes_oldest fuel s k t ws xs b r w a =
    let k0 : Kernel = record k { state = update k.state t ready; sem = update k.sem t none } in
    let r0 : IsReady k0 xs = record {
      linked = r.linked;
      distinct = r.distinct;
      sorted = r.sorted;
    } in
    let (k', e, r', off, frame) =
      add_to_ready_q-refines fuel k0 t xs b r0 a.0 (rw (update_self k.state t ready) refl) in
    (
      record s { task = k.next t; curr_val = inc s.curr_val },
      k',
      rw w.linked.0 (rw e refl),
      record {
        counted = neg_part-inc s.curr_val (length ws) w.counted;
        linked =
            IsList-agree k.next k'.next (k.next t) (t ∷ xs) ws off
              (Apart-cons t ws xs w.distinct.0 a.1) w.linked.1;
        distinct = w.distinct.1;
      },
      r',
      ap (λ q. q.state t) frame ∙ update_self k.state t ready,
      ap (λ q. q.sem t) frame ∙ update_self k.sem t none,
    )

dec_pos : (n : ℕ) → dec (pos (suc n)) ≡ pos n
unfolding dec
dec_pos n = ground arith

-- While the count is positive a wait takes one unit and returns at once, whatever its timeout.
wait-takes_unit :
    (fuel sem : ℕ) (s : Semaphore) (k : Kernel) (timeout : ℤ) (tm handler n : ℕ)
    → s.curr_val ≡ pos (suc n)
    → wait fuel sem s k timeout tm handler ≡ ok (returns os_ok, record s { curr_val = pos n }, k)
unfolding wait
wait-takes_unit fuel sem s k timeout tm handler n e =
    let step : dec s.curr_val ≡ pos n = ap dec e ∙ dec_pos n in rw step refl

-- The call, with the head of the wait queue given.
abbrev posted : ℕ → Semaphore → Kernel → Option ℕ → Run (Status × Semaphore × Kernel)
posted fuel s k head = elim head [
  | none ↦ ok (os_ok, s, k)
  | some t ↦ do
    (_, k1) ←
        add_to_ready_q fuel (record k { state = update k.state t ready; sem = update k.sem t none })
          t
    ok (os_ok, record s { task = k.next t; curr_val = inc s.curr_val }, k1)
]

-- With no task waiting a post is lost: after the last unit was taken and posted again, a wait
-- that may not block still finds nothing, and the semaphore and the kernel are as before it.
pub post-lost :
    (fuel sem : ℕ) (s : Semaphore) (k : Kernel) (timeout : ℤ) (tm handler : ℕ)
    → s.curr_val ≡ pos 1
    → s.task ≡ none
    → let s0 = record s { curr_val = pos 0 } in
      (wait fuel sem s k timeout tm handler ≡ ok (returns os_ok, s0, k))
      × (post fuel s0 k ≡ ok (os_ok, s0, k))
      × (wait fuel sem s0 k (pos 0) tm handler ≡ ok (returns e_os_unavail, s0, k))
unfolding wait post dec inc
post-lost fuel sem s k timeout tm handler one idle = (
  wait-takes_unit fuel sem s k timeout tm handler 0 one,
  ap (posted fuel (record s { curr_val = pos 0 }) k) idle,
  refl,
)
