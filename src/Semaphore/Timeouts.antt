-- ===== src/Semaphore/Timeouts.antt =====
-- The timeout of a wait: `__rx_sem_handler`, and what the wait then returns.
use rosx.Base.{ℕ, suc, ◌<◌, ◌≡◌, refl, sym, ap, ◌∙◌, none, some, List, ◌∷◌, update, update_self, ok}
use rosx.Base.Int.{inc}
use rosx.Base.Lists.{
  length, Apart, Apart-sym, Apart-cons, erase, In, length-erase_of_In, NotIn-Apart, Apart-erase,
  NotIn-erase_self, Distinct-erase,
}
use rosx.Base.Links.{IsList-agree, unhook_lem}
use rosx.Kernel.{ready, timed_out, Kernel}
use rosx.ReadyQueue.Spec.{insert, IsReady}
use rosx.ReadyQueue.Add.{add_to_ready_q-refines}
use rosx.Semaphore.{Semaphore, sem_handler}
use rosx.Semaphore.Counting.{IsCounted, neg_part-inc}

-- When its timer expires a waiting task leaves the wait queue wherever it stands there, the count
-- is put right, and the task is ready, with the timeout noted.
pub sem_handler-gives_up :
    (fuel sem : ℕ) (s : Semaphore) (k : Kernel) (t : ℕ) (ws xs : List ℕ)
    → length ws < suc fuel
    → length xs < fuel
    → k.sem t ≡ some sem
    → In t ws
    → IsReady k xs
    → IsCounted s k ws
    → Apart ws xs
    → (s' : Semaphore) × (k' : Kernel) × (sem_handler fuel s k t ≡ ok (s', k'))
      × IsCounted s' k' (erase t ws)
      × IsReady k' (insert k.prio t xs)
      × (k'.state t ≡ ready)
      × (k'.timeout t ≡ timed_out)
      × (k'.sem t ≡ none)
      × (k'.timer t ≡ none)
unfolding sem_handler
sem_handler-gives_up fuel sem s k t ws xs b c waits i r w a =
    let (head, g, e, queue, off) = unhook_lem fuel k.next s.task t ws b w.linked w.distinct i in
    let k0 : Kernel = record k {
      next = g;
      timer = update k.timer t none;
      timeout = update k.timeout t timed_out;
      state = update k.state t ready;
    } in
    let r0 : IsReady k0 xs = record {
      linked = IsList-agree k.next g k.ready_head ws xs off (Apart-sym ws xs a) r.linked;
      distinct = r.distinct;
      sorted = r.sorted;
    } in
    let (k1, e1, r1, off1, frame) =
      add_to_ready_q-refines fuel k0 t xs c r0 (NotIn-Apart t ws xs i a)
        (rw (update_self k.state t ready) refl) in
    (
      record s { task = head; curr_val = inc s.curr_val },
      record k1 { sem = update k1.sem t none },
      rw (waits, sem_handler) (rw (e, e1) refl),
      record {
        counted =
            neg_part-inc s.curr_val (length (erase t ws))
              (w.counted ∙ sym (length-erase_of_In t ws i));
        linked =
            IsList-agree g k1.next head (t ∷ xs) (erase t ws) off1
              (Apart-cons t (erase t ws) xs (NotIn-erase_self t ws w.distinct)
                (Apart-erase t ws xs a))
              queue;
        distinct = Distinct-erase t ws w.distinct;
      },
      record { linked = r1.linked; distinct = r1.distinct; sorted = r1.sorted },
      ap (λ q. q.state t) frame ∙ update_self k.state t ready,
      ap (λ q. q.timeout t) frame ∙ update_self k.timeout t timed_out,
      update_self k1.sem t none,
      ap (λ q. q.timer t) frame ∙ update_self k.timer t none,
    )
