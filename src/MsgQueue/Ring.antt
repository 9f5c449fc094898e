-- ===== src/MsgQueue/Ring.antt =====
-- The end of the ring: a full cyclic queue, and the slot behind the storage.
use rosx.Base.{
  ℕ, suc, ◌*◌, ◌<◌, ◌≤◌, ◌≡◌, refl, sym, ap, ◌∙◌, subst, inl, inr, true, false, none, List, [], ◌∷◌,
  arith, ◌==◌, ==→eq, ==→ne, Bool-cases, ok,
}
use rosx.Base.Lists.{length}
use rosx.Kernel.{os_ok, Kernel}
use rosx.MsgQueue.{MsgQueue, is_cyclic, advance, put_block, must_wait, write, returns}
use rosx.MsgQueue.Memory.{copy_in, copy_out, copy_in_outside, copy_out-copy_in}
use rosx.MsgQueue.Slots.{mul_ne, behind, behind-cases, IsAt, IsAt-full}
use rosx.MsgQueue.Fifo.{IsQueue, advance_lem}
use rosx.MsgQueue.Laws.{has_room, together, write-puts}

stored_at :
    (mem : ℕ → ℕ) (head size j : ℕ) (msg : List ℕ)
    → length msg ≡ size
    → head ≡ size * j
    → copy_out (copy_in mem head msg) (size * j) size ≡ msg
stored_at mem head size j msg hm e = rw (e, sym hm) (copy_out-copy_in mem (length msg * j) msg)

at_end : (n j len i : ℕ) → j ≡ 0 → len ≡ n → IsAt n j len i → i ≡ n
at_end n j len i hj hl at = ground arith

-- A queue that is filled from its start by `num_of_blocks` messages takes one more: it is written
-- behind the queue's storage, and of the storage no byte is changed.
pub write-overruns :
    (fuel : ℕ) (q : MsgQueue) (k : Kernel) (msg : List ℕ) (xs : List (List ℕ)) (timeout tm : ℕ)
    → IsQueue q xs
    → length msg ≡ q.size_of_block
    → q.tail ≡ 0
    → length xs ≡ q.num_of_blocks
    → q.read_task ≡ none
    → (q' : MsgQueue) × (write fuel q k msg timeout tm ≡ ok (returns os_ok, q', k))
      × (copy_out q'.mem (q.size_of_block * q.num_of_blocks) q.size_of_block ≡ msg)
      × ((a : ℕ) → a < q.size_of_block * q.num_of_blocks → q'.mem a ≡ q.mem a)
unfolding put_block
write-overruns fuel q k msg xs timeout tm r hm start all idle =
    let first : r.first ≡ 0 = elim (Bool-cases (r.first == 0)) [
      | inl e ↦ ==→eq r.first 0 e
      | inr e ↦ absurd (
          mul_ne q.size_of_block r.first 0 r.sized (==→ne r.first 0 e)
            (sym r.at_tail ∙ start ∙ omega arith))
    ] in
    let last : r.free ≡ q.num_of_blocks =
      at_end q.num_of_blocks r.first (length xs) r.free first all r.apart in
    let end : q.head ≡ q.size_of_block * q.num_of_blocks =
      r.at_head ∙ ap (λ i. q.size_of_block * i) last in
    (
      put_block q msg,
      write-puts fuel q k msg timeout tm hm (has_room q xs r (omega arith)) idle,
      stored_at q.mem q.head q.size_of_block q.num_of_blocks msg hm end,
      (λ a h. copy_in_outside q.mem q.head msg a (inl (subst (λ e. a < e) (sym end) h))),
    )

one_behind : (n j i : ℕ) → i ≡ j → j ≤ n → IsAt n j 1 (behind n i)
one_behind n j i e h = ground arith

-- A write to a full cyclic queue drops all messages that it held: only the new one is left.
pub write-drops_all :
    (fuel : ℕ) (q : MsgQueue) (k : Kernel) (msg : List ℕ) (xs : List (List ℕ)) (timeout tm : ℕ)
    → IsQueue q xs
    → length msg ≡ q.size_of_block
    → length xs ≡ suc q.num_of_blocks
    → is_cyclic q.flag ≡ true
    → q.read_task ≡ none
    → (q' : MsgQueue) × (write fuel q k msg timeout tm ≡ ok (returns os_ok, q', k))
      × IsQueue q' (msg ∷ [])
unfolding put_block advance
write-drops_all fuel q k msg xs timeout tm r hm e c idle =
    let n : ℕ = q.num_of_blocks in
    let same : r.free ≡ r.first =
      IsAt-full n r.first r.free r.free_in r.first_in
        (subst (λ l. IsAt n r.first l r.free) e r.apart) in
    let moved : advance q q.head ≡ q.size_of_block * behind n r.free =
      ap (advance q) r.at_head ∙ advance_lem q r.free r.sized r.free_in in
    let pass : must_wait q ≡ false = rw (together q xs r (inr e), c) (rw (r.full e) refl) in
    (
      put_block q msg,
      write-puts fuel q k msg timeout tm hm pass idle,
      record {
        first = r.first;
        free = behind n r.free;
        sized = r.sized;
        some_blocks = r.some_blocks;
        first_in = r.first_in;
        free_in = (behind-cases n r.free r.free_in).0;
        at_tail = r.at_tail;
        at_head = moved;
        count = omega arith;
        apart = one_behind n r.first r.free same r.first_in;
        stored = (
          hm,
          stored_at q.mem q.head q.size_of_block r.first msg hm
              (r.at_head ∙ ap (λ i. q.size_of_block * i) same),
          tt,
        );
        full = λ z. absurd (omega (arith, r.some_blocks));
        empty = λ z. absurd (omega arith);
      },
    )
