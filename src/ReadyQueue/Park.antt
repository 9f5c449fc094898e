-- ===== src/ReadyQueue/Park.antt =====
-- The running task leaves the ready queue for the end of a wait queue.
use rosx.Base.{
  ℕ, suc, ◌<◌, ◌≡◌, Option, none, List, [], ◌∷◌, ◌++◌, ==_refl, update, update_self, ok,
}
use rosx.Base.Lists.{length, NotIn, Distinct, Distinct-snoc, Apart, Apart-sym, Apart-tail}
use rosx.Base.Links.{IsList, IsList-update, IsList-agree, append_link, append_link_lem}
use rosx.Kernel.{Kernel}
use rosx.ReadyQueue.{remove_from_ready_q}
use rosx.ReadyQueue.Remove.{remove_lem}

pub park_lem :
    (fuel : ℕ) (k : Kernel) (h : Option ℕ) (xs ws : List ℕ)
    → length (k.curr ∷ xs) < fuel
    → length ws < suc fuel
    → IsList k.next k.ready_head (k.curr ∷ xs)
    → Distinct (k.curr ∷ xs)
    → IsList k.next h ws
    → Distinct ws
    → Apart ws (k.curr ∷ xs)
    → (head hd : Option ℕ) × (g g' : ℕ → Option ℕ) × (remove_from_ready_q fuel k k.curr
        ≡ ok (record k { next = g; ready_head = hd }))
      × (append_link fuel (update g k.curr none) h k.curr ≡ ok (head, g'))
      × IsList g' head (ws ++ k.curr ∷ [])
      × Distinct (ws ++ k.curr ∷ [])
      × IsList g' hd xs
park_lem fuel k h xs ws b c linked distinct l d a =
    let (hd, g, e, shorter, off, end) = remove_lem fuel k k.curr k.curr xs b linked distinct in
    let others : IsList g hd xs = rw (==_refl k.curr) at shorter in
    let fresh : NotIn k.curr ws = (Apart-sym ws (k.curr ∷ xs) a).0 in
    let nx : (ℕ → Option ℕ) = update g k.curr none in
    let waiting : IsList nx h ws =
      IsList-update g h ws k.curr none fresh
        (IsList-agree k.next g h (k.curr ∷ xs) ws (λ q n. off q (n.0, n)) a l) in
    let (head, g', e', queue, off') =
      append_link_lem fuel nx h ws k.curr c waiting d fresh (update_self g k.curr none) in
    (
      head,
      hd,
      g,
      g',
      e,
      e',
      queue,
      Distinct-snoc ws k.curr d fresh,
      IsList-agree nx g' hd ws xs off' (Apart-sym ws xs (Apart-tail k.curr ws xs a))
          (IsList-update g hd xs k.curr none distinct.0 others),
    )
