-- ===== src/BlockPool/Laws.antt =====
-- What allocation and release do to the free list of a block pool.
use rosx.Base.{
  ℕ, suc, ◌+◌, ◌-◌, ◌<◌, ◌≡◌, refl, sym, subst, none, some, List, [], ◌∷◌, ◌++◌, arith, ==_ne,
  update, update_self, ok,
}
use rosx.Base.Lists.{length, Distinct, Apart}
use rosx.Base.Links.{IsList, IsList-update}
use rosx.Kernel.{suspend, os_ok, Kernel}
use rosx.ReadyQueue.Spec.{IsReady}
use rosx.ReadyQueue.Park.{park_lem}
use rosx.BlockPool.{BlockPool, allocate_block, release_block}
use rosx.BlockPool.Making.{IsPool}

-- An allocation takes the first free block, and the release of that block, with no task waiting,
-- makes it the first free block again.
pub release-allocate :
    (fuel self b : ℕ) (p : BlockPool) (k : Kernel) (flags : ℕ) (free : List ℕ)
    → IsPool p (b ∷ free)
    → p.task ≡ none
    → (p1 p2 : BlockPool) × (allocate_block fuel self p k flags ≡ ok (os_ok, some (b + 8), p1, k))
      × IsPool p1 free
      × (release_block fuel p1 k (b + 8) ≡ ok (os_ok, p2, k))
      × IsPool p2 (b ∷ free)
unfolding allocate_block release_block
release-allocate fuel self b p k flags free r alone =
    let p1 : BlockPool = record p {
      free_blocks = p.link b;
      link = update p.link b (some self);
      available = p.available - 1;
    } in
    let p2 : BlockPool = record p1 {
      link = update p1.link b p1.free_blocks;
      free_blocks = some b;
      available = suc p1.available;
    } in
    let back : b + 8 - 8 ≡ b = omega arith in
    let rest : IsList p1.link p1.free_blocks free =
      IsList-update p.link (p.link b) free b (some self) r.distinct.0 r.linked.1 in
    (
      p1,
      p2,
      simp (r.stamped, r.linked.0, r.headed.0) refl,
      record {
        stamped = r.stamped;
        linked = rest;
        distinct = r.distinct.1;
        headed = r.headed.1;
        count = (let c : p.available ≡ suc (length free) = r.count in omega arith);
      },
      simp (r.stamped, alone, back) refl,
      record {
        stamped = r.stamped;
        linked = (
          refl,
          subst (λ o. IsList p2.link o free) (sym (update_self p1.link b p1.free_blocks))
              (IsList-update p1.link p1.free_blocks free b p1.free_blocks r.distinct.0 rest),
        );
        distinct = r.distinct;
        headed = r.headed;
        count = (let c : p.available ≡ suc (length free) = r.count in omega arith);
      },
    )

-- With no block free and a wait allowed, the call puts the caller off the ready queue and behind
-- the tasks that wait for a block, and then returns OS_OK at once: no block is delivered, and no
-- other task is switched to.
pub allocate-returns_nothing :
    (fuel self : ℕ) (p : BlockPool) (k : Kernel) (flags : ℕ) (ys ws : List ℕ)
    → IsPool p []
    → 0 < flags
    → length (k.curr ∷ ys) < fuel
    → length ws < suc fuel
    → IsReady k (k.curr ∷ ys)
    → IsList k.next p.task ws
    → Distinct ws
    → Apart ws (k.curr ∷ ys)
    → (p' : BlockPool) × (k' : Kernel) × (allocate_block fuel self p k flags
        ≡ ok (os_ok, none, p', k'))
      × IsList k'.next p'.task (ws ++ k.curr ∷ [])
      × IsReady k' ys
      × (k'.curr ≡ k.curr)
      × (k'.state k.curr ≡ suspend)
unfolding allocate_block
allocate-returns_nothing fuel self p k flags ys ws pool may b c r l d a =
    let k0 : Kernel = record k {
      state = update k.state k.curr suspend;
      bpool = update k.bpool k.curr (some self);
    } in
    let (head, hd, g, g', e, e', queue, distinct, others) =
      park_lem fuel k0 p.task ys ws b c r.linked r.distinct l d a in
    (
      record p { task = head },
      record k0 { next = g'; ready_head = hd },
      simp (pool.stamped, pool.linked, ==_ne flags 0 (omega arith), e, e') refl,
      queue,
      record { linked = others; distinct = r.distinct.1; sorted = r.sorted.1 },
      refl,
      update_self k.state k.curr suspend,
    )
