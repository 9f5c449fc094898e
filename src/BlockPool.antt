-- ===== src/BlockPool.antt =====
-- kernel/rx_blockpool.c. `link` is the field `next` of the block headers in memory: of a free
-- block the next free one, of a used one the pool. `self` is the address of the pool.
pub mod Making
pub mod Laws
use rosx.Base.{
  ℕ, zero, suc, ◌+◌, ◌-◌, ◌*◌, ◌/◌, Bool, true, false, ◌||◌, Option, none, some, ◌==◌, ltb, same,
  update, if◌then◌else◌, Run, ok, ◌>>=◌,
}
use rosx.Base.Links.{append_link}
use rosx.Kernel.{suspend, ready, Status, os_ok, os_err, Kernel}
use rosx.ReadyQueue.{add_to_ready_q, remove_from_ready_q}

pub record BlockPool : Type 0 where
  pub start_of_pool : ℕ
  pub pool_size : ℕ
  pub block_size : ℕ
  pub available : ℕ
  pub magic : ℕ
  pub free_blocks : Option ℕ
  pub task : Option ℕ
  pub link : ℕ → Option ℕ
  pub block : ℕ → ℕ

-- RX_BLOCK_POOL_MAGIC
abbrev pub pool_magic : ℕ
pool_magic = 1431655765

-- sizeof(struct block_chain), two pointers of 32 bits
abbrev pub chain_size : ℕ
chain_size = 8

-- `temp` of the round `i`: the offset is added to a pointer to a `struct block_chain`, so that it
-- counts in headers, not bytes. Nothing keeps the address within the pool.
abbrev pub header_at : BlockPool → ℕ → ℕ
header_at p i = p.start_of_pool + i * (p.block_size + chain_size) * chain_size

-- The first `n` rounds of the loop that makes the blocks.
unfoldable pub make_blocks : BlockPool → ℕ → BlockPool
make_blocks p zero = p
make_blocks p (suc i) =
    let q = make_blocks p i in
    let temp = header_at p i in
    record q {
      block = update q.block temp (temp + chain_size);
      link = update q.link temp q.free_blocks;
      free_blocks = some temp;
    }

-- `rx_create_block_pool`, without the copy of the name
unfoldable pub create_block_pool : BlockPool → (size start pool_size : ℕ) → Status × BlockPool
unfolding make_blocks
create_block_pool p size start pool_size =
    if size == 0 || pool_size == 0 || ltb pool_size (size + chain_size)
    then (os_err, p)
    else (let n = pool_size / (size + chain_size) in
        let q =
          make_blocks
            (record p {
              start_of_pool = start;
              pool_size = pool_size;
              block_size = size;
              available = n;
              free_blocks = none;
            })
            n in
        (os_ok, record q { magic = pool_magic }))

-- `rx_delete_block_pool`
unfoldable delete_block_pool : BlockPool → Status × BlockPool
delete_block_pool p = if p.magic == pool_magic then (os_ok, record p { magic = 0 }) else (os_err, p)

-- `rx_allocate_block`: the status, and what is stored through `block_ptr`, if anything is.
unfoldable pub allocate_block :
    ℕ → (self : ℕ) → BlockPool → Kernel → (flags : ℕ) → Run (Status × Option ℕ × BlockPool × Kernel)
allocate_block fuel self p k flags =
    if p.magic == pool_magic
    then elim p.free_blocks [
      | none ↦ if flags == 0 then ok (os_err, none, p, k) else (do
        k1 ←
            remove_from_ready_q fuel
              (record k {
                state = update k.state k.curr suspend;
                bpool = update k.bpool k.curr (some self);
              })
              k.curr
        (head, links) ← append_link fuel (update k1.next k1.curr none) p.task k1.curr
        ok (os_ok, none, record p { task = head }, record k1 { next = links }))
      | some temp ↦ ok (
        os_ok,
        some (p.block temp),
        record p {
          free_blocks = p.link temp;
          link = update p.link temp (some self);
          available = p.available - 1;
        },
        k,
      )
    ]
    else ok (os_err, none, p, k)

-- `rx_release_block`, with the pool that the header of the block points to
unfoldable pub release_block :
    ℕ → BlockPool → Kernel → (block_ptr : ℕ) → Run (Status × BlockPool × Kernel)
release_block fuel p k block_ptr =
    if p.magic == pool_magic
    then (let start_of_block = block_ptr - chain_size in
        let q = record p {
          link = update p.link start_of_block p.free_blocks;
          free_blocks = some start_of_block;
          available = suc p.available;
        } in
        elim p.task [
          | none ↦ ok (os_ok, q, k)
          | some t ↦ do
            (_, k1) ←
                add_to_ready_q fuel
                  (record k { state = update k.state t ready; bpool = update k.bpool t none }) t
            ok (os_ok, record q { task = k.next t }, k1)
        ])
    else ok (os_err, p, k)
