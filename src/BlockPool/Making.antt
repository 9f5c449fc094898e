-- ===== src/BlockPool/Making.antt =====
-- The free list of a block pool, and how it is made.
use rosx.Base.{ℕ, zero, suc, ◌+◌, ◌*◌, ◌≡◌, List, [], ◌∷◌}
use rosx.Base.Lists.{length, Distinct}
use rosx.Base.Links.{IsList}
use rosx.BlockPool.{BlockPool, pool_magic, chain_size}

-- Each free block's header points behind itself.
abbrev Headed : (ℕ → ℕ) → List ℕ → Type 0
Headed block [] = Unit
Headed block (b ∷ bs) = (block b ≡ b + chain_size) × Headed block bs

-- The pool is ready, and `free` are its free blocks, wherever they lie in memory.
pub record IsPool (p : BlockPool) (free : List ℕ) : Type 0 where
  pub stamped : p.magic ≡ pool_magic
  pub linked : IsList p.link p.free_blocks free
  pub distinct : Distinct free
  pub headed : Headed p.block free
  pub count : p.available ≡ length free

-- The headers of the first `n` blocks, the last one first, for blocks of `stride` bytes.
abbrev pub headers : (start stride : ℕ) → ℕ → List ℕ
headers start stride zero = []
headers start stride (suc i) = (start + i * stride * chain_size) ∷ headers start stride i
