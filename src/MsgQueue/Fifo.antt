-- ===== src/MsgQueue/Fifo.antt =====
-- A message queue as a list of messages, oldest first, in its ring of slots.
use rosx.Base.{
  mul_lt, ℕ, suc, ◌+◌, ◌-◌, ◌*◌, ◌%◌, ◌<◌, ◌≤◌, ◌≡◌, ◌≢◌, refl, sym, ap, ◌∙◌, subst, ◌⊎◌, inl, inr,
  true, false, List, [], ◌∷◌, ◌++◌, arith, ltb, ltb→lt, ltb→le, ltb_no, ltb_yes, ◌==◌, ==_refl,
  if◌then◌else◌, Bool-cases,
}
use rosx.Base.Lists.{length, length-append}
use rosx.MsgQueue.{MsgQueue, is_full, set_full, set_empty, advance, take_block, put_block, read}
use rosx.MsgQueue.Memory.{copy_in, copy_out, copy_out-copy_in, copy_out-copy_in_apart}
use rosx.MsgQueue.Slots.{
  mul_apart, behind, behind-cases, IsAt, IsAt-behind, IsAt-grow, IsAt-full, IsAt-none,
}

-- The messages `xs` lie in the slots from `j` on.
abbrev Stored : (mem : ℕ → ℕ) (size n j : ℕ) → List (List ℕ) → Type 0
Stored mem size n j [] = Unit
Stored mem size n j (m ∷ xs) =
    (length m ≡ size) × (copy_out mem (size * j) size ≡ m) × Stored mem size n (behind n j) xs

-- The queue holds `xs`, oldest first, in a ring of `num_of_blocks + 1` slots, as the code lays it
-- out: the last slot lies behind the storage.
pub record IsQueue (q : MsgQueue) (xs : List (List ℕ)) : Type 0 where
  pub first : ℕ
  pub free : ℕ
  pub sized : 0 < q.size_of_block
  pub some_blocks : 0 < q.num_of_blocks
  pub first_in : first ≤ q.num_of_blocks
  pub free_in : free ≤ q.num_of_blocks
  pub at_tail : q.tail ≡ q.size_of_block * first
  pub at_head : q.head ≡ q.size_of_block * free
  pub count : length xs ≤ suc q.num_of_blocks
  pub apart : IsAt q.num_of_blocks first (length xs) free
  pub stored : Stored q.mem q.size_of_block q.num_of_blocks first xs
  pub full : length xs ≡ suc q.num_of_blocks → is_full q.flag ≡ true
  pub empty : length xs ≡ 0 → is_full q.flag ≡ false

pub advance_lem :
    (q : MsgQueue) (j : ℕ)
    → 0 < q.size_of_block
    → j ≤ q.num_of_blocks
    → advance q (q.size_of_block * j) ≡ q.size_of_block * behind q.num_of_blocks j
unfolding advance
advance_lem q j h b = elim (Bool-cases (ltb j q.num_of_blocks)) [
  | inl e ↦
      let room : q.size_of_block * j + q.size_of_block ≤ q.size_of_block * q.num_of_blocks =
        mul_lt q.size_of_block j q.num_of_blocks (ltb→lt j q.num_of_blocks e) in
      rw (e, ltb_no _ _ room) (omega arith)
  | inr e ↦
      let last : j ≡ q.num_of_blocks =
        (let le : q.num_of_blocks ≤ j = ltb→le _ _ e in omega arith) in
      rw
        (
          e,
          last,
          ltb_yes (q.size_of_block * q.num_of_blocks)
              (q.size_of_block * q.num_of_blocks + q.size_of_block) (omega arith),
        )
        (omega arith)
]

set_full-is_full : (flag : ℕ) → is_full (set_full flag) ≡ true
set_full-is_full flag = let bit : (flag - flag % 2 + 1) % 2 ≡ 1 = omega arith in rw bit refl

set_empty-is_full : (flag : ℕ) → is_full (set_empty flag) ≡ false
set_empty-is_full flag = let bit : (flag - flag % 2) % 2 ≡ 0 = omega arith in rw bit refl

Stored-put :
    (mem : ℕ → ℕ) (size n j i : ℕ) (msg : List ℕ) (xs : List (List ℕ))
    → length msg ≡ size
    → i ≤ n
    → j ≤ n
    → length xs ≤ n
    → IsAt n j (length xs) i
    → Stored mem size n j xs
    → Stored (copy_in mem (size * i) msg) size n j (xs ++ msg ∷ [])
Stored-put mem size n j i msg [] hm hi hj hl at st =
    let here : i ≡ j = ground arith in
    (hm, rw (here, sym hm) (copy_out-copy_in mem (length msg * j) msg), tt)
Stored-put mem size n j i msg (x ∷ xs) hm hi hj hl at st =
    let (sized, read, rest) = st in
    let next : (behind n j ≤ n)
        × (((j < n) × (behind n j ≡ suc j)) ⊎ ((j ≡ n) × (behind n j ≡ 0))) =
      behind-cases n j hj in
    let other : j ≢ i = ground arith in
    (
      sized,
      copy_out-copy_in_apart mem (size * i) msg (size * j) size (rw hm (mul_apart size j i other))
          ∙ read,
      Stored-put mem size n (behind n j) i msg xs hm hi next.0 (omega arith)
          (IsAt-behind n j (length xs) i hi hj at) rest,
    )

is_full_set : (flag a b : ℕ) → a ≡ b → is_full (if a == b then set_full flag else flag) ≡ true
is_full_set flag a b e = rw (e, ==_refl b) (set_full-is_full flag)

is_full_cleared : (flag a b : ℕ) → a ≡ b → is_full (if a == b then set_empty flag else flag) ≡ false
is_full_cleared flag a b e = rw (e, ==_refl b) (set_empty-is_full flag)

-- The copy in, while a slot is free.
pub put_block-appends :
    (q : MsgQueue) (msg : List ℕ) (xs : List (List ℕ))
    → IsQueue q xs
    → length msg ≡ q.size_of_block
    → length xs ≤ q.num_of_blocks
    → IsQueue (put_block q msg) (xs ++ msg ∷ [])
unfolding put_block advance
put_block-appends q msg xs r hm room =
    let n : ℕ = q.num_of_blocks in
    let more : length (xs ++ msg ∷ []) ≡ suc (length xs) =
      omega (arith, length-append xs (msg ∷ [])) in
    let moved : advance q q.head ≡ q.size_of_block * behind n r.free =
      ap (advance q) r.at_head ∙ advance_lem q r.free r.sized r.free_in in
    let grown : IsAt n r.first (suc (length xs)) (behind n r.free) =
      IsAt-grow n r.first (length xs) r.free r.free_in r.first_in room r.apart in
    let free_in : behind n r.free ≤ n = (behind-cases n r.free r.free_in).0 in
    record {
      first = r.first;
      free = behind n r.free;
      sized = r.sized;
      some_blocks = r.some_blocks;
      first_in = r.first_in;
      free_in = free_in;
      at_tail = r.at_tail;
      at_head = moved;
      count = omega arith;
      apart = subst (λ l. IsAt n r.first l (behind n r.free)) (sym more) grown;
      stored =
          subst (λ h. Stored (copy_in q.mem h msg) q.size_of_block n r.first (xs ++ msg ∷ []))
            (sym r.at_head)
            (Stored-put q.mem q.size_of_block n r.first r.free msg xs hm r.free_in r.first_in room
              r.apart r.stored);
      full = λ e.
          let same : behind n r.free ≡ r.first =
            IsAt-full n r.first (behind n r.free) free_in r.first_in
              (subst (λ l. IsAt n r.first l (behind n r.free)) (sym more ∙ e) grown) in
          is_full_set q.flag (advance q q.head) q.tail
            (moved ∙ ap (λ i. q.size_of_block * i) same ∙ sym r.at_tail);
      empty = λ e. absurd (omega arith);
    }

pub take_block-first :
    (q : MsgQueue) (msg : List ℕ) (xs : List (List ℕ))
    → IsQueue q (msg ∷ xs)
    → ((take_block q).0 ≡ msg) × IsQueue (take_block q).1 xs
unfolding take_block advance
take_block-first q msg xs r =
    let n : ℕ = q.num_of_blocks in
    let (sized, first, rest) = r.stored in
    let moved : advance q q.tail ≡ q.size_of_block * behind n r.first =
      ap (advance q) r.at_tail ∙ advance_lem q r.first r.sized r.first_in in
    let nearer : IsAt n (behind n r.first) (length xs) r.free =
      IsAt-behind n r.first (length xs) r.free r.free_in r.first_in r.apart in
    let first_in : behind n r.first ≤ n = (behind-cases n r.first r.first_in).0 in
    let fewer : length xs ≤ n = (let c : suc (length xs) ≤ suc n = r.count in omega arith) in
    (
      ap (λ t. copy_out q.mem t q.size_of_block) r.at_tail ∙ first,
      record {
        first = behind n r.first;
        free = r.free;
        sized = r.sized;
        some_blocks = r.some_blocks;
        first_in = first_in;
        free_in = r.free_in;
        at_tail = moved;
        at_head = r.at_head;
        count = omega arith;
        apart = nearer;
        stored = rest;
        full = λ e. absurd (omega arith);
        empty = λ e.
            let same : r.free ≡ behind n r.first =
              (let at : IsAt n (behind n r.first) 0 r.free =
                  subst (λ l. IsAt n (behind n r.first) l r.free) e nearer in
                IsAt-none n (behind n r.first) r.free r.free_in first_in at) in
            is_full_cleared q.flag q.head (advance q q.tail)
              (r.at_head ∙ ap (λ i. q.size_of_block * i) same ∙ sym moved);
      },
    )
