-- ===== src/MsgQueue/Laws.antt =====
-- The calls that read and write a queue, on the list of messages that it holds.
use rosx.Base.{
  mul_lt, ◌+◌, ℕ, suc, ◌*◌, ◌<◌, ◌≤◌, ◌≡◌, refl, sym, ap, ◌∙◌, subst, ◌⊎◌, inl, inr, true, false,
  Option, none, some, List, [], ◌∷◌, ◌++◌, arith, ◌==◌, ==_refl, ==→eq, ==→ne, leb, leb→le, leb→lt,
  Bool-cases, Run, ok, ◌>>=◌,
}
use rosx.Base.Lists.{length, length-append}
use rosx.Kernel.{os_ok, e_os_unavail, Kernel}
use rosx.MsgQueue.{
  MsgQueue, is_cyclic, is_blocking, take_block, put_block, no_message, must_wait, wake, Outcome,
  read, read_awake, write, read_finish, write_finish, returns, delivers,
}
use rosx.MsgQueue.Memory.{copy_in_outside}
use rosx.MsgQueue.Slots.{mul_ne, IsAt, IsAt-empty, IsAt-full, IsAt-none}
use rosx.MsgQueue.Fifo.{IsQueue, put_block-appends, take_block-first}

module _ (q : MsgQueue) (xs : List (List ℕ)) (r : IsQueue q xs) where
  -- Head and tail meet only in an empty and in a full queue.
  meet : q.head ≡ q.tail → length xs ≤ q.num_of_blocks → length xs ≡ 0
  meet e room = elim (Bool-cases (r.free == r.first)) [
    | inl s ↦
        IsAt-empty q.num_of_blocks r.first (length xs) r.free r.free_in r.first_in room r.apart
          (==→eq r.free r.first s)
    | inr s ↦ absurd (
        mul_ne q.size_of_block r.free r.first r.sized (==→ne r.free r.first s)
          (sym r.at_head ∙ e ∙ r.at_tail))
  ]

  pub has_room : length xs ≤ q.num_of_blocks → must_wait q ≡ false
  has_room room = elim (Bool-cases (q.head == q.tail)) [
    | inl e ↦ rw (e, r.empty (meet (==→eq q.head q.tail e) room)) refl
    | inr e ↦ rw e refl
  ]

  has_message : 0 < length xs → no_message q ≡ false
  has_message some_left = elim (Bool-cases (q.head == q.tail)) [
    | inl e ↦ elim (Bool-cases (leb (length xs) q.num_of_blocks)) [
      | inl few ↦
          let none_left : length xs ≡ 0 =
            meet (==→eq q.head q.tail e) (leb→le (length xs) q.num_of_blocks few) in
          absurd (omega arith)
      | inr all ↦
          let over : q.num_of_blocks < length xs = leb→lt (length xs) q.num_of_blocks all in
          let bound : length xs ≤ suc q.num_of_blocks = r.count in rw (e, r.full (omega arith)) refl
    ]
    | inr e ↦ rw e refl
  ]

  pub together : length xs ≡ 0 ⊎ length xs ≡ suc q.num_of_blocks → (q.head == q.tail) ≡ true
  together h =
      let same : r.free ≡ r.first = elim h [
        | inl e ↦
            IsAt-none q.num_of_blocks r.first r.free r.free_in r.first_in
              (subst (λ l. IsAt q.num_of_blocks r.first l r.free) e r.apart)
        | inr e ↦
            IsAt-full q.num_of_blocks r.first r.free r.free_in r.first_in
              (subst (λ l. IsAt q.num_of_blocks r.first l r.free) e r.apart)
      ] in
      rw (r.at_head, r.at_tail, same) (==_refl (q.size_of_block * r.first))

  pub is_empty : length xs ≡ 0 → no_message q ≡ true
  is_empty e = rw (together (inl e), r.empty e) refl

  closed : length xs ≡ suc q.num_of_blocks → is_cyclic q.flag ≡ false → must_wait q ≡ true
  closed e c = rw (together (inr e), r.full e, c) refl

pub write-puts :
    (fuel : ℕ) (q : MsgQueue) (k : Kernel) (msg : List ℕ) (timeout tm : ℕ)
    → length msg ≡ q.size_of_block
    → must_wait q ≡ false
    → q.read_task ≡ none
    → write fuel q k msg timeout tm ≡ ok (returns os_ok, put_block q msg, k)
unfolding write write_finish put_block
write-puts fuel q k msg timeout tm hm open_ idle =
    rw (hm, ==_refl q.size_of_block) (rw open_ (rw idle refl))

-- A write of a message of the right size to a queue that holds fewer than `num_of_blocks` messages,
-- while no task waits to read and the head is within the storage, not in the slot behind it that the
-- code also uses, appends the message at once, and changes no byte behind the storage.
pub write-appends :
    (fuel : ℕ) (q : MsgQueue) (k : Kernel) (msg : List ℕ) (xs : List (List ℕ)) (timeout tm : ℕ)
    → IsQueue q xs
    → length msg ≡ q.size_of_block
    → length xs < q.num_of_blocks
    → q.head < q.size_of_block * q.num_of_blocks
    → q.read_task ≡ none
    → (q' : MsgQueue) × (write fuel q k msg timeout tm ≡ ok (returns os_ok, q', k))
      × IsQueue q' (xs ++ msg ∷ [])
      × (length (xs ++ msg ∷ []) ≤ q'.num_of_blocks)
      × ((a : ℕ) → q.size_of_block * q.num_of_blocks ≤ a → q'.mem a ≡ q.mem a)
unfolding put_block
write-appends fuel q k msg xs timeout tm r hm room inside idle =
    let slot : r.free < q.num_of_blocks = elim (Bool-cases (leb q.num_of_blocks r.free)) [
      | inl e ↦
          let last : r.free ≡ q.num_of_blocks =
            (let le : q.num_of_blocks ≤ r.free = leb→le q.num_of_blocks r.free e in
              let in_ring : r.free ≤ q.num_of_blocks = r.free_in in omega arith) in
          let at_end : q.head ≡ q.size_of_block * q.num_of_blocks =
            r.at_head ∙ ap (λ i. q.size_of_block * i) last in
          absurd (omega (arith, at_end))
      | inr e ↦ leb→lt q.num_of_blocks r.free e
    ] in
    let ends : q.size_of_block * r.free + q.size_of_block ≤ q.size_of_block * q.num_of_blocks =
      mul_lt q.size_of_block r.free q.num_of_blocks slot in
    let at_head : q.head ≡ q.size_of_block * r.free = r.at_head in
    (
      put_block q msg,
      write-puts fuel q k msg timeout tm hm (has_room q xs r (omega arith)) idle,
      put_block-appends q msg xs r hm (omega arith),
      omega (arith, length-append xs (msg ∷ [])),
      (λ a h. copy_in_outside q.mem q.head msg a (inr (omega (arith, hm, at_head, ends)))),
    )

-- The end of a read, with the wait queue of the writers given.
abbrev ended : ℕ → MsgQueue → Kernel → Option ℕ → Run (Outcome (List ℕ) × MsgQueue × Kernel)
ended fuel q k writers = elim writers [
  | none ↦ ok (delivers (take_block q).0, (take_block q).1, k)
  | some t ↦ do
    let rest = k.next t
    k1 ← wake fuel k t
    ok (delivers (take_block q).0, record (take_block q).1 { write_task = rest }, k1)
]

read_finish_lem :
    (fuel : ℕ) (q : MsgQueue) (k : Kernel)
    → q.write_task ≡ none
    → read_finish fuel q k ≡ ok (delivers (take_block q).0, (take_block q).1, k)
unfolding read_finish take_block
read_finish_lem fuel q k quiet = ap (ended fuel q k) quiet

read-takes :
    (fuel : ℕ) (q : MsgQueue) (k : Kernel) (timeout tm : ℕ)
    → no_message q ≡ false
    → q.read_task ≡ none
    → q.write_task ≡ none
    → read fuel q k q.size_of_block timeout tm ≡ ok (delivers (take_block q).0, (take_block q).1, k)
unfolding read
read-takes fuel q k timeout tm has idle quiet =
    rw (==_refl q.size_of_block) (rw idle (rw has refl)) ∙ read_finish_lem fuel q k quiet

-- The reader of a queue that holds messages, with the size of its blocks and no task waiting,
-- gets the oldest message at once.
pub read-takes_oldest :
    (fuel : ℕ) (q : MsgQueue) (k : Kernel) (msg : List ℕ) (xs : List (List ℕ)) (timeout tm : ℕ)
    → IsQueue q (msg ∷ xs)
    → q.read_task ≡ none
    → q.write_task ≡ none
    → (q' : MsgQueue) × (read fuel q k q.size_of_block timeout tm ≡ ok (delivers msg, q', k))
      × IsQueue q' xs
read-takes_oldest fuel q k msg xs timeout tm r idle quiet =
    let (same, rest) = take_block-first q msg xs r in
    (
      (take_block q).1,
      read-takes fuel q k timeout tm (has_message q (msg ∷ xs) r (omega arith)) idle quiet
          ∙ ap (λ m. ok (delivers m, (take_block q).1, k)) same,
      rest,
    )

-- A reader that waited for ever and was woken gets the oldest message, unless an error was noted.
pub read_awake-takes_oldest :
    (fuel : ℕ) (q : MsgQueue) (k : Kernel) (msg : List ℕ) (xs : List (List ℕ))
    → IsQueue q (msg ∷ xs)
    → q.write_task ≡ none
    → k.err k.curr ≡ os_ok
    → (q' : MsgQueue) × (read_awake fuel q k 0 ≡ ok (delivers msg, q', k)) × IsQueue q' xs
unfolding read_awake
read_awake-takes_oldest fuel q k msg xs r quiet fine =
    let (same, rest) = take_block-first q msg xs r in
    (
      (take_block q).1,
      rw fine (read_finish_lem fuel q k quiet)
          ∙ ap (λ m. ok (delivers m, (take_block q).1, k)) same,
      rest,
    )

-- A queue that is full, not cyclic and may not block refuses a message and stays as it is.
write-refuses_full :
    (fuel : ℕ) (q : MsgQueue) (k : Kernel) (msg : List ℕ) (xs : List (List ℕ)) (timeout tm : ℕ)
    → IsQueue q xs
    → length msg ≡ q.size_of_block
    → length xs ≡ suc q.num_of_blocks
    → is_blocking q.flag ≡ false
    → is_cyclic q.flag ≡ false
    → write fuel q k msg timeout tm ≡ ok (returns e_os_unavail, q, k)
unfolding write
write-refuses_full fuel q k msg xs timeout tm r hm e b c =
    rw (hm, ==_refl q.size_of_block) (rw (closed q xs r e c) (rw b refl))

-- An empty queue that may not block has nothing to give, and stays as it is.
read-refuses_empty :
    (fuel : ℕ) (q : MsgQueue) (k : Kernel) (timeout tm : ℕ)
    → IsQueue q []
    → q.read_task ≡ none
    → is_blocking q.flag ≡ false
    → read fuel q k q.size_of_block timeout tm ≡ ok (returns e_os_unavail, q, k)
unfolding read
read-refuses_empty fuel q k timeout tm r idle b =
    simp (==_refl q.size_of_block, idle, is_empty q [] r refl, b) refl
