-- ===== src/Logger/Texts.antt =====
-- Texts that go through the print buffer.
use rosx.Base.{
  ℕ, zero, suc, ◌+◌, ◌-◌, ◌*◌, ◌<◌, ◌≤◌, ◌≡◌, refl, sym, ap, ◌∙◌, subst, false, List, [], ◌∷◌, ◌++◌,
  arith, ==_refl, ==_ne, ltb_no, ltb_yes,
}
use rosx.Base.Lists.{length, length-append}
use rosx.MsgQueue.Memory.{copy_in, copy_out, copy_out-copy_in}
use rosx.Logger.{
  PrintBuffer, buffer_size, put_text, printk_to_buffer, has_text, log_byte, drain, clear,
}

-- The thread reads on to a head that lies before it.
drain_lem :
    (n : ℕ) (b : PrintBuffer)
    → b.tail + n ≡ b.head
    → b.head ≤ buffer_size
    → drain n b ≡ (copy_out b.mem b.tail n, record b { tail = b.head })
unfolding drain log_byte copy_out
drain_lem zero b e le =
    let same : b.tail ≡ b.head = omega arith in ap (λ t. ([], record b { tail = t })) same
drain_lem (suc n) b e le =
    let rest = drain_lem n (record b { tail = suc b.tail }) (omega arith) le in
    rw (==_ne b.head b.tail (omega arith))
      (rw (ltb_no buffer_size (suc b.tail) (omega arith)) (rw rest refl))

-- What a text that fits behind the head of a buffer that was read to the end makes of the buffer.
pub printed :
    (b : PrintBuffer) (text complaint : List ℕ)
    → b.tail ≡ b.head
    → b.head + (length text + 1) ≤ buffer_size
    → (b1 : PrintBuffer) × (printk_to_buffer b text complaint ≡ b1)
      × (b1.tail ≡ b.tail)
      × (b1.head ≡ b.head + (length text + 1))
      × (copy_out b1.mem b1.tail (suc (length text)) ≡ text ++ 0 ∷ [])
unfolding printk_to_buffer put_text
printed b text complaint read fits =
    let b1 : PrintBuffer = record b {
      mem = copy_in b.mem b.head (text ++ 0 ∷ []);
      head = b.head + (length text + 1);
    } in
    let size : length (text ++ 0 ∷ []) ≡ suc (length text) =
      omega (arith, length-append text (0 ∷ [])) in
    (
      b1,
      rw (ltb_no buffer_size (length text + 1) (omega arith), printk_to_buffer)
          (rw (ltb_no buffer_size (b.head + (length text + 1)) fits) refl),
      refl,
      refl,
      subst (λ n. copy_out b1.mem b1.tail n ≡ text ++ 0 ∷ []) size
          (subst (λ t. copy_out b1.mem t (length (text ++ 0 ∷ [])) ≡ text ++ 0 ∷ []) (sym read)
            (copy_out-copy_in b.mem b.head (text ++ 0 ∷ []))),
    )

-- A text that fits behind the head of a buffer that was read to the end comes out as it is, with
-- its NUL, and the buffer is read to the end again.
drain-printk_to_buffer :
    (b : PrintBuffer) (text complaint : List ℕ)
    → b.tail ≡ b.head
    → b.head + (length text + 1) ≤ buffer_size
    → (b' : PrintBuffer) × (drain (suc (length text)) (printk_to_buffer b text complaint)
        ≡ (text ++ 0 ∷ [], b'))
      × (b'.head ≡ b.head + (length text + 1))
      × (b'.tail ≡ b'.head)
drain-printk_to_buffer b text complaint read fits =
    let (b1, put, tail, head, out) = printed b text complaint read fits in
    (
      record b1 { tail = b1.head },
      ap (drain (suc (length text))) put
          ∙ (drain_lem (suc (length text)) b1 (omega arith) (omega arith)
              ∙ ap (λ o. (o, record b1 { tail = b1.head })) out),
      head,
      refl,
    )

-- When the head has gone back to the start, the thread reads on to the end of the buffer, and one
-- byte further: the byte behind the buffer is written to the device too, before it goes back.
drain-overruns :
    (n : ℕ) (b : PrintBuffer)
    → b.tail + n ≡ buffer_size
    → b.head < b.tail
    → drain (suc n) b ≡ (copy_out b.mem b.tail n ++ b.mem buffer_size ∷ [], record b { tail = 0 })
unfolding drain log_byte copy_out
drain-overruns zero b e lt =
    let end : b.tail ≡ buffer_size = omega arith in
    rw (==_ne b.head b.tail (omega arith)) (
      rw (ltb_yes buffer_size (suc b.tail) (omega arith))
        (ap (λ t. (b.mem t ∷ [], record b { tail = 0 })) end))
drain-overruns (suc n) b e lt =
    let rest = drain-overruns n (record b { tail = suc b.tail }) (omega arith) (omega arith) in
    rw (==_ne b.head b.tail (omega arith))
      (rw (ltb_no buffer_size (suc b.tail) (omega arith)) (rw rest refl))

drain-quiet : (rounds : ℕ) (b : PrintBuffer) → has_text b ≡ false → drain rounds b ≡ ([], b)
unfolding drain
drain-quiet zero b e = refl
drain-quiet (suc n) b e = rw e refl

-- A text that does not fit behind the head of a buffer that was read to the end, and that ends
-- where that head was, is never read: after it there seems to be nothing to read.
printk_to_buffer-loses :
    (b : PrintBuffer) (text complaint : List ℕ)
    → b.tail ≡ b.head
    → b.head ≡ length text + 1
    → buffer_size < 2 * b.head
    → b.head ≤ buffer_size
    → (rounds : ℕ)
    → drain rounds (printk_to_buffer b text complaint) ≡ ([], printk_to_buffer b text complaint)
unfolding printk_to_buffer put_text
printk_to_buffer-loses b text complaint read end wraps small rounds =
    let full : PrintBuffer = record b {
      mem = copy_in (clear b.mem b.head (buffer_size - b.head)) 0 (text ++ 0 ∷ []);
      head = 0 + (length text + 1);
    } in
    let put : printk_to_buffer b text complaint ≡ full =
      rw (ltb_no buffer_size (length text + 1) (omega arith), printk_to_buffer)
        (rw (ltb_yes buffer_size (b.head + (length text + 1)) (omega arith)) refl) in
    let met : 0 + (length text + 1) ≡ b.tail = omega arith in
    let quiet : has_text full ≡ false = rw met (rw (==_refl b.tail) refl) in
    drain-quiet rounds (printk_to_buffer b text complaint) (ap has_text put ∙ quiet)
