-- ===== src/Logger.antt =====
-- kernel/rx_logger.c: the print buffer, its writer and the rounds of its reader. `head` and `tail`
-- are offsets from `__rx_printk_buffer_start_ptr`, and `mem` is the memory from there on. The text
-- of a print is what `vsnprintf` makes of it.
pub mod Texts
pub mod Thread
pub mod Prints
use rosx.Base.{
  ℕ, zero, suc, ◌+◌, ◌-◌, Bool, true, false, Option, none, some, List, [], ◌∷◌, ◌++◌, ◌==◌, ltb,
  update, if◌then◌else◌,
}
use rosx.Base.Lists.{length}
use rosx.MsgQueue.Memory.{copy_in}

pub record PrintBuffer : Type 0 where
  pub mem : ℕ → ℕ
  pub head : ℕ
  pub tail : ℕ

-- CONFIG_PRINT_BUFFER_SIZE
abbrev pub buffer_size : ℕ
buffer_size = 4096

-- `memset(p, '\0', n)`
unfoldable pub clear : (ℕ → ℕ) → (p n : ℕ) → ℕ → ℕ
clear mem p zero = mem
clear mem p (suc n) = clear (update mem p 0) (suc p) n

-- The text and its NUL, at the head or, where they do not fit, at the start of the buffer.
unfoldable pub put_text : PrintBuffer → List ℕ → PrintBuffer
unfolding clear
put_text b text =
    let b1 =
      (if ltb buffer_size (b.head + (length text + 1))
        then record b { mem = clear b.mem b.head (buffer_size - b.head); head = 0 }
        else b) in
    record b1 { mem = copy_in b1.mem b1.head (text ++ 0 ∷ []); head = b1.head + (length text + 1) }

-- `__rx_printk_to_buffer`; `complaint` is the text of the error that a longer text gives.
unfoldable pub printk_to_buffer : PrintBuffer → (text complaint : List ℕ) → PrintBuffer
unfolding put_text
printk_to_buffer b text complaint =
    if ltb buffer_size (length text + 1) then put_text b complaint else put_text b text

-- The condition that the logger waits for.
abbrev pub has_text : PrintBuffer → Bool
has_text b = if b.head == b.tail then false else true

-- A round of `rx_logger_thread`: the byte that is written to the device, and the buffer.
unfoldable pub log_byte : PrintBuffer → ℕ × PrintBuffer
log_byte b =
    (b.mem b.tail, record b { tail = if ltb buffer_size (suc b.tail) then 0 else suc b.tail })

-- Rounds of the thread, while there is text: the bytes written, in order.
unfoldable pub drain : (rounds : ℕ) → PrintBuffer → List ℕ × PrintBuffer
unfolding log_byte
drain zero b = ([], b)
drain (suc rounds) b =
    let (c, b1) = log_byte b in
    let (out, b2) = drain rounds b1 in if has_text b then (c ∷ out, b2) else ([], b)
