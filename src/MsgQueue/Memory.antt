-- ===== src/MsgQueue/Memory.antt =====
-- `memcpy` between a message and the memory of a queue.
use rosx.Base.{
  ℕ, zero, suc, ◌+◌, ◌<◌, ◌≤◌, ◌≡◌, refl, ap, ◌∙◌, ◌⊎◌, inl, inr, List, [], ◌∷◌, arith, update,
  update_self, update_ne,
}
use rosx.Base.Lists.{length}

-- The bytes of `msg` are written from the offset on.
unfoldable pub copy_in : (ℕ → ℕ) → ℕ → List ℕ → ℕ → ℕ
copy_in mem p [] = mem
copy_in mem p (b ∷ msg) = copy_in (update mem p b) (suc p) msg

-- The `n` bytes from the offset on.
unfoldable pub copy_out : (ℕ → ℕ) → ℕ → ℕ → List ℕ
copy_out mem p zero = []
copy_out mem p (suc n) = mem p ∷ copy_out mem (suc p) n

-- A copy changes no byte outside its range.
pub copy_in_outside :
    (mem : ℕ → ℕ) (p : ℕ) (msg : List ℕ) (a : ℕ)
    → (a < p) ⊎ (p + length msg ≤ a)
    → copy_in mem p msg a ≡ mem a
unfolding copy_in
copy_in_outside mem p [] a h = refl
copy_in_outside mem p (b ∷ msg) a h =
    copy_in_outside (update mem p b) (suc p) msg a
      (elim h [ inl l ↦ inl (omega arith) | inr r ↦ inr (omega arith) ])
    ∙ update_ne mem p a b (elim h [ inl l ↦ omega arith | inr r ↦ omega arith ])

pub copy_out-copy_in :
    (mem : ℕ → ℕ) (p : ℕ) (msg : List ℕ) → copy_out (copy_in mem p msg) p (length msg) ≡ msg
unfolding copy_in copy_out
copy_out-copy_in mem p [] = refl
copy_out-copy_in mem p (b ∷ msg) =
    rw (copy_in_outside (update mem p b) (suc p) msg p (inl (omega arith)), update_self mem p b)
      (ap (λ rest. b ∷ rest) (copy_out-copy_in (update mem p b) (suc p) msg))

pub copy_out-copy_in_apart :
    (mem : ℕ → ℕ) (p : ℕ) (msg : List ℕ) (r n : ℕ)
    → (r + n ≤ p) ⊎ (p + length msg ≤ r)
    → copy_out (copy_in mem p msg) r n ≡ copy_out mem r n
unfolding copy_out
copy_out-copy_in_apart mem p msg r zero h = refl
copy_out-copy_in_apart mem p msg r (suc n) h =
    rw
      (copy_in_outside mem p msg r
        (elim h [ inl l ↦ inl (omega arith) | inr g ↦ inr (omega arith) ]))
      (ap (λ rest. mem r ∷ rest)
        (copy_out-copy_in_apart mem p msg (suc r) n
          (elim h [ inl l ↦ inl (omega arith) | inr g ↦ inr (omega arith) ])))
