-- ===== src/MsgQueue/Slots.antt =====
-- The slots of a queue: `advance` on the offset of a slot, and slots apart.
use rosx.Base.{
  mul_lt, ℕ, suc, ◌+◌, ◌*◌, ◌<◌, ◌≤◌, ◌≡◌, ◌≢◌, refl, ◌⊎◌, inl, inr, arith, ltb, ltb→lt, ltb→le,
  if◌then◌else◌, Bool-cases,
}

-- Slots do not overlap.
pub mul_apart : (s a b : ℕ) → a ≢ b → (s * a + s ≤ s * b) ⊎ (s * b + s ≤ s * a)
mul_apart s a b h = elim (Bool-cases (ltb a b)) [
  | inl e ↦ inl (mul_lt s a b (ltb→lt a b e))
  | inr e ↦ let le : b ≤ a = ltb→le a b e in inr (mul_lt s b a (omega arith))
]

pub mul_ne : (s a b : ℕ) → 0 < s → a ≢ b → s * a ≢ s * b
mul_ne s a b h ne e = elim (mul_apart s a b ne) [
  | inl l ↦ absurd (omega arith)
  | inr g ↦ absurd (omega arith)
]

-- The slot behind slot `j` of a ring whose last slot is `n`.
abbrev pub behind : ℕ → ℕ → ℕ
behind n j = if ltb j n then suc j else 0

pub behind-cases :
    (n j : ℕ)
    → j ≤ n
    → (behind n j ≤ n) × (((j < n) × (behind n j ≡ suc j)) ⊎ ((j ≡ n) × (behind n j ≡ 0)))
behind-cases n j h = elim (Bool-cases (ltb j n)) [
  | inl e ↦ let lt : j < n = ltb→lt j n e in rw e (omega arith, inl (lt, refl))
  | inr e ↦ let le : n ≤ j = ltb→le j n e in rw e (omega arith, inr (omega arith, refl))
]

-- Slot `i` is `len` slots behind slot `j`.
abbrev pub IsAt : (n j len i : ℕ) → Type 0
IsAt n j len i = (i ≡ j + len) ⊎ (i + suc n ≡ j + len)

pub IsAt-behind : (n j len i : ℕ) → i ≤ n → j ≤ n → IsAt n j (suc len) i → IsAt n (behind n j) len i
IsAt-behind n j len i hi h at = ground arith

pub IsAt-grow :
    (n j len i : ℕ) → i ≤ n → j ≤ n → len ≤ n → IsAt n j len i → IsAt n j (suc len) (behind n i)
IsAt-grow n j len i hi hj hl at = ground arith

pub IsAt-empty : (n j len i : ℕ) → i ≤ n → j ≤ n → len ≤ n → IsAt n j len i → i ≡ j → len ≡ 0
IsAt-empty n j len i hi hj hl at e = ground arith

pub IsAt-full : (n j i : ℕ) → i ≤ n → j ≤ n → IsAt n j (suc n) i → i ≡ j
IsAt-full n j i hi hj at = ground arith

pub IsAt-none : (n j i : ℕ) → i ≤ n → j ≤ n → IsAt n j 0 i → i ≡ j
IsAt-none n j i hi hj at = ground arith
