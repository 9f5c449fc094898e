-- ===== src/Base/Tests.antt =====
-- Boolean tests on the native numbers, the conditional, and maps that are written at one address.
use Prim.Native.Nat.{ℕ, zero, suc, ◌+◌, ◌*◌, ◌≤◌, ◌<◌, compare, Ordering}
use mathlib.Core.Path.{◌≡◌, refl}
use mathlib.Core.Logic.{◌⊎◌, inl, inr, ◌≢◌}
use mathlib.Core.Bool.{Bool, true, false}
use mathlib.Core.Option.{Option, none, some}
use native.Mathlib.Omega.{arith}

abbrev pub ltb : ℕ → ℕ → Bool
ltb a b = elim (compare a b) [ Ordering.lt ↦ true | _ ↦ false ]

abbrev pub leb : ℕ → ℕ → Bool
leb a b = elim (compare a b) [ Ordering.gt ↦ false | _ ↦ true ]

infix 50 ◌==◌
abbrev pub ◌==◌ : ℕ → ℕ → Bool
a == b = elim (compare a b) [ Ordering.eq ↦ true | _ ↦ false ]

infix 1 if◌then◌else◌
abbrev pub if◌then◌else◌ {ℓ} : {A : Type ℓ} → Bool → A → A → A
if true then x else y = x
if false then x else y = y

pub ==_refl : (a : ℕ) → (a == a) ≡ true
==_refl a = ground arith

pub ==_ne : (a b : ℕ) → a ≢ b → (a == b) ≡ false
==_ne a b h = ground arith

pub ==→eq : (a b : ℕ) → (a == b) ≡ true → a ≡ b
==→eq a b h = ground arith

pub ==→ne : (a b : ℕ) → (a == b) ≡ false → a ≢ b
==→ne a b h = ground arith

pub ltb→lt : (a b : ℕ) → ltb a b ≡ true → a < b
ltb→lt a b h = ground arith

pub ltb→le : (a b : ℕ) → ltb a b ≡ false → b ≤ a
ltb→le a b h = ground arith

pub ltb_no : (a b : ℕ) → b ≤ a → ltb a b ≡ false
ltb_no a b h = ground arith

pub ltb_yes : (a b : ℕ) → a < b → ltb a b ≡ true
ltb_yes a b h = ground arith

pub leb→le : (a b : ℕ) → leb a b ≡ true → a ≤ b
leb→le a b h = ground arith

pub leb→lt : (a b : ℕ) → leb a b ≡ false → b < a
leb→lt a b h = ground arith

pub Bool-cases : (b : Bool) → (b ≡ true) ⊎ (b ≡ false)
Bool-cases true = inl refl
Bool-cases false = inr refl

pub Option-cases {ℓ} : {A : Type ℓ} (o : Option A) → (o ≡ none) ⊎ ((a : A) × (o ≡ some a))
Option-cases none = inl refl
Option-cases (some a) = inr (a, refl)

-- `p == q` on pointers, where `none` is NULL.
abbrev pub same : Option ℕ → Option ℕ → Bool
same none none = true
same none (some b) = false
same (some a) none = false
same (some a) (some b) = a == b

-- A write `p->field = v` in the map of that field.
abbrev pub update {ℓ} : {A : Type ℓ} → (ℕ → A) → ℕ → A → ℕ → A
update f p v q = if q == p then v else f q

pub update_self {ℓ} : {A : Type ℓ} (f : ℕ → A) (p : ℕ) (v : A) → update f p v p ≡ v
update_self f p v = rw (==_refl p)

pub update_ne {ℓ} : {A : Type ℓ} (f : ℕ → A) (p q : ℕ) (v : A) → q ≢ p → update f p v q ≡ f q
update_ne f p q v h = rw (==_ne q p h)

pub none-some : {a : ℕ} → none ≡ some a → ⊥
none-some e = cc

pub some_inj : {a b : ℕ} → some a ≡ some b → a ≡ b
some_inj {a} {b} h = cc

-- Of products with a common factor, the next one is a factor further on.
pub mul_lt : (s a b : ℕ) → a < b → s * a + s ≤ s * b
mul_lt s a zero h = absurd (omega arith)
mul_lt s zero (suc b) h = grind arith
mul_lt s (suc a) (suc b) h =
    let rest : s * a + s ≤ s * b = mul_lt s a b (omega arith) in grind arith
