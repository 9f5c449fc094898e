-- ===== src/Base/Outcome.antt =====
-- Results of C code: a value, a fault at a NULL pointer, or a loop that used up its rounds.
use mathlib.Core.Option.{Option, none, some}
use Prim.Native.Nat.{ℕ}

pub data Run {ℓ} (A : Type ℓ) : Type ℓ where
  ok : A → Run A
  null_deref : Run A
  out_of_fuel : Run A

infixl 5 ◌>>=◌ ◌>>◌
abbrev pub ◌>>=◌ {ℓ κ} : {A : Type ℓ} {B : Type κ} → Run A → (A → Run B) → Run B
ok a >>= f = f a
null_deref >>= f = null_deref
out_of_fuel >>= f = out_of_fuel

abbrev ◌>>◌ {ℓ κ} : {A : Type ℓ} {B : Type κ} → Run A → Run B → Run B
m >> k = m >>= λ _. k

-- `p->…` needs a pointer that is not NULL.
abbrev pub deref : Option ℕ → Run ℕ
deref none = null_deref
deref (some p) = ok p
