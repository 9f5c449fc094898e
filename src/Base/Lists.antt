-- ===== src/Base/Lists.antt =====
-- Lists measured by native numbers, membership by recursion, and lists without repetition.
use Prim.Native.Nat.{ℕ, suc, ◌+◌, ◌≤◌}
use mathlib.Core.Path.{◌≡◌, refl, sym, ap}
use mathlib.Core.Logic.{◌≢◌, ◌⊎◌, inl, inr}
use mathlib.Core.List.{List, [], ◌∷◌, ◌++◌}
use native.Mathlib.Omega.{arith}
use rosx.Base.Tests.{◌==◌, if◌then◌else◌, Bool-cases, ==→eq, ==→ne}

module _ {ℓ} {A : Type ℓ} where
  abbrev pub length : List A → ℕ
  length [] = 0
  length (x ∷ xs) = suc (length xs)

  pub length-append : (xs ys : List A) → length (xs ++ ys) ≡ length xs + length ys
  length-append [] ys = omega arith
  length-append (x ∷ xs) ys = omega (arith, length-append xs ys)

abbrev pub NotIn : ℕ → List ℕ → Type 0
NotIn a [] = Unit
NotIn a (x ∷ xs) = (a ≢ x) × NotIn a xs

abbrev pub Distinct : List ℕ → Type 0
Distinct [] = Unit
Distinct (x ∷ xs) = NotIn x xs × Distinct xs

-- No node of `xs` is on `ys`.
abbrev pub Apart : List ℕ → List ℕ → Type 0
Apart [] ys = Unit
Apart (x ∷ xs) ys = NotIn x ys × Apart xs ys

pub NotIn-append : (a : ℕ) (xs ys : List ℕ) → NotIn a xs → NotIn a ys → NotIn a (xs ++ ys)
NotIn-append a [] ys h k = k
NotIn-append a (x ∷ xs) ys h k = (h.0, NotIn-append a xs ys h.1 k)

pub NotIn-append_left : (a : ℕ) (xs ys : List ℕ) → NotIn a (xs ++ ys) → NotIn a xs
NotIn-append_left a [] ys h = tt
NotIn-append_left a (x ∷ xs) ys h = (h.0, NotIn-append_left a xs ys h.1)

pub NotIn-append_right : (a : ℕ) (xs ys : List ℕ) → NotIn a (xs ++ ys) → NotIn a ys
NotIn-append_right a [] ys h = h
NotIn-append_right a (x ∷ xs) ys h = NotIn-append_right a xs ys h.1

pub Distinct-snoc : (xs : List ℕ) (a : ℕ) → Distinct xs → NotIn a xs → Distinct (xs ++ a ∷ [])
Distinct-snoc [] a d n = (tt, tt)
Distinct-snoc (x ∷ xs) a d n =
    (NotIn-append x xs (a ∷ []) d.0 ((λ e. n.0 (sym e)), tt), Distinct-snoc xs a d.1 n.1)

-- The list without the first `a`.
abbrev pub erase : ℕ → List ℕ → List ℕ
erase a [] = []
erase a (x ∷ xs) = if x == a then xs else x ∷ erase a xs

pub NotIn-erase : (b a : ℕ) (xs : List ℕ) → NotIn b xs → NotIn b (erase a xs)
NotIn-erase b a [] n = tt
NotIn-erase b a (x ∷ xs) n = elim (Bool-cases (x == a)) [
  | inl e ↦ rw e n.1
  | inr e ↦ rw e (n.0, NotIn-erase b a xs n.1)
]

pub Distinct-erase : (a : ℕ) (xs : List ℕ) → Distinct xs → Distinct (erase a xs)
Distinct-erase a [] d = tt
Distinct-erase a (x ∷ xs) d = elim (Bool-cases (x == a)) [
  | inl e ↦ rw e d.1
  | inr e ↦ rw e (NotIn-erase x a xs d.0, Distinct-erase a xs d.1)
]

-- Without repetition, nothing is left of what was erased.
pub NotIn-erase_self : (a : ℕ) (xs : List ℕ) → Distinct xs → NotIn a (erase a xs)
NotIn-erase_self a [] d = tt
NotIn-erase_self a (x ∷ xs) d = elim (Bool-cases (x == a)) [
  | inl e ↦ rw e (rw (← ==→eq x a e) d.0)
  | inr e ↦ rw e ((λ q. ==→ne x a e (sym q)), NotIn-erase_self a xs d.1)
]

pub length-erase : (a : ℕ) (xs : List ℕ) → length (erase a xs) ≤ length xs
length-erase a [] = omega arith
length-erase a (x ∷ xs) = elim (Bool-cases (x == a)) [
  | inl e ↦ rw e (omega arith)
  | inr e ↦ rw e (omega (arith, length-erase a xs))
]

abbrev pub In : ℕ → List ℕ → Type 0
In a [] = ⊥
In a (x ∷ xs) = (a ≡ x) ⊎ In a xs

pub In-tail : (a x : ℕ) (xs : List ℕ) → a ≢ x → In a (x ∷ xs) → In a xs
In-tail a x xs ne (inl e) = absurd (ne e)
In-tail a x xs ne (inr i) = i

-- A list without one of its nodes.
NotIn-drop :
    (a : ℕ) (xs : List ℕ) (p : ℕ) (ys : List ℕ) → NotIn a (xs ++ p ∷ ys) → NotIn a (xs ++ ys)
NotIn-drop a [] p ys n = n.1
NotIn-drop a (x ∷ xs) p ys n = (n.0, NotIn-drop a xs p ys n.1)

pub Distinct-drop :
    (xs : List ℕ) (p : ℕ) (ys : List ℕ) → Distinct (xs ++ p ∷ ys) → Distinct (xs ++ ys)
Distinct-drop [] p ys d = d.1
Distinct-drop (x ∷ xs) p ys d = (NotIn-drop x xs p ys d.0, Distinct-drop xs p ys d.1)

Apart-nil : (xs : List ℕ) → Apart xs []
Apart-nil [] = tt
Apart-nil (x ∷ xs) = (tt, Apart-nil xs)

pub Apart-cons : (a : ℕ) (xs ys : List ℕ) → NotIn a xs → Apart xs ys → Apart xs (a ∷ ys)
Apart-cons a [] ys n h = tt
Apart-cons a (x ∷ xs) ys n h = (((λ e. n.0 (sym e)), h.0), Apart-cons a xs ys n.1 h.1)

pub Apart-sym : (xs ys : List ℕ) → Apart xs ys → Apart ys xs
Apart-sym [] ys h = Apart-nil ys
Apart-sym (x ∷ xs) ys h = Apart-cons x ys xs h.0 (Apart-sym xs ys h.1)

pub Apart-tail : (a : ℕ) (xs ys : List ℕ) → Apart xs (a ∷ ys) → Apart xs ys
Apart-tail a [] ys h = tt
Apart-tail a (x ∷ xs) ys h = (h.0.1, Apart-tail a xs ys h.1)

pub length-erase_of_In : (a : ℕ) (xs : List ℕ) → In a xs → suc (length (erase a xs)) ≡ length xs
length-erase_of_In a [] i = absurd i
length-erase_of_In a (x ∷ xs) i = elim (Bool-cases (x == a)) [
  | inl e ↦ rw e refl
  | inr e ↦ rw e (ap suc (length-erase_of_In a xs (In-tail a x xs (λ q. ==→ne x a e (sym q)) i)))
]

pub NotIn-Apart : (a : ℕ) (xs ys : List ℕ) → In a xs → Apart xs ys → NotIn a ys
NotIn-Apart a [] ys i h = absurd i
NotIn-Apart a (x ∷ xs) ys (inl e) h = rw e h.0
NotIn-Apart a (x ∷ xs) ys (inr i) h = NotIn-Apart a xs ys i h.1

pub Apart-erase : (a : ℕ) (xs ys : List ℕ) → Apart xs ys → Apart (erase a xs) ys
Apart-erase a [] ys h = tt
Apart-erase a (x ∷ xs) ys h = elim (Bool-cases (x == a)) [
  | inl e ↦ rw e h.1
  | inr e ↦ rw e (h.0, Apart-erase a xs ys h.1)
]

pub Apart-snoc :
    (xs : List ℕ) (a : ℕ) (ys : List ℕ) → Apart xs ys → NotIn a ys → Apart (xs ++ a ∷ []) ys
Apart-snoc [] a ys h n = (n, tt)
Apart-snoc (x ∷ xs) a ys h n = (h.0, Apart-snoc xs a ys h.1 n)
