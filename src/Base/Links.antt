-- ===== src/Base/Links.antt =====
-- Singly linked lists that run through the `next` fields of C structures.
use Prim.Native.Nat.{ℕ, zero, suc, ◌<◌}
use mathlib.Core.Path.{◌≡◌, refl, sym, ◌∙◌}
use mathlib.Core.Logic.{inl, inr}
use mathlib.Core.Option.{Option, none, some}
use mathlib.Core.List.{List, [], ◌∷◌, ◌++◌}
use native.Mathlib.Omega.{arith}
use rosx.Base.Tests.{◌==◌, if◌then◌else◌, Bool-cases, ==→ne, update, update_self, update_ne}
use rosx.Base.Outcome.{Run, ok, out_of_fuel, null_deref, ◌>>=◌}
use rosx.Base.Lists.{length, NotIn, Distinct, Apart, erase, In, In-tail}

-- The nodes that `next` leads through from `h`, up to NULL, are `xs`.
abbrev pub IsList : (ℕ → Option ℕ) → Option ℕ → List ℕ → Type 0
IsList nx h [] = h ≡ none
IsList nx h (x ∷ xs) = (h ≡ some x) × IsList nx (nx x) xs

-- Outside `xs` the two maps agree.
abbrev pub AgreeOff : List ℕ → (ℕ → Option ℕ) → (ℕ → Option ℕ) → Type 0
AgreeOff xs f g = (q : ℕ) → NotIn q xs → g q ≡ f q

-- A write to a node that is not on the list leaves the list as it was.
pub IsList-update :
    (nx : ℕ → Option ℕ) (h : Option ℕ) (xs : List ℕ) (p : ℕ) (v : Option ℕ)
    → NotIn p xs
    → IsList nx h xs
    → IsList (update nx p v) h xs
IsList-update nx h [] p v n l = l
IsList-update nx h (x ∷ xs) p v n l =
    (l.0, rw (update_ne nx p x v (λ e. n.0 (sym e))) (IsList-update nx (nx x) xs p v n.1 l.1))

-- Nor does any change outside a set of nodes that the list keeps apart from.
pub IsList-agree :
    (f g : ℕ → Option ℕ) (h : Option ℕ) (ys xs : List ℕ)
    → AgreeOff ys f g
    → Apart xs ys
    → IsList f h xs
    → IsList g h xs
IsList-agree f g h ys [] a ap' l = l
IsList-agree f g h ys (x ∷ xs) a ap' l =
    (l.0, rw (a x ap'.0) (IsList-agree f g (f x) ys xs a ap'.1 l.1))

-- `while (t->next) t = t->next;`
unfoldable pub last : ℕ → (ℕ → Option ℕ) → ℕ → Run ℕ
last zero nx t = out_of_fuel
last (suc fuel) nx t = elim (nx t) [ none ↦ ok t | some u ↦ last fuel nx u ]

-- The tail insertion of the wait queues: as the head of an empty list, or behind the last node.
unfoldable pub append_link : ℕ → (ℕ → Option ℕ) → Option ℕ → ℕ → Run (Option ℕ × (ℕ → Option ℕ))
append_link fuel nx none new = ok (some new, nx)
append_link fuel nx (some h) new = do t ← last fuel nx h; ok (some h, update nx t (some new))

-- The last node is found within as many rounds as the list has nodes, and a write behind it
-- makes the list one node longer.
pub last_lem :
    (fuel : ℕ) (nx : ℕ → Option ℕ) (x : ℕ) (xs : List ℕ) (new : ℕ)
    → length xs < fuel
    → IsList nx (nx x) xs
    → Distinct (x ∷ xs)
    → NotIn new (x ∷ xs)
    → nx new ≡ none
    → (t : ℕ) × (last fuel nx x ≡ ok t)
      × IsList (update nx t (some new)) (update nx t (some new) x) (xs ++ new ∷ [])
      × AgreeOff (x ∷ xs) nx (update nx t (some new))
      × (update nx t (some new) new ≡ none)
unfolding last
last_lem zero nx x xs new b l d n e = absurd (omega arith)
last_lem (suc f) nx x [] new b l d n e = (
  x,
  rw (l, last) refl,
  (update_self nx x (some new), rw (update_ne nx x new (some new) n.0) e),
  (λ q m. update_ne nx x q (some new) m.0),
  rw (update_ne nx x new (some new) n.0) e,
)
last_lem (suc f) nx x (y ∷ ys) new b l d n e =
    let (t, found, tail, off, end) = last_lem f nx y ys new (omega arith) l.1 d.1 n.1 e in
    (t, rw (l.0, last) found, (off x d.0 ∙ l.0, tail), (λ q m. off q m.1), end)

-- The tail insertion ends, and leaves the list with the new node at its end; no node outside
-- the list is written.
pub append_link_lem :
    (fuel : ℕ) (nx : ℕ → Option ℕ) (h : Option ℕ) (xs : List ℕ) (new : ℕ)
    → length xs < suc fuel
    → IsList nx h xs
    → Distinct xs
    → NotIn new xs
    → nx new ≡ none
    → (h' : Option ℕ) × (g : ℕ → Option ℕ) × (append_link fuel nx h new ≡ ok (h', g))
      × IsList g h' (xs ++ new ∷ [])
      × AgreeOff xs nx g
unfolding append_link
append_link_lem fuel nx h [] new b l d n e =
    (some new, nx, rw (l, append_link) refl, (refl, e), (λ q m. refl))
append_link_lem fuel nx h (x ∷ xs) new b l d n e =
    let (t, found, tail, off, end) = last_lem fuel nx x xs new (omega arith) l.1 d n e in
    (some x, update nx t (some new), rw (l.0, append_link) (rw found refl), (refl, tail), off)

-- `while(lead != task) { follow = lead; lead = lead->next; }` and `follow->next = lead->next`,
-- from the node behind `follow`.
pub unhook_behind : ℕ → (ℕ → Option ℕ) → ℕ → ℕ → Run (ℕ → Option ℕ)
unhook_behind zero nx task follow = out_of_fuel
unhook_behind (suc fuel) nx task follow = elim (nx follow) [
  | none ↦ null_deref
  | some lead ↦
      if lead == task then ok (update nx follow (nx lead)) else unhook_behind fuel nx task lead
]

-- The removal of a task from a wait queue by its timeout handler.
unfoldable pub unhook : ℕ → (ℕ → Option ℕ) → Option ℕ → ℕ → Run (Option ℕ × (ℕ → Option ℕ))
unhook fuel nx none task = null_deref
unhook fuel nx (some h) task =
    if h == task then ok (nx h, nx) else (do g ← unhook_behind fuel nx task h; ok (some h, g))

unhook_behind_lem :
    (fuel : ℕ) (nx : ℕ → Option ℕ) (t a : ℕ) (xs : List ℕ)
    → length xs < suc fuel
    → IsList nx (nx a) xs
    → Distinct (a ∷ xs)
    → In t xs
    → (g : ℕ → Option ℕ) × (unhook_behind fuel nx t a ≡ ok g)
      × IsList g (g a) (erase t xs)
      × AgreeOff (a ∷ xs) nx g
unfolding unhook_behind
unhook_behind_lem fuel nx t a [] b l d i = absurd i
unhook_behind_lem zero nx t a (x ∷ xs) b l d i = absurd (omega arith)
unhook_behind_lem (suc f) nx t a (x ∷ xs) b l d i = elim (Bool-cases (x == t)) [
  | inl hit ↦ (
    update nx a (nx x),
    rw (l.0, unhook_behind) (rw hit refl),
    rw hit (rw (update_self nx a (nx x)) (IsList-update nx (nx x) xs a (nx x) d.0.1 l.1)),
    (λ q m. update_ne nx a q (nx x) m.0),
  )
  | inr miss ↦
      let (g, e, tail, off) =
        unhook_behind_lem f nx t x xs (omega arith) l.1 d.1
          (In-tail t x xs (λ q. ==→ne x t miss (sym q)) i) in
      (g, rw (l.0, unhook_behind) (rw miss e), rw miss (off a d.0 ∙ l.0, tail), (λ q m. off q m.1))
]

-- A task on the queue is found and taken off it; no node outside the queue is written.
pub unhook_lem :
    (fuel : ℕ) (nx : ℕ → Option ℕ) (h : Option ℕ) (t : ℕ) (xs : List ℕ)
    → length xs < suc fuel
    → IsList nx h xs
    → Distinct xs
    → In t xs
    → (h' : Option ℕ) × (g : ℕ → Option ℕ) × (unhook fuel nx h t ≡ ok (h', g))
      × IsList g h' (erase t xs)
      × AgreeOff xs nx g
unfolding unhook
unhook_lem fuel nx h t [] b l d i = absurd i
unhook_lem fuel nx h t (x ∷ xs) b l d i = elim (Bool-cases (x == t)) [
  | inl hit ↦ (nx x, nx, rw (l.0, unhook) (rw hit refl), rw hit l.1, (λ q m. refl))
  | inr miss ↦
      let (g, e, tail, off) =
        unhook_behind_lem fuel nx t x xs (omega arith) l.1 d
          (In-tail t x xs (λ q. ==→ne x t miss (sym q)) i) in
      (some x, g, rw (l.0, unhook) (rw (miss, e) refl), rw miss (refl, tail), off)
]
