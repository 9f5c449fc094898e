-- ===== src/Mutex/HandOver.antt =====
-- `rx_mutex_unlock` with tasks waiting.
use mathlib.Core.Path.{fun_ext}
use rosx.Base.{
  ℕ, suc, zero, ◌<◌, ◌≤◌, ◌≡◌, refl, sym, ap, ◌∙◌, subst, ◌⊎◌, true, Option, none, some, List, [],
  ◌∷◌, arith, ltb, ltb→lt, ltb→le, ◌==◌, ==_refl, ==→eq, Bool-cases, inl, inr, update, update_self,
  update_ne, ok,
}
use rosx.Base.Lists.{length, NotIn, Distinct, Apart, Apart-cons}
use rosx.Base.Links.{IsList, IsList-agree}
use rosx.Kernel.{ready, os_ok, Kernel}
use rosx.ReadyQueue.Spec.{insert, IsReady, IsSorted-update, NoneAbove}
use rosx.ReadyQueue.Add.{add_to_ready_q-refines}
use rosx.Mutex.{unlock, restore, hand_over, drop_timer, inherit}
use rosx.Mutex.Laws.{mutex_of}

NoneAbove-outside :
    (prio : ℕ → ℕ) (o a v : ℕ) (ws : List ℕ)
    → NotIn o ws
    → NoneAbove (update prio o a) v ws
    → NoneAbove prio v ws
NoneAbove-outside prio o a v [] n h = tt
NoneAbove-outside prio o a v (w ∷ ws) n h = (
  subst (λ q. v ≤ q) (update_ne prio o w a (λ e. n.0 (sym e))) h.0,
  NoneAbove-outside prio o a v ws n.1 h.1,
)

update_same : (f : ℕ → ℕ) (o : ℕ) → f ≡ update f o (f o)
update_same f o =
    fun_ext
      (λ q. elim (Bool-cases (q == o)) [ inl e ↦ rw e (ap f (==→eq q o e)) | inr e ↦ rw e refl ])

update_twice : (f : ℕ → ℕ) (o a v : ℕ) → update (update f o a) o v ≡ update f o v
update_twice f o a v =
    fun_ext (λ q. elim (Bool-cases (q == o)) [ inl e ↦ rw e refl | inr e ↦ rw e refl ])

-- The priority `v` is that of one of the tasks.
abbrev pub IsLent : (ℕ → ℕ) → ℕ → List ℕ → Type 0
IsLent prio v [] = ⊥
IsLent prio v (w ∷ ws) = (v ≡ prio w) ⊎ IsLent prio v ws

IsLent-outside :
    (prio : ℕ → ℕ) (o a v : ℕ) (ws : List ℕ)
    → NotIn o ws
    → IsLent (update prio o a) v ws
    → IsLent prio v ws
IsLent-outside prio o a v [] n h = absurd h
IsLent-outside prio o a v (w ∷ ws) n (inl e) = inl (e ∙ update_ne prio o w a (λ q. n.0 (sym q)))
IsLent-outside prio o a v (w ∷ ws) n (inr h) = inr (IsLent-outside prio o a v ws n.1 h)

-- The walk gives the owner the least of its own priority and those of the waiting tasks.
inherit_lem :
    (fuel : ℕ) (nx : ℕ → Option ℕ) (prio : ℕ → ℕ) (o : ℕ) (h : Option ℕ) (ws : List ℕ)
    → length ws < fuel
    → IsList nx h ws
    → NotIn o ws
    → (v : ℕ) × (inherit fuel nx prio o h ≡ ok (update prio o v))
      × (v ≤ prio o)
      × NoneAbove prio v ws
      × ((v ≡ prio o) ⊎ IsLent prio v ws)
unfolding inherit
inherit_lem zero nx prio o h ws b l n = absurd (omega arith)
inherit_lem (suc f) nx prio o h [] b l n =
    (prio o, rw (l, inherit) (ap ok (update_same prio o)), omega arith, tt, inl refl)
inherit_lem (suc f) nx prio o h (w ∷ ws) b l n = elim (Bool-cases (ltb (prio w) (prio o))) [
  | inl e ↦
      let less : prio w < prio o = ltb→lt (prio w) (prio o) e in
      let (v, run, low, none_above, from) =
        inherit_lem f nx (update prio o (prio w)) o (nx w) ws (omega arith) l.1 n.1 in
      let own : update prio o (prio w) o ≡ prio w = update_self prio o (prio w) in
      (
        v,
        rw (l.0, inherit) (rw e (run ∙ ap ok (update_twice prio o (prio w) v))),
        omega (arith, own),
        (omega (arith, own), NoneAbove-outside prio o (prio w) v ws n.1 none_above),
        elim from [
          | inl q ↦ inr (inl (q ∙ own))
          | inr lent ↦ inr (inr (IsLent-outside prio o (prio w) v ws n.1 lent))
        ],
      )
  | inr e ↦
      let le : prio o ≤ prio w = ltb→le (prio w) (prio o) e in
      let (v, run, low, none_above, from) =
        inherit_lem f nx prio o (nx w) ws (omega arith) l.1 n.1 in
      (
        v,
        rw (l.0, inherit) (rw e run),
        low,
        (omega arith, none_above),
        elim from [ inl q ↦ inl q | inr q ↦ inr (inr q) ],
      )
]

drop_timer-none : (k : Kernel) (t : ℕ) → k.timer t ≡ none → drop_timer k t ≡ ok k
unfolding drop_timer
drop_timer-none k t e = rw (e, drop_timer) refl

-- An unlock by the owner, at its own priority, while tasks without a timer wait: the mutex goes
-- to the task that waited longest. That task is ready and has the most urgent of the priorities
-- of itself and the tasks that still wait, it stands in the ready queue by it, and the rest of
-- the wait queue is as before.
pub unlock-hands_over :
    (fuel : ℕ) (next : Option ℕ) (k : Kernel) (t : ℕ) (ws xs : List ℕ)
    → length ws < fuel
    → length xs < fuel
    → IsReady k xs
    → IsList k.next (some t) (t ∷ ws)
    → Distinct (t ∷ ws)
    → Apart (t ∷ ws) xs
    → k.timer t ≡ none
    → k.prio k.curr ≡ k.orig_prio k.curr
    → (v : ℕ) × (k' : Kernel) × (unlock fuel (mutex_of true (some k.curr) (some t) next) k
        ≡ ok (os_ok, mutex_of true (some t) (k.next t) next, k'))
      × IsList k'.next (k.next t) ws
      × (k'.prio ≡ update k.prio t v)
      × (v ≤ k.prio t)
      × NoneAbove k.prio v ws
      × ((v ≡ k.prio t) ⊎ IsLent k.prio v ws)
      × IsReady k' (insert k'.prio t xs)
      × (k'.state t ≡ ready)
      × (k'.mutex t ≡ none)
unfolding unlock restore hand_over
unlock-hands_over fuel next k t ws xs b c r l d a untimed own =
    let same : (k.prio k.curr == k.orig_prio k.curr) ≡ true =
      rw own (==_refl (k.orig_prio k.curr)) in
    let (v, walk, low, none_above, from) =
      inherit_lem fuel k.next k.prio t (k.next t) ws b l.1 d.0 in
    let k1 : Kernel = record k {
      prio = update k.prio t v;
      state = update k.state t ready;
      mutex = update k.mutex t none;
    } in
    let r1 : IsReady k1 xs = record {
      linked = r.linked;
      distinct = r.distinct;
      sorted = IsSorted-update k.prio t v xs a.0 r.sorted;
    } in
    let (k', e, r', off, frame) =
      add_to_ready_q-refines fuel k1 t xs c r1 a.0 (rw (update_self k.state t ready) refl) in
    let prios : k'.prio ≡ update k.prio t v = ap (λ q. q.prio) frame in
    (
      v,
      k',
      rw (==_refl k.curr) (rw same (rw (drop_timer-none k t untimed) (rw walk (rw e refl)))),
      IsList-agree k.next k'.next (k.next t) (t ∷ xs) ws off (Apart-cons t ws xs d.0 a.1) l.1,
      prios,
      low,
      none_above,
      from,
      rw prios r',
      ap (λ q. q.state t) frame ∙ update_self k.state t ready,
      ap (λ q. q.mutex t) frame ∙ update_self k.mutex t none,
    )
