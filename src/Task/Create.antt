-- ===== src/Task/Create.antt =====
-- Creating and deleting a task, seen on the ready queue and on the list of all tasks.
use rosx.Base.{
  ℕ, zero, suc, ◌+◌, ◌%◌, ◌^◌, subst, ◌<◌, ◌≤◌, ◌≡◌, refl, sym, ap, ◌∙◌, ◌≢◌, inl, inr, false, ◌||◌,
  Option, none, some, List, [], ◌∷◌, ◌++◌, arith, ◌==◌, ltb, ==_refl, ==_ne, ==→eq, ==→ne, same,
  update, update_self, update_ne, if◌then◌else◌, Bool-cases, Run, ok, ◌>>=◌, deref,
}
use rosx.Base.Int.{ℤ}
use rosx.Base.Lists.{length, NotIn, Distinct, erase, In, In-tail}
use rosx.Base.Links.{IsList, AgreeOff, IsList-update, append_link_lem}
use rosx.Kernel.{Status, ready, os_ok, Kernel}
use rosx.ReadyQueue.Spec.{insert, IsReady, IsSorted-update}
use rosx.ReadyQueue.Add.{add_to_ready_q-refines}
use rosx.Task.{
  str_len, least_prio, init_tcb, create_task, find_before, delete_task, is_suspended, is_ready,
}

-- Creating a ready task with a name that is not too long, on a stack of the caller's, gives it the
-- priority asked for, or 31 where that is more, and enters it into the ready queue by it and at the
-- end of the list of all tasks. Its function, its time slice and the end of its stack are those
-- given, and no other task's priority changes.
pub create_task-refines :
    (fuel : ℕ) (k : Kernel) (t : ℕ) (name : List ℕ) (prio p size func : ℕ) (slice : ℤ)
    (xs ls : List ℕ)
    → length xs < fuel
    → length ls < suc fuel
    → length name ≤ str_len
    → IsReady k xs
    → NotIn t xs
    → IsList k.list k.list_head ls
    → Distinct ls
    → NotIn t ls
    → (k' : Kernel) × (create_task fuel k t name prio (some p) size func ready slice
        ≡ ok (os_ok, k'))
      × IsReady k' (insert k'.prio t xs)
      × IsList k'.list k'.list_head (ls ++ t ∷ [])
      × (k'.num_task ≡ suc k.num_task)
      × (k'.prio t ≤ least_prio)
      × (k'.state t ≡ ready)
      × (k'.prio ≡ update k.prio t (if ltb least_prio prio then least_prio else prio))
      × (k'.orig_prio t ≡ k'.prio t)
      × (k'.func t ≡ func)
      × (k'.stack_start t ≡ (p + size) % 2 ^ 32)
      × (k'.time_slice t ≡ slice)
unfolding create_task
create_task-refines fuel k t name prio p size func slice xs ls b c short r n l d m =
    let pr = if ltb least_prio prio then least_prio else prio in
    let sp = (p + size) % 2 ^ 32 in
    let k1 : Kernel = init_tcb k t name prio sp size func ready slice in
    let r1 : IsReady k1 xs = record {
      linked = r.linked;
      distinct = r.distinct;
      sorted = IsSorted-update k.prio t pr xs n r.sorted;
    } in
    let (k2, e, r2, off, frame) =
      add_to_ready_q-refines fuel k1 t xs b r1 n (rw (update_self k.state t ready) refl) in
    let (h, g, linked, all, off') =
      append_link_lem fuel k1.list k1.list_head ls t c
        (IsList-update k.list k.list_head ls t none m l) d m (update_self k.list t none) in
    let same_list : k2.list ≡ k1.list = ap (λ s. s.list) frame in
    let same_head : k2.list_head ≡ k1.list_head = ap (λ s. s.list_head) frame in
    let same_prio : k2.prio ≡ k1.prio = ap (λ s. s.prio) frame in
    let r3 : IsReady k2 (insert k2.prio t xs) =
      subst (λ f. IsReady k2 (insert f t xs)) (sym same_prio) r2 in
    let fits : ltb str_len (length name) ≡ false = ground arith in
    let capped : k2.prio t ≡ pr = ap (λ f. f t) same_prio ∙ update_self k.prio t pr in
    (
      record k2 { list_head = h; list = g; num_task = suc k2.num_task },
      rw fits (rw e (rw (same_list, same_head, linked) refl)),
      record { linked = r3.linked; distinct = r3.distinct; sorted = r3.sorted },
      all,
      ap (λ s. suc s.num_task) frame,
      rw capped (ground arith),
      ap (λ s. s.state t) frame ∙ update_self k.state t ready,
      same_prio,
      ap (λ s. s.orig_prio t) frame ∙ update_self k.orig_prio t pr ∙ sym capped,
      ap (λ s. s.func t) frame ∙ update_self k.func t func,
      ap (λ s. s.stack_start t) frame ∙ update_self k.stack_start t sp,
      ap (λ s. s.time_slice t) frame ∙ update_self k.time_slice t slice,
    )

-- The walk of `rx_delete_task` from a node before the task.
find_before_lem :
    (fuel : ℕ) (list : ℕ → Option ℕ) (t a : ℕ) (xs : List ℕ)
    → length xs < fuel
    → IsList list (list a) xs
    → Distinct (a ∷ xs)
    → In t xs
    → (p : ℕ) × (find_before fuel list t a ≡ ok p)
      × (list p ≡ some t)
      × IsList (update list p (list t)) (update list p (list t) a) (erase t xs)
      × AgreeOff (a ∷ xs) list (update list p (list t))
unfolding find_before
find_before_lem zero list t a xs b l d i = absurd (omega arith)
find_before_lem (suc f) list t a [] b l d i = absurd i
find_before_lem (suc f) list t a (x ∷ xs) b l d i = elim (Bool-cases (x == t)) [
  | inl hit ↦
      let e : x ≡ t = ==→eq x t hit in
      (
        a,
        rw (l.0, find_before) (rw hit refl),
        l.0 ∙ ap some e,
        rw hit (
            rw (update_self list a (list t)) (
              IsList-update list (list t) xs a (list t) d.0.1
                (subst (λ q. IsList list (list q) xs) e l.1))),
        (λ q m. update_ne list a q (list t) m.0),
      )
  | inr miss ↦
      let later : In t xs = In-tail t x xs (λ q. ==→ne x t miss (sym q)) i in
      let (p, e, at_p, tail, off) = find_before_lem f list t x xs (omega arith) l.1 d.1 later in
      (
        p,
        rw (l.0, find_before) (rw miss e),
        at_p,
        rw miss (off a d.0 ∙ l.0, tail),
        (λ q m. off q m.1),
      )
]

abbrev deletion : ℕ → Kernel → ℕ → Option ℕ → Run (Status × Kernel)
deletion fuel k t v = if same (some t) v then ok (os_ok, record k { list_head = k.list t }) else do
  head ← deref v
  tmp ← find_before fuel k.list t head
  n ← deref (k.list tmp)
  ok (os_ok, record k { list = update k.list tmp (k.list n) })

-- A task on the list of all tasks that is neither suspended nor ready is taken off that list.
pub delete_task-refines :
    (fuel : ℕ) (k : Kernel) (t h : ℕ) (ls : List ℕ)
    → length ls < fuel
    → IsList k.list k.list_head (h ∷ ls)
    → Distinct (h ∷ ls)
    → In t (h ∷ ls)
    → is_suspended (k.state t) || is_ready (k.state t) ≡ false
    → (k' : Kernel) × (delete_task fuel k t ≡ ok (os_ok, k'))
      × IsList k'.list k'.list_head (erase t (h ∷ ls))
      × (k' ≡ record k { list = k'.list; list_head = k'.list_head })
unfolding delete_task
delete_task-refines fuel k t h ls b l d i idle = elim (Bool-cases (h == t)) [
  | inl hit ↦
      let e : h ≡ t = ==→eq h t hit in
      (
        record k { list_head = k.list t },
        rw idle (rw l.0 (rw (← e, ==_refl h) refl)),
        rw hit (subst (λ q. IsList k.list (k.list q) ls) e l.1),
        refl,
      )
  | inr miss ↦
      let other : h ≢ t = ==→ne h t miss in
      let (p, e, at_p, tail, off) =
        find_before_lem fuel k.list t h ls b l.1 d (In-tail t h ls (λ q. other (sym q)) i) in
      (
        record k { list = update k.list p (k.list t) },
        rw idle (
            ap (λ v. deletion fuel k t v) l.0
            ∙ rw (==_ne t h (λ q. other (sym q))) (rw e (rw at_p refl))),
        rw miss (l.0, tail),
        refl,
      )
]
