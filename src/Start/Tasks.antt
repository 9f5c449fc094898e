-- ===== src/Start/Tasks.antt =====
-- The tasks that the start-up leaves.
use rosx.Base.{
  ℕ, suc, ◌-◌, ◌<◌, ◌≤◌, ◌≡◌, ◌≢◌, refl, sym, ap, ◌∙◌, subst, true, leb, leb→le, none, List, [],
  ◌∷◌, ◌++◌, arith, ltb, update_self, update_ne, if◌then◌else◌, Run, ok,
}
use rosx.Base.Int.{ℤ, pos}
use rosx.Base.Lists.{length, NotIn, Distinct}
use rosx.Base.Links.{IsList}
use rosx.Kernel.{Kernel}
use rosx.ReadyQueue.Spec.{insert, IsReady, insert-later, insert-first}
use rosx.Task.{str_len, least_prio}
use rosx.Task.Create.{create_task-refines}
use rosx.Device.Simulator.{simulator_init}
use rosx.Start.{
  Machine, Thread, Threads, spawn, spawn_all, reset, kernel_enter, sys_stack_size, timer_name,
  event_name, bh_name, logger_name, term_name,
}

-- A thread that is created: its place in both lists, and its priority.
spawn_lem :
    (fuel : ℕ) (k : Kernel) (t : Thread) (name : List ℕ) (prio : ℕ) (xs ls : List ℕ)
    → length xs < fuel
    → length ls < suc fuel
    → length name ≤ str_len
    → prio ≤ least_prio
    → IsReady k xs
    → NotIn t.tcb xs
    → IsList k.list k.list_head ls
    → Distinct ls
    → NotIn t.tcb ls
    → (k' : Kernel) × (spawn fuel k t name prio ≡ ok k')
      × IsReady k' (insert k'.prio t.tcb xs)
      × IsList k'.list k'.list_head (ls ++ t.tcb ∷ [])
      × (k'.num_task ≡ suc k.num_task)
      × (k'.prio t.tcb ≡ prio)
      × ((q : ℕ) → q ≢ t.tcb → k'.prio q ≡ k.prio q)
unfolding spawn
spawn_lem fuel k t name prio xs ls b c short low r n l d m =
    let (k', e, r', l', count, capped, starts, prios, orig, func, stack, slice) =
      create_task-refines fuel k t.tcb name prio t.stack sys_stack_size t.func (pos 0) xs ls b c
        short r n l d m in
    let uncapped : (if ltb least_prio prio then least_prio else prio) ≡ prio = ground arith in
    (
      k',
      rw e refl,
      r',
      l',
      count,
      ap (λ f. f t.tcb) prios ∙ (update_self k.prio t.tcb _ ∙ uncapped),
      (λ q ne. ap (λ f. f q) prios ∙ update_ne k.prio t.tcb q _ ne),
    )

-- The control blocks in the order of creation, and by priority.
abbrev pub created : Threads → List ℕ
created t = t.timer0.tcb ∷ t.event0.tcb ∷ t.bh0.tcb ∷ t.logger0.tcb ∷ t.term0.tcb ∷ []

abbrev by_priority : Threads → List ℕ
by_priority t = t.timer0.tcb ∷ t.event0.tcb ∷ t.bh0.tcb ∷ t.term0.tcb ∷ t.logger0.tcb ∷ []

flip : {a b : ℕ} → a ≢ b → b ≢ a
flip ne e = ne (sym e)

-- The same, handed on to what is to follow.
spawn_then :
    (G : Type 0) (fuel : ℕ) (k : Kernel) (t : Thread) (name : List ℕ) (prio : ℕ) (xs : List ℕ)
    (ls : List ℕ)
    → length xs < fuel
    → length ls < suc fuel
    → length name ≤ str_len
    → prio ≤ least_prio
    → IsReady k xs
    → NotIn t.tcb xs
    → IsList k.list k.list_head ls
    → Distinct ls
    → NotIn t.tcb ls
    → ((k' : Kernel)
        → spawn fuel k t name prio ≡ ok k'
        → IsReady k' (insert k'.prio t.tcb xs)
        → IsList k'.list k'.list_head (ls ++ t.tcb ∷ [])
        → k'.num_task ≡ suc k.num_task
        → k'.prio t.tcb ≡ prio
        → ((q : ℕ) → q ≢ t.tcb → k'.prio q ≡ k.prio q)
        → G)
    → G
spawn_then G fuel k t name prio xs ls b c short low r n l d m next =
    let (k', e, r', l', count, here, others) =
      spawn_lem fuel k t name prio xs ls b c short low r n l d m in
    next k' e r' l' count here others

-- Behind tasks that are all at least as urgent.
abbrev AtMost : (ℕ → ℕ) → ℕ → List ℕ → Type 0
AtMost prio p [] = Unit
AtMost prio p (x ∷ xs) = (prio x ≤ p) × AtMost prio p xs

insert-last :
    (prio : ℕ → ℕ) (new : ℕ) (xs : List ℕ)
    → AtMost prio (prio new) xs
    → insert prio new xs ≡ xs ++ new ∷ []
unfolding insert
insert-last prio new [] h = refl
insert-last prio new (x ∷ xs) h =
    insert-later prio new x xs h.0 ∙ ap (λ zs. x ∷ zs) (insert-last prio new xs h.1)

le_of : {x y a c : ℕ} → x ≡ a → y ≡ c → leb a c ≡ true → x ≤ y
le_of e f h = rw (e, f) (leb→le _ _ h)

fits : {n fuel : ℕ} → 5 < fuel → leb n 5 ≡ true → n < fuel
fits {n} b h = omega (arith, leb→le n 5 h)

fits' : {n fuel : ℕ} → 5 < fuel → leb n 5 ≡ true → n < suc fuel
fits' {n} b h = omega (arith, leb→le n 5 h)

spawn_all_lem :
    (fuel : ℕ) (k : Kernel) (t : Threads)
    → 5 < fuel
    → Distinct (created t)
    → k.ready_head ≡ none
    → k.list_head ≡ none
    → (k' : Kernel) × (spawn_all fuel k t ≡ ok k')
      × IsReady k' (by_priority t)
      × IsList k'.list k'.list_head (created t)
      × (k'.num_task ≡ suc (suc (suc (suc (suc k.num_task)))))
unfolding spawn_all insert
spawn_all_lem fuel k t b d idle none_yet =
    let (ab, (ac, (ad, (ae, u)))) = d.0 in
    let (bc, (bd, (be, u1))) = d.1.0 in
    let (cd, (ce, u2)) = d.1.1.0 in
    let (de, u3) = d.1.1.1.0 in
    let G : Type 0 =
      (k' : Kernel) × (spawn_all fuel k t ≡ ok k')
      × IsReady k' (by_priority t)
      × IsList k'.list k'.list_head (created t)
      × (k'.num_task ≡ suc (suc (suc (suc (suc k.num_task))))) in
    let A : ℕ = t.timer0.tcb in
    let B : ℕ = t.event0.tcb in
    let C : ℕ = t.bh0.tcb in
    let D : ℕ = t.logger0.tcb in
    let E : ℕ = t.term0.tcb in
    spawn_then G fuel k t.timer0 timer_name 0 [] [] (fits b refl) (fits' b refl) (leb→le _ _ refl)
      (leb→le _ _ refl) (record { linked = idle; distinct = tt; sorted = tt }) tt none_yet tt tt
      λ k1 e1 r1 l1 n1 p1 o1.
        spawn_then G fuel k1 t.event0 event_name 0 (A ∷ []) (A ∷ []) (fits b refl) (fits' b refl)
          (leb→le _ _ refl) (leb→le _ _ refl) r1 (flip ab, tt) l1 (tt, tt) (flip ab, tt)
          λ k2 e2 r2 l2 n2 p2 o2.
            let a2 : k2.prio A ≡ 0 = o2 A ab ∙ p1 in
            let r2' : IsReady k2 (A ∷ B ∷ []) =
              subst (IsReady k2) (insert-last k2.prio B (A ∷ []) (le_of a2 p2 refl, tt)) r2 in
            spawn_then G fuel k2 t.bh0 bh_name 0 (A ∷ B ∷ []) (A ∷ B ∷ []) (fits b refl)
              (fits' b refl) (leb→le _ _ refl) (leb→le _ _ refl) r2' (flip ac, (flip bc, tt)) l2
              r2'.distinct (flip ac, (flip bc, tt))
              λ k3 e3 r3 l3 n3 p3 o3.
                let a3 : k3.prio A ≡ 0 = o3 A ac ∙ a2 in
                let b3 : k3.prio B ≡ 0 = o3 B bc ∙ p2 in
                let r3' : IsReady k3 (A ∷ B ∷ C ∷ []) =
                  subst (IsReady k3)
                    (insert-last k3.prio C (A ∷ B ∷ []) (le_of a3 p3 refl, (le_of b3 p3 refl, tt)))
                    r3 in
                spawn_then G fuel k3 t.logger0 logger_name (least_prio - 1) (A ∷ B ∷ C ∷ [])
                  (A ∷ B ∷ C ∷ []) (fits b refl) (fits' b refl) (leb→le _ _ refl) (leb→le _ _ refl)
                  r3' (flip ad, (flip bd, (flip cd, tt))) l3 r3'.distinct
                  (flip ad, (flip bd, (flip cd, tt)))
                  λ k4 e4 r4 l4 n4 p4 o4.
                    let a4 : k4.prio A ≡ 0 = o4 A ad ∙ a3 in
                    let b4 : k4.prio B ≡ 0 = o4 B bd ∙ b3 in
                    let c4 : k4.prio C ≡ 0 = o4 C cd ∙ p3 in
                    let r4' : IsReady k4 (A ∷ B ∷ C ∷ D ∷ []) =
                      subst (IsReady k4)
                        (insert-last k4.prio D (A ∷ B ∷ C ∷ [])
                          (le_of a4 p4 refl, (le_of b4 p4 refl, (le_of c4 p4 refl, tt))))
                        r4 in
                    spawn_then G fuel k4 t.term0 term_name (least_prio - 2) (A ∷ B ∷ C ∷ D ∷ [])
                      (A ∷ B ∷ C ∷ D ∷ []) (fits b refl) (fits' b refl) (leb→le _ _ refl)
                      (leb→le _ _ refl) r4' (flip ae, (flip be, (flip ce, (flip de, tt)))) l4
                      r4'.distinct (flip ae, (flip be, (flip ce, (flip de, tt))))
                      λ k5 e5 r5 l5 n5 p5 o5.
                        let a5 : k5.prio A ≡ 0 = o5 A ae ∙ a4 in
                        let b5 : k5.prio B ≡ 0 = o5 B be ∙ b4 in
                        let c5 : k5.prio C ≡ 0 = o5 C ce ∙ c4 in
                        let d5 : k5.prio D ≡ 30 = o5 D de ∙ p4 in
                        let last : insert k5.prio E (A ∷ B ∷ C ∷ D ∷ []) ≡ A ∷ B ∷ C ∷ E ∷ D ∷ [] =
                          insert-later k5.prio E A (B ∷ C ∷ D ∷ []) (le_of a5 p5 refl)
                          ∙ ap (λ zs. A ∷ zs)
                              (insert-later k5.prio E B (C ∷ D ∷ []) (le_of b5 p5 refl)
                                ∙ ap (λ zs. B ∷ zs)
                                    (insert-later k5.prio E C (D ∷ []) (le_of c5 p5 refl)
                                      ∙ ap (λ zs. C ∷ zs)
                                          (insert-first k5.prio E (D ∷ [])
                                            (le_of (ap suc p5) d5 refl, tt)))) in
                        (
                          k5,
                          rw (e1, spawn_all) (rw e2 (rw e3 (rw e4 e5))),
                          subst (IsReady k5) last r5,
                          l5,
                          n5 ∙ ap suc (n4 ∙ ap suc (n3 ∙ ap suc (n2 ∙ ap suc n1))),
                        )

-- From a machine with no task, and with the control blocks of the system threads apart, the
-- start-up hands over to the application with the five system threads ready: the timer, event and
-- bottom-half threads first, in this order, then the terminal and, least urgent, the logger. All
-- five are on the list of all tasks, counted, and the print buffer is empty.
pub kernel_enter-starts :
    (fuel : ℕ) (strcmp : List ℕ → List ℕ → ℤ) (t : Threads) (application : Machine → Run Machine)
    (m : Machine)
    → 5 < fuel
    → Distinct (created t)
    → m.kernel.ready_head ≡ none
    → m.kernel.list_head ≡ none
    → (m' : Machine) × (kernel_enter fuel strcmp t application m ≡ application m')
      × IsReady m'.kernel (by_priority t)
      × IsList m'.kernel.list m'.kernel.list_head (created t)
      × (m'.kernel.num_task ≡ 5)
      × (m'.devices ≡ simulator_init strcmp m.devices)
      × (m'.buffer.head ≡ m'.buffer.tail)
unfolding kernel_enter
kernel_enter-starts fuel strcmp t application m b d idle none_yet =
    let (k, e, r, l, n) = spawn_all_lem fuel (reset m.kernel t.init) t b d idle none_yet in
    (
      record {
        kernel = k;
        devices = simulator_init strcmp m.devices;
        buffer = record m.buffer { head = 0; tail = 0 };
      },
      rw (e, kernel_enter) refl,
      r,
      l,
      n,
      refl,
      refl,
    )
