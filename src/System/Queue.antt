-- ===== src/System/Queue.antt =====
-- What the sequences of calls keep: a ready queue in order, and its runnable tasks.
use rosx.Base.{
  Bool, ◌≢◌, ==→eq, false, none-some, some_inj, ℕ, suc, ◌<◌, ◌≡◌, refl, sym, ap, ◌∙◌, subst, ◌⊎◌,
  inl, inr, true, Option, List, [], ◌∷◌, arith, leb, ◌==◌, Bool-cases, update, update_ne, Run, ok,
  null_deref,
}
use rosx.Base.Lists.{length, NotIn, In, erase}
use rosx.Base.Links.{IsList}
use rosx.Kernel.{TaskState, complete, abort, os_ok, Kernel}
use rosx.ReadyQueue.{is_runnable, add_to_ready_q, remove_from_ready_q}
use rosx.ReadyQueue.Spec.{insert, IsReady, IsSorted-update}
use rosx.ReadyQueue.Add.{add_to_ready_q-refines}
use rosx.ReadyQueue.Remove.{remove_from_ready_q-refines}

-- The rounds of a loop are more than the tasks on the ready queue.
abbrev pub Enough : ℕ → Kernel → Type 0
Enough fuel k = (xs : List ℕ) → IsReady k xs → length xs < fuel

abbrev pub is_over : TaskState → Bool
is_over complete = true
is_over abort = true
is_over _ = false

-- Each of the tasks is completed or aborted, and does not run.
abbrev pub Over : List ℕ → (ℕ → TaskState) → ℕ → Type 0
Over ds state curr = (q : ℕ) → In q ds → (is_over (state q) ≡ true) × (curr ≢ q)

-- The ready queue is in order, and only tasks that are ready or running stand on it; the tasks `ds`
-- are completed or aborted, and none of them runs.
pub record Sound (ds : List ℕ) (k : Kernel) (xs : List ℕ) : Type 0 where
  pub queue : IsReady k xs
  pub runnable : (q : ℕ) → In q xs → is_runnable (k.state q) ≡ true
  pub over : Over ds k.state k.curr

-- One list at most runs along the links from a head.
length-IsList :
    (nx : ℕ → Option ℕ) (h : Option ℕ) (xs ys : List ℕ)
    → IsList nx h xs
    → IsList nx h ys
    → length xs ≡ length ys
length-IsList nx h [] [] l m = refl
length-IsList nx h [] (y ∷ ys) l m = absurd (none-some (sym l ∙ m.0))
length-IsList nx h (x ∷ xs) [] l m = absurd (none-some (sym m ∙ l.0))
length-IsList nx h (x ∷ xs) (y ∷ ys) l m =
    let same_node : x ≡ y = some_inj (sym l.0 ∙ m.0) in
    ap suc
      (length-IsList nx (nx x) xs ys l.1 (subst (λ z. IsList nx (nx z) ys) (sym same_node) m.1))

pub IsReady-Enough :
    (fuel : ℕ) (k : Kernel) (xs : List ℕ) → length xs < fuel → IsReady k xs → Enough fuel k
IsReady-Enough fuel k xs b r ys q =
    omega (arith, length-IsList k.next k.ready_head xs ys r.linked q.linked)

pub NotIn-absent : (a : ℕ) (xs : List ℕ) → (In a xs → ⊥) → NotIn a xs
NotIn-absent a [] h = tt
NotIn-absent a (x ∷ xs) h = ((λ e. h (inl e)), NotIn-absent a xs (λ i. h (inr i)))

present : (a : ℕ) (xs : List ℕ) → NotIn a xs → In a xs → ⊥
present a [] n i = absurd i
present a (x ∷ xs) n (inl e) = n.0 e
present a (x ∷ xs) n (inr i) = present a xs n.1 i

In-insert : (prio : ℕ → ℕ) (q t : ℕ) (xs : List ℕ) → In q (insert prio t xs) → (q ≡ t) ⊎ In q xs
unfolding insert
In-insert prio q t [] i = elim i [ inl e ↦ inl e | inr z ↦ absurd z ]
In-insert prio q t (x ∷ xs) i = elim (Bool-cases (leb (prio x) (prio t))) [
  | inl e ↦ elim (rw e at i) [
    | inl z ↦ inr (inl z)
    | inr j ↦ elim (In-insert prio q t xs j) [ inl z ↦ inl z | inr y ↦ inr (inr y) ]
  ]
  | inr e ↦ elim (rw e at i) [ inl z ↦ inl z | inr j ↦ inr j ]
]

pub In-erase : (q t : ℕ) (xs : List ℕ) → In q (erase t xs) → In q xs
In-erase q t [] i = i
In-erase q t (x ∷ xs) i = elim (Bool-cases (x == t)) [
  | inl e ↦ inr (rw e at i)
  | inr e ↦ elim (rw e at i) [ inl z ↦ inl z | inr j ↦ inr (In-erase q t xs j) ]
]

-- A call that faults does not return, and one that returns has one result.
pub faults : {A : Type 0} {a : A} {r : Run A} → r ≡ null_deref → r ≡ ok a → ⊥
faults f e = cc

abbrev Kept : {A : Type 0} → A → Run A → A
Kept d (ok a) = a
Kept d _ = d

pub returned : {A : Type 0} {r : Run A} {a b : A} → r ≡ ok a → r ≡ ok b → a ≡ b
returned {a = a} e f = ap (Kept a) (sym e ∙ f)

Over-update :
    (ds : List ℕ) (state : ℕ → TaskState) (curr t : ℕ) (st : TaskState)
    → (In t ds → is_over st ≡ true)
    → Over ds state curr
    → Over ds (update state t st) curr
Over-update ds state curr t st fine over q i = elim (Bool-cases (q == t)) [
  | inl e ↦ (rw e (fine (subst (λ w. In w ds) (==→eq q t e) i)), (over q i).1)
  | inr e ↦ (rw e ((over q i).0), (over q i).1)
]

Over-same :
    (ds : List ℕ) (state state' : ℕ → TaskState) (curr curr' : ℕ)
    → state' ≡ state
    → curr' ≡ curr
    → Over ds state curr
    → Over ds state' curr'
Over-same ds state state' curr curr' e f over = rw (e, f) over

-- A task in a state that is not the end is none of the tasks `ds`.
pub alive :
    {ds xs : List ℕ} {k : Kernel} (t : ℕ) (st : TaskState)
    → Sound ds k xs
    → is_over (k.state t) ≡ false
    → In t ds
    → is_over st ≡ true
alive t st z e i = let bad : true ≡ false = sym ((z.over t i).0) ∙ e in cc

-- Nor is the running task.
pub alive_curr :
    {ds xs : List ℕ} {k : Kernel} (st : TaskState)
    → Sound ds k xs
    → In k.curr ds
    → is_over st ≡ true
alive_curr {k = k} st z i = absurd ((z.over k.curr i).1 refl)

-- The state of a task that is not on the queue does not matter, nor does its priority.
pub state_off :
    {ds : List ℕ} (k : Kernel) (t : ℕ) (st : TaskState) (xs : List ℕ)
    → NotIn t xs
    → (In t ds → is_over st ≡ true)
    → Sound ds k xs
    → Sound ds (record k { state = update k.state t st }) xs
state_off {ds} k t st xs n fine z = record {
  queue = record { linked = z.queue.linked; distinct = z.queue.distinct; sorted = z.queue.sorted };
  runnable = λ q i.
      rw (update_ne k.state t q st (λ e. present t xs n (subst (λ w. In w xs) e i)))
        (z.runnable q i);
  over = Over-update ds k.state k.curr t st fine z.over;
}

pub prio_off :
    {ds : List ℕ} (k : Kernel) (t p : ℕ) (xs : List ℕ)
    → NotIn t xs
    → Sound ds k xs
    → Sound ds (record k { prio = update k.prio t p }) xs
prio_off {ds} k t p xs n z = record {
  queue = record {
    linked = z.queue.linked;
    distinct = z.queue.distinct;
    sorted = IsSorted-update k.prio t p xs n z.queue.sorted;
  };
  runnable = z.runnable;
  over = z.over;
}

-- A task may be given a state in which it may run.
pub state_on :
    {ds : List ℕ} (k : Kernel) (t : ℕ) (st : TaskState) (xs : List ℕ)
    → is_runnable st ≡ true
    → (In t ds → is_over st ≡ true)
    → Sound ds k xs
    → Sound ds (record k { state = update k.state t st }) xs
state_on {ds} k t st xs on fine z = record {
  queue = record { linked = z.queue.linked; distinct = z.queue.distinct; sorted = z.queue.sorted };
  runnable = λ q i. elim (Bool-cases (q == t)) [ inl e ↦ rw e on | inr e ↦ rw e (z.runnable q i) ];
  over = Over-update ds k.state k.curr t st fine z.over;
}

-- Removal from a queue that is not empty.
pub remove-Sound :
    {ds : List ℕ} (fuel : ℕ) (k : Kernel) (t x : ℕ) (xs : List ℕ)
    → length (x ∷ xs) < fuel
    → Sound ds k (x ∷ xs)
    → (k' : Kernel) × (remove_from_ready_q fuel k t ≡ ok k')
      × Sound ds k' (erase t (x ∷ xs))
      × NotIn t (erase t (x ∷ xs))
      × (k' ≡ record k { next = k'.next; ready_head = k'.ready_head })
remove-Sound {ds} fuel k t x xs b z =
    let (k', run, r', gone, end, off, frame) =
      remove_from_ready_q-refines fuel k t x xs b z.queue in
    (
      k',
      run,
      record {
        queue = r';
        runnable = λ q i. rw (ap (λ w. w.state q) frame) (z.runnable q (In-erase q t (x ∷ xs) i));
        over =
            Over-same ds k.state k'.state k.curr k'.curr (ap (λ w. w.state) frame)
              (ap (λ w. w.curr) frame) z.over;
      },
      gone,
      frame,
    )

-- Addition of a task that is not on the queue.
pub add-Sound :
    {ds : List ℕ} (fuel : ℕ) (k : Kernel) (t : ℕ) (xs : List ℕ)
    → length xs < fuel
    → Sound ds k xs
    → NotIn t xs
    → is_runnable (k.state t) ≡ true
    → (k' : Kernel) × (add_to_ready_q fuel k t ≡ ok (os_ok, k')) × Sound ds k' (insert k.prio t xs)
add-Sound {ds} fuel k t xs b z n on =
    let (k', run, r', off, frame) = add_to_ready_q-refines fuel k t xs b z.queue n on in
    (
      k',
      run,
      record {
        queue = r';
        runnable = λ q i.
            rw (ap (λ w. w.state q) frame)
              (elim (In-insert k.prio q t xs i) [ inl e ↦ rw e on | inr j ↦ z.runnable q j ]);
        over =
            Over-same ds k.state k'.state k.curr k'.curr (ap (λ w. w.state) frame)
              (ap (λ w. w.curr) frame) z.over;
      },
    )
