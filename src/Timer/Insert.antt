-- ===== src/Timer/Insert.antt =====
-- The walk of `__rx_add_to_active_timer_list` and its writes.
use rosx.Base.{
  ℕ, zero, suc, ◌<◌, ◌≡◌, refl, sym, ap, ◌∙◌, ◌≢◌, inl, inr, true, false, Option, none, some, List,
  [], ◌∷◌, arith, leb, same, update, update_self, update_ne, Bool-cases, ==_ne, ==_refl, ok,
}
use rosx.Base.Lists.{length, NotIn, Distinct}
use rosx.Base.Links.{IsList, AgreeOff, IsList-update}
use rosx.Kernel.{Kernel}
use rosx.Timer.{Spot, before, behind, timer_spot, place_timer}
use rosx.Timer.Spec.{insert, Backed, Backed-update, IsTimers}

-- The walk from a timer `x` behind `a`, and the writes at the place where it stops.
abbrev Placed : ℕ → Kernel → ℕ → ℕ → ℕ → List ℕ → Type 0
Placed fuel k p a x xs =
    (spot : Spot) × (nx pv : ℕ → Option ℕ) × (timer_spot fuel k (k.time_expiry p) x ≡ ok spot)
    × (place_timer k p spot ≡ ok (record k { timer_next = nx; timer_prev = pv }))
    × IsList nx (nx a) (insert k.time_expiry p (x ∷ xs))
    × Backed pv (some a) (insert k.time_expiry p (x ∷ xs))
    × AgreeOff (p ∷ a ∷ x ∷ xs) k.timer_next nx
    × AgreeOff (p ∷ x ∷ xs) k.timer_prev pv

module _ (k : Kernel) (p h : ℕ) (eh : k.active_timer_head ≡ some h)
    (ep : k.timer_next p ≡ none) where
  stop_before :
      (f a x : ℕ) (xs : List ℕ)
      → IsList k.timer_next (k.timer_next a) (x ∷ xs)
      → Backed k.timer_prev (some a) (x ∷ xs)
      → h ≢ x
      → Distinct (a ∷ x ∷ xs)
      → NotIn p (a ∷ x ∷ xs)
      → leb (k.time_expiry p) (k.time_expiry x) ≡ true
      → Placed (suc f) k p a x xs
  unfolding timer_spot place_timer insert
  stop_before f a x xs l b nh d n le = (
    before x,
    update nx a (some p),
    update pv x (some p),
    rw le refl,
    rw not_head (rw b.0 refl),
    rw le (
      update_self nx a (some p),
      (
        update_ne nx a p (some p) n.0 ∙ update_self k.timer_next p (some x),
        rw
            (
              update_ne nx a x (some p) (λ q. d.0.0 (sym q)),
              update_ne k.timer_next p x (some x) (λ q. n.1.0 (sym q)),
            )
            (IsList-update nx (k.timer_next x) xs a (some p) d.0.1
              (IsList-update k.timer_next (k.timer_next x) xs p (some x) n.1.1 l.1)),
      ),
    ),
    rw le (
      update_ne pv x p (some p) n.1.0 ∙ update_self k.timer_prev p (some a),
      (
        update_self pv x (some p),
        Backed-update pv (some x) xs x (some p) d.1.0
            (Backed-update k.timer_prev (some x) xs p (some a) n.1.1 b.1),
      ),
    ),
    (λ q m. update_ne nx a q (some p) m.1.0 ∙ update_ne k.timer_next p q (some x) m.0),
    (λ q m. update_ne pv x q (some p) m.1.0 ∙ update_ne k.timer_prev p q (some a) m.0),
  )
    where
      nx : ℕ → Option ℕ
      nx = update k.timer_next p (some x)

      pv : ℕ → Option ℕ
      pv = update k.timer_prev p (some a)

      not_head : same (some x) k.active_timer_head ≡ false
      not_head = rw eh (==_ne x h (λ q. nh (sym q)))

  walk :
      (f a x : ℕ) (xs : List ℕ)
      → length xs < f
      → IsList k.timer_next (k.timer_next a) (x ∷ xs)
      → Backed k.timer_prev (some a) (x ∷ xs)
      → NotIn h (x ∷ xs)
      → Distinct (a ∷ x ∷ xs)
      → NotIn p (a ∷ x ∷ xs)
      → Placed f k p a x xs
  unfolding timer_spot place_timer insert
  walk zero a x xs c l b nh d n = absurd (omega arith)
  walk (suc f) a x [] c l b nh d n = elim (Bool-cases (leb (k.time_expiry p) (k.time_expiry x))) [
    | inl le ↦ stop_before f a x [] l b nh.0 d n le
    | inr gt ↦ (
      behind x,
      update k.timer_next x (some p),
      update k.timer_prev p (some x),
      rw gt (rw (l.1, timer_spot) refl),
      refl,
      rw gt (
        update_ne k.timer_next x a (some p) d.0.0 ∙ l.0,
        (update_self k.timer_next x (some p), update_ne k.timer_next x p (some p) n.1.0 ∙ ep),
      ),
      rw gt (
        update_ne k.timer_prev p x (some x) (λ q. n.1.0 (sym q)) ∙ b.0,
        (update_self k.timer_prev p (some x), tt),
      ),
      (λ q m. update_ne k.timer_next x q (some p) m.1.1.0),
      (λ q m. update_ne k.timer_prev p q (some x) m.0),
    )
  ]
  walk (suc f) a x (y ∷ ys) c l b nh d n =
      elim (Bool-cases (leb (k.time_expiry p) (k.time_expiry x))) [
        | inl le ↦ stop_before f a x (y ∷ ys) l b nh.0 d n le
        | inr gt ↦
            let (spot, nx, pv, found, put, linked, backed, off, off') =
              walk f x y ys (omega arith) l.1 b.1 nh.1 d.1 n.1 in
            (
              spot,
              nx,
              pv,
              rw gt (rw (l.1.0, timer_spot) found),
              put,
              rw gt (off a ((λ q. n.0 (sym q)), d.0) ∙ l.0, linked),
              rw gt (off' x ((λ q. n.1.0 (sym q)), d.1.0) ∙ b.0, backed),
              (λ q m. off q (m.0, m.1.1)),
              (λ q m. off' q (m.0, m.1.1)),
            )
      ]

-- From the head of the list.
abbrev pub Fronted : ℕ → Kernel → ℕ → ℕ → List ℕ → Type 0
Fronted fuel k p h xs =
    (spot : Spot) × (h' : ℕ) × (nx pv : ℕ → Option ℕ) × (timer_spot fuel k (k.time_expiry p) h
      ≡ ok spot)
    × (place_timer k p spot
        ≡ ok (record k { timer_next = nx; timer_prev = pv; active_timer_head = some h' }))
    × IsList nx (some h') (insert k.time_expiry p (h ∷ xs))
    × Backed pv none (insert k.time_expiry p (h ∷ xs))
    × AgreeOff (p ∷ h ∷ xs) k.timer_next nx
    × AgreeOff (p ∷ h ∷ xs) k.timer_prev pv

module _ (k : Kernel) (p h : ℕ) (xs : List ℕ) (r : IsTimers k (h ∷ xs)) (n : NotIn p (h ∷ xs))
    (ep : k.timer_next p ≡ none) (ev : k.timer_prev p ≡ none) where
  front_before : (f : ℕ) → leb (k.time_expiry p) (k.time_expiry h) ≡ true → Fronted (suc f) k p h xs
  unfolding timer_spot place_timer insert
  front_before f le = (
    before h,
    p,
    update k.timer_next p (some h),
    update k.timer_prev h (some p),
    rw le refl,
    rw is_head refl,
    rw le (
      refl,
      (
        update_self k.timer_next p (some h),
        rw (update_ne k.timer_next p h (some h) (λ q. n.0 (sym q)))
            (IsList-update k.timer_next (k.timer_next h) xs p (some h) n.1 r.linked.1),
      ),
    ),
    rw le (
      update_ne k.timer_prev h p (some p) n.0 ∙ ev,
      (
        update_self k.timer_prev h (some p),
        Backed-update k.timer_prev (some h) xs h (some p) r.distinct.0 r.backed.1,
      ),
    ),
    (λ q m. update_ne k.timer_next p q (some h) m.0),
    (λ q m. update_ne k.timer_prev h q (some p) m.1.0),
  )
    where
      is_head : same (some h) k.active_timer_head ≡ true
      is_head = rw r.linked.0 (==_refl h)

pub front :
    (f : ℕ) (k : Kernel) (p h : ℕ) (xs : List ℕ)
    → length xs < suc f
    → IsTimers k (h ∷ xs)
    → NotIn p (h ∷ xs)
    → k.timer_next p ≡ none
    → k.timer_prev p ≡ none
    → Fronted (suc f) k p h xs
unfolding timer_spot place_timer insert
front f k p h [] c r n ep ev = elim (Bool-cases (leb (k.time_expiry p) (k.time_expiry h))) [
  | inl le ↦ front_before k p h [] r n ep ev f le
  | inr gt ↦ (
    behind h,
    h,
    update k.timer_next h (some p),
    update k.timer_prev p (some h),
    rw gt (rw (r.linked.1, timer_spot) refl),
    ap
        (λ t. ok (record k {
          timer_next = update k.timer_next h (some p);
          timer_prev = update k.timer_prev p (some h);
          active_timer_head = t;
        }))
        r.linked.0,
    rw gt
        (refl, (update_self k.timer_next h (some p), update_ne k.timer_next h p (some p) n.0 ∙ ep)),
    rw gt (
      update_ne k.timer_prev p h (some h) (λ q. n.0 (sym q)) ∙ r.backed.0,
      (update_self k.timer_prev p (some h), tt),
    ),
    (λ q m. update_ne k.timer_next h q (some p) m.1.0),
    (λ q m. update_ne k.timer_prev p q (some h) m.0),
  )
]
front f k p h (y ∷ ys) c r n ep ev = elim (Bool-cases (leb (k.time_expiry p) (k.time_expiry h))) [
  | inl le ↦ front_before k p h (y ∷ ys) r n ep ev f le
  | inr gt ↦
      let (spot, nx, pv, found, put, linked, backed, off, off') =
        walk k p h r.linked.0 ep f h y ys (omega arith) r.linked.1 r.backed.1 r.distinct.0
          r.distinct n in
      (
        spot,
        h,
        nx,
        pv,
        rw gt (rw (r.linked.1.0, timer_spot) found),
        put
            ∙ ap (λ t. ok (record k { timer_next = nx; timer_prev = pv; active_timer_head = t }))
                r.linked.0,
        rw gt (refl, linked),
        rw gt (off' h ((λ q. n.0 (sym q)), r.distinct.0) ∙ r.backed.0, backed),
        (λ q m. off q (m.0, m.1)),
        (λ q m. off' q (m.0, m.1.1)),
      )
]
