-- ===== src/Tasklet/Laws.antt =====
-- The list of scheduled tasklets.
use rosx.Base.{
  ℕ, zero, suc, ◌<◌, ◌≡◌, ◌≢◌, refl, ◌∙◌, true, false, Option, none, some, List, [], ◌∷◌, ◌++◌,
  arith, ==_refl, ==_ne, update, update_self, update_ne, ok, out_of_fuel, ◌>>=◌,
}
use rosx.Base.Lists.{length, NotIn, Distinct, Distinct-snoc}
use rosx.Base.Links.{IsList, last, last_lem}
use rosx.Tasklet.{Tasklets, schedule_tasklet, run_tasklet}

-- The scheduled tasklets, in the order in which they are to run.
pub record IsPending (s : Tasklets) (ts : List ℕ) : Type 0 where
  pub linked : IsList s.next s.head ts
  pub distinct : Distinct ts

-- A tasklet that is enabled and not scheduled comes last of the scheduled ones, and is marked.
pub schedule_tasklet-appends :
    (fuel : ℕ) (s : Tasklets) (t : ℕ) (ts : List ℕ)
    → length ts < fuel
    → IsPending s ts
    → NotIn t ts
    → s.next t ≡ none
    → s.enabled t ≡ true
    → s.scheduled t ≡ false
    → (s' : Tasklets) × (schedule_tasklet fuel s (some t) ≡ ok s')
      × IsPending s' (ts ++ t ∷ [])
      × (s'.scheduled t ≡ true)
unfolding schedule_tasklet
schedule_tasklet-appends fuel s t [] b p n e on off = (
  record s { scheduled = update s.scheduled t true; head = some t },
  simp (off, on, p.linked) refl,
  record { linked = (refl, e); distinct = (tt, tt) },
  update_self s.scheduled t true,
)
schedule_tasklet-appends fuel s t (h ∷ ts) b p n e on off =
    let (ride, found, tail, away, end) =
      last_lem fuel s.next h ts t (omega arith) p.linked.1 p.distinct n e in
    (
      record s {
        scheduled = update s.scheduled t true;
        next = update s.next ride (some t);
        prev = update s.prev t (some ride);
      },
      simp (off, on, p.linked.0, found) refl,
      record { linked = (p.linked.0, tail); distinct = Distinct-snoc (h ∷ ts) t p.distinct n },
      update_self s.scheduled t true,
    )

-- Two nodes that point to each other have no last one.
cycle :
    (fuel : ℕ) (nx : ℕ → Option ℕ) (a b : ℕ)
    → nx a ≡ some b
    → nx b ≡ some a
    → last fuel nx a ≡ out_of_fuel
unfolding last
cycle zero nx a b e f = refl
cycle (suc n) nx a b e f = rw (e, last) (cycle n nx b a f e)

only_node : (n : ℕ) (nx : ℕ → Option ℕ) (b : ℕ) → nx b ≡ none → last (suc n) nx b ≡ ok b
unfolding last
only_node n nx b e = rw (e, last) refl

-- A tasklet `a` runs, with `b` the last one behind it, by a function that changes nothing; it is
-- scheduled again, which makes the list a cycle, so that scheduling a third one never ends.
pub reschedule-loops :
    {S : Type 0} (fuel rounds : ℕ) (m : S) (s : Tasklets) (a b c f : ℕ)
    → 0 < fuel
    → IsPending s (a ∷ b ∷ [])
    → s.func a ≡ some f
    → s.enabled a ≡ true
    → s.enabled c ≡ true
    → s.scheduled c ≡ false
    → c ≢ a
    → (s' : Tasklets) × ((run_tasklet {S = S} (λ g v z q. ok (z, q)) m s >>= λ r.
          schedule_tasklet fuel r.1 (some a))
        ≡ ok s')
      × (schedule_tasklet rounds s' (some c) ≡ out_of_fuel)
unfolding schedule_tasklet run_tasklet
reschedule-loops zero rounds m s a b c f h p fn on on' off ne = absurd (omega arith)
reschedule-loops (suc n) rounds m s a b c f h p fn on on' off ne =
    let apart : a ≢ b = p.distinct.0.0 in
    let s' : Tasklets = record s {
      head = some b;
      running = update (update s.running a true) a false;
      scheduled = update (update s.scheduled a false) a true;
      next = update s.next b (some a);
      prev = update s.prev a (some b);
    } in
    let loop : last rounds s'.next b ≡ out_of_fuel =
      cycle rounds s'.next b a (update_self s.next b (some a))
        (update_ne s.next b a (some a) apart ∙ p.linked.1.0) in
    (
      s',
      simp (p.linked.0, fn, p.linked.1.0, ==_refl a, on, only_node n s.next b p.linked.1.1) refl,
      simp (==_ne c a ne, off, on', loop) refl,
    )
