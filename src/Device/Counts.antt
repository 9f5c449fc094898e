-- ===== src/Device/Counts.antt =====
-- The count of a device's open descriptors, over any calls.
use rosx.Base.{
  none-some, some_inj, subst, ℕ, zero, suc, ◌+◌, ◌<◌, ◌≤◌, ◌≡◌, refl, sym, ap, ◌∙◌, ◌≢◌, inl, inr,
  Bool, true, Option, none, some, arith, ◌==◌, ==_refl, ==_ne, ==→eq, ==→ne, same, update,
  update_self, update_ne, if◌then◌else◌, Bool-cases,
}
use rosx.Base.Int.{pos, inc, dec}
use rosx.Device.{Device, Devices, max_desc, first_from}

-- 1 if the descriptor is one of the device.
abbrev hit : Option ℕ → ℕ → ℕ
hit o d = if same o (some d) then 1 else 0

-- How many of the first `n` descriptors are of the device.
unfoldable pub uses : (ℕ → Option ℕ) → (d n : ℕ) → ℕ
uses desc d zero = 0
uses desc d (suc n) = hit (desc n) d + uses desc d n

uses-outside :
    (desc : ℕ → Option ℕ) (i : ℕ) (v : Option ℕ) (d n : ℕ)
    → n ≤ i
    → uses (update desc i v) d n ≡ uses desc d n
unfolding uses
uses-outside desc i v d zero h = refl
uses-outside desc i v d (suc n) h =
    rw (update_ne desc i n v (omega arith))
      (ap (λ z. hit (desc n) d + z) (uses-outside desc i v d n (omega arith)))

-- A write to one descriptor moves the count by that descriptor alone.
uses-update :
    (desc : ℕ → Option ℕ) (i : ℕ) (v : Option ℕ) (d n : ℕ)
    → i < n
    → uses (update desc i v) d n + hit (desc i) d ≡ uses desc d n + hit v d
unfolding uses
uses-update desc i v d zero h = absurd (omega arith)
uses-update desc i v d (suc n) h = elim (Bool-cases (n == i)) [
  | inl e ↦
      rw (==→eq n i e)
        (rw (update_self desc i v) (omega (arith, uses-outside desc i v d i (omega arith))))
  | inr e ↦
      let ne : n ≢ i = ==→ne n i e in
      rw (update_ne desc i n v ne) (omega (arith, uses-update desc i v d n (omega arith)))
]

-- The entry found is within range, and passes the test.
pub first_from_lem :
    (rounds i : ℕ) (test : ℕ → Bool) (j : ℕ)
    → first_from rounds i test ≡ some j
    → (j < i + rounds) × (test j ≡ true)
unfolding first_from
first_from_lem zero i test j e = absurd (none-some e)
first_from_lem (suc m) i test j e = elim (Bool-cases (test i)) [
  | inl on ↦
      let here : i ≡ j = some_inj (rw (on, first_from) at e) in
      (omega arith, subst (λ z. test z ≡ true) here on)
  | inr off ↦
      let (b, t) = first_from_lem m (suc i) test j (rw (off, first_from) at e) in (omega arith, t)
]

hit_self : (d : ℕ) → hit (some d) d ≡ 1
hit_self d = rw (==_refl d) refl

hit_ne : (d q : ℕ) → q ≢ d → hit (some d) q ≡ 0
hit_ne d q ne = rw (==_ne d q (λ e. ne (sym e))) refl

-- A free descriptor is given to the device `d`.
uses-gain :
    (desc : ℕ → Option ℕ) (i d n : ℕ)
    → i < n
    → desc i ≡ none
    → (uses (update desc i (some d)) d n ≡ suc (uses desc d n))
      × ((q : ℕ) → q ≢ d → uses (update desc i (some d)) q n ≡ uses desc q n)
uses-gain desc i d n b free = (
  omega (arith, uses-update desc i (some d) d n b, ap (λ o. hit o d) free, hit_self d),
  (λ q ne. omega (arith, uses-update desc i (some d) q n b, ap (λ o. hit o q) free, hit_ne d q ne)),
)

-- A descriptor of the device `d` is free again.
uses-loss :
    (desc : ℕ → Option ℕ) (i d n : ℕ)
    → i < n
    → desc i ≡ some d
    → (suc (uses (update desc i none) d n) ≡ uses desc d n)
      × ((q : ℕ) → q ≢ d → uses (update desc i none) q n ≡ uses desc q n)
uses-loss desc i d n b used = (
  omega (arith, uses-update desc i none d n b, ap (λ o. hit o d) used ∙ hit_self d),
  (λ q ne. omega (arith, uses-update desc i none q n b, ap (λ o. hit o q) used ∙ hit_ne d q ne)),
)

pub uses-same :
    (desc : ℕ → Option ℕ) (i d n : ℕ)
    → i < n
    → desc i ≡ none
    → uses (update desc i none) d n ≡ uses desc d n
uses-same desc i d n b free = omega (arith, uses-update desc i none d n b, ap (λ o. hit o d) free)

inc-pos : (n : ℕ) → inc (pos n) ≡ pos (suc n)
unfolding inc
inc-pos n = ground arith

dec-pos : (n : ℕ) → dec (pos (suc n)) ≡ pos n
unfolding dec
dec-pos n = ground arith

-- Each device's count is that of its descriptors.
abbrev pub IsCounted : {S : Type 0} → Devices S → Type 0
IsCounted v = (d : ℕ) → (v.table d).open_count ≡ pos (uses v.desc d max_desc)

module _ {S : Type 0} (v : Devices S) (kept : IsCounted v) (drivers : S) where
  -- The table after a change of the count of `d`, with other descriptors.
  recount :
      (d : ℕ) (desc : ℕ → Option ℕ) (dev : Device S)
      → dev.open_count ≡ pos (uses desc d max_desc)
      → ((q : ℕ) → q ≢ d → uses desc q max_desc ≡ uses v.desc q max_desc)
      → IsCounted (record v { desc = desc; table = update v.table d dev; drivers = drivers })
  recount d desc dev here others q = elim (Bool-cases (q == d)) [
    | inl e ↦
        let same_q : q ≡ d = ==→eq q d e in
        rw e (subst (λ z. dev.open_count ≡ pos (uses desc z max_desc)) (sym same_q) here)
    | inr e ↦ rw e (kept q ∙ ap pos (sym (others q (==→ne q d e))))
  ]

  pub IsCounted-open :
      (i d : ℕ) (dev : Device S)
      → dev.open_count ≡ inc (v.table d).open_count
      → i < max_desc
      → v.desc i ≡ none
      → IsCounted (record v {
        desc = update v.desc i (some d);
        table = update v.table d dev;
        drivers = drivers;
      })
  IsCounted-open i d dev e b free =
      let (more, others) = uses-gain v.desc i d max_desc b free in
      recount d (update v.desc i (some d)) dev
        (e ∙ ap inc (kept d) ∙ (inc-pos (uses v.desc d max_desc) ∙ ap pos (sym more))) others

  pub IsCounted-close :
      (i d : ℕ) (dev : Device S)
      → dev.open_count ≡ dec (v.table d).open_count
      → i < max_desc
      → v.desc i ≡ some d
      → IsCounted (record v {
        desc = update v.desc i none;
        table = update v.table d dev;
        drivers = drivers;
      })
  IsCounted-close i d dev e b used =
      let (less, others) = uses-loss v.desc i d max_desc b used in
      recount d (update v.desc i none) dev
        (e ∙ ap dec (kept d ∙ ap pos (sym less)) ∙ dec-pos (uses (update v.desc i none) d max_desc))
        others
