-- ===== src/Interrupt/Lines.antt =====
-- An interrupt line from its request to its release.
use rosx.Base.{
  ℕ, ◌+◌, ◌%◌, ◌^◌, ◌<◌, ◌≤◌, ◌≡◌, refl, ap, ◌∙◌, true, false, Option, none, some, List, arith,
  ltb_no, update, update_self, update_ne, Run, ok,
}
use rosx.Kernel.{os_ok, e_os_unavail}
use rosx.Interrupt.{
  Irqs, pool_size, is_shared, is_taken, install, request_irq, free_irq, irq_handler,
}

-- A free line that is requested without sharing calls the handler with the device that was given.
-- A second request that does not share either is refused; one that shares and names a device is
-- answered with OS_OK, but installs nothing. Once the line is freed it calls nothing.
pub free_irq-request_irq :
    {S : Type 0} (call : (handler irq : ℕ) → Option ℕ → S → Run S) (count : ℕ) (r : Irqs)
    (irq h flags h' flags' sharing d : ℕ) (name name' : List ℕ) (dev dev' : Option ℕ) (s s' : S)
    → irq ≤ count
    → is_taken r irq ≡ false
    → is_shared flags ≡ false
    → is_shared flags' ≡ false
    → is_shared sharing ≡ true
    → call h irq dev s ≡ ok s'
    → (r1 r2 : Irqs) × (request_irq count r irq h flags name dev ≡ (os_ok, r1))
      × (irq_handler call r1 irq s
          ≡ ok (record r1 { raw_counter = (r.raw_counter + 1) % 2 ^ 32 }, s'))
      × (request_irq count r1 irq h' flags' name' dev' ≡ (e_os_unavail, r1))
      × (request_irq count r1 irq h' sharing name' (some d) ≡ (os_ok, r1))
      × (free_irq count r1 irq ≡ (os_ok, r2))
      × (irq_handler call r2 irq s
          ≡ ok (record r2 { raw_counter = (r.raw_counter + 1) % 2 ^ 32 }, s))
unfolding request_irq free_irq irq_handler
free_irq-request_irq call count r irq h flags h' flags' sharing d name name' dev dev' s s' b idle
      own own' shares run =
    let r1 : Irqs = install r irq h flags name dev in
    let r2 : Irqs = record r1 { handler = update r1.handler irq none } in
    let held : r1.handler irq ≡ some h = update_self r.handler irq (some h) in
    let alone : r1.next irq ≡ none = update_self r.next irq none in
    let unshared : is_shared (r1.flags irq) ≡ false =
      ap is_shared (update_self r.flags irq flags) ∙ own in
    let device : r1.dev_id irq ≡ dev = update_self r.dev_id irq dev in
    let dropped : r2.handler irq ≡ none = update_self r1.handler irq none in
    (
      r1,
      r2,
      rw (ltb_no count irq b) (rw idle refl),
      simp (held, irq_handler) (simp device (simp run refl)),
      rw (ltb_no count irq b, request_irq) (rw held (rw own' refl)),
      rw (ltb_no count irq b, request_irq) (rw held (rw shares refl)),
      rw (ltb_no count irq b, free_irq) (rw unshared refl),
      simp (dropped, alone, irq_handler) refl,
    )

-- A request beyond the last entry of the pool is not refused: the entry that is written lies
-- outside the pool.
request_irq-overruns :
    (count : ℕ) (r : Irqs) (irq h flags : ℕ) (name : List ℕ) (dev : Option ℕ)
    → pool_size count ≤ irq
    → irq ≤ count
    → is_taken r irq ≡ false
    → (r' : Irqs) × (request_irq count r irq h flags name dev ≡ (os_ok, r'))
      × (r'.handler irq ≡ some h)
      × ((q : ℕ) → q < pool_size count → r'.handler q ≡ r.handler q)
unfolding request_irq
request_irq-overruns count r irq h flags name dev out b idle = (
  install r irq h flags name dev,
  rw (ltb_no count irq b) (rw idle refl),
  update_self r.handler irq (some h),
  (λ q m. update_ne r.handler irq q (some h) (omega arith)),
)

-- On a line that is taken for sharing, a second request that may share is granted but nothing is
-- installed, and a release leaves the handler in place.
request_irq-forgets :
    (count : ℕ) (r : Irqs) (irq h flags : ℕ) (name : List ℕ) (dev : ℕ)
    → irq ≤ count
    → is_taken r irq ≡ true
    → is_shared flags ≡ true
    → is_shared (r.flags irq) ≡ true
    → (request_irq count r irq h flags name (some dev) ≡ (os_ok, r))
      × (free_irq count r irq ≡ (os_ok, r))
unfolding request_irq free_irq
request_irq-forgets count r irq h flags name dev b taken shared held =
    (rw (ltb_no count irq b) (rw taken (rw shared refl)), rw (ltb_no count irq b) (rw held refl))
