-- ===== src/Device/Reach.antt =====
-- Any sequence of calls of the devices' services, as steps.
use rosx.Base.{
  ℕ, ◌<◌, ◌≡◌, refl, sym, ap, ◌∙◌, subst, inl, inr, true, Option, none, some, List, arith, ◌==◌,
  ==→eq, update, if◌then◌else◌, Bool-cases, Option-cases, Run, ok, null_deref, out_of_fuel, ◌>>=◌,
}
use rosx.Base.Int.{ℤ, pos, inc, is_zero}
use rosx.Device.{
  Call, DeviceOps, Devices, max_desc, first_from, is_unused, find_device, dev_open, dev_close,
  dev_read, dev_write, dev_ioctl, dev_poll, call, register_driver, through,
}
use rosx.Device.Counts.{IsCounted, uses-same, first_from_lem, IsCounted-open, IsCounted-close}

-- The counts are right in the state that a call leaves, when it does.
abbrev pub Kept : {S : Type 0} → Run (ℤ × Devices S) → Type 0
Kept (ok (ret, v)) = IsCounted v
Kept null_deref = Unit
Kept out_of_fuel = Unit

pub is_unused-none : (o : Option ℕ) → is_unused o ≡ true → o ≡ none
is_unused-none o e = ground arith

module _ {S : Type 0} (strcmp : List ℕ → List ℕ → ℤ) (v : Devices S) (kept : IsCounted v) where
  -- The end of `rx_dev_open`, with a driver and a free descriptor.
  Kept-entered :
      (d i : ℕ) (ops : DeviceOps S)
      → i < max_desc
      → v.desc i ≡ none
      → Kept (do
        f ← through ops.open_op
        let (ret, drivers) = f i v.drivers
        if is_zero ret
            then ok (
              pos i,
              record v {
                desc = update v.desc i (some d);
                table =
                    update v.table d
                      (record (v.table d) { open_count = inc (v.table d).open_count });
                drivers = drivers;
              },
            )
            else ok (ret, record v { desc = update v.desc i none; drivers = drivers }))
  Kept-entered d i ops b free = elim (Option-cases ops.open_op) [
    | inl missing ↦ rw missing tt
    | inr found ↦ rw found.1 (elim (Bool-cases (is_zero (found.0 i v.drivers).0)) [
      | inl fine ↦ rw fine (IsCounted-open v kept (found.0 i v.drivers).1 i d _ refl b free)
      | inr bad ↦ rw bad (λ q. kept q ∙ ap pos (sym (uses-same v.desc i q max_desc b free)))
    ])
  ]

  Kept-dev_open : (filename : List ℕ) → Kept (dev_open strcmp v filename)
  unfolding dev_open
  Kept-dev_open filename = elim (Option-cases (find_device strcmp v filename)) [
    | inl unknown ↦ rw (unknown, Kept, dev_open) kept
    | inr device ↦
        rw (device.1, Kept, dev_open)
          (elim (Option-cases ((v.table device.0).ops)) [
            | inl missing ↦ rw missing kept
            | inr ops ↦
                rw ops.1 (elim (Option-cases (first_from max_desc 0 (λ i. is_unused (v.desc i)))) [
                  | inl full ↦ rw full kept
                  | inr entry ↦
                      let (b, free) =
                        first_from_lem max_desc 0 (λ i. is_unused (v.desc i)) entry.0 entry.1 in
                      rw entry.1 (
                        Kept-entered device.0 entry.0 ops.0 (omega arith)
                          (is_unused-none (v.desc entry.0) free))
                ])
          ])
  ]

  Kept-dev_close : (i : ℕ) → i < max_desc → Kept (dev_close v i)
  unfolding dev_close
  Kept-dev_close i b = elim (Option-cases (v.desc i)) [
    | inl unused ↦ rw (unused, Kept, dev_close) kept
    | inr used ↦
        rw (used.1, Kept, dev_close)
          (elim (Option-cases ((v.table used.0).ops)) [
            | inl missing ↦ rw missing tt
            | inr ops ↦ simp ops.1 (elim (Option-cases ops.0.release) [
              | inl missing ↦ rw missing tt
              | inr f ↦ simp f.1 (elim (Bool-cases (is_zero (f.0 i v.drivers).0)) [
                | inl fine ↦
                    rw fine (IsCounted-close v kept (f.0 i v.drivers).1 i used.0 _ refl b used.1)
                | inr bad ↦ rw bad kept
              ])
            ])
          ])
  ]

  Kept-call {ℓ} :
      {F : Type ℓ} (i : ℕ) (op : DeviceOps S → Option F) (apply : F → Call S)
      → Kept (call v i op apply)
  Kept-call i op apply = elim (Option-cases (v.desc i)) [
    | inl unused ↦ rw (unused, Kept, call) kept
    | inr used ↦
        rw (used.1, Kept, call)
          (elim (Option-cases ((v.table used.0).ops)) [
            | inl missing ↦ rw missing tt
            | inr ops ↦ rw ops.1 (elim (Option-cases (op ops.0)) [
              | inl missing ↦ rw missing tt
              | inr f ↦ rw f.1 kept
            ])
          ])
  ]

  Kept-register_driver :
      (name : List ℕ) (ops : DeviceOps S) → IsCounted (register_driver strcmp v name ops).1
  unfolding register_driver
  Kept-register_driver name ops = elim (Option-cases (find_device strcmp v name)) [
    | inl unknown ↦ rw (unknown, register_driver) kept
    | inr device ↦
        rw (device.1, register_driver)
          (elim (Option-cases ((v.table device.0).ops)) [
            | inr old ↦ rw old.1 kept
            | inl free ↦ rw free (λ q. elim (Bool-cases (q == device.0)) [
              | inl e ↦ rw e (rw (sym (==→eq q device.0 e)) (kept q))
              | inr e ↦ rw e (kept q)
            ])
          ])
  ]

-- A call of a service by the application, that returns; a descriptor that is closed is within the
-- table.
pub data Step {S : Type 0} (strcmp : List ℕ → List ℕ → ℤ) (v v' : Devices S) : Type 0 where
  opened :
      (filename : List ℕ) (ret : ℤ) → dev_open strcmp v filename ≡ ok (ret, v') → Step strcmp v v'
  closed : (i : ℕ) (ret : ℤ) → i < max_desc → dev_close v i ≡ ok (ret, v') → Step strcmp v v'
  was_read : (i dest size : ℕ) (ret : ℤ) → dev_read v i dest size ≡ ok (ret, v') → Step strcmp v v'
  written :
      (i : ℕ) (src : ℕ → ℕ) (size : ℕ) (ret : ℤ)
      → dev_write v i src size ≡ ok (ret, v')
      → Step strcmp v v'
  controlled : (i cmd arg : ℕ) (ret : ℤ) → dev_ioctl v i cmd arg ≡ ok (ret, v') → Step strcmp v v'
  polled :
      (i events : ℕ) (timeout ret : ℤ)
      → dev_poll v i events timeout ≡ ok (ret, v')
      → Step strcmp v v'
  registered :
      (name : List ℕ) (ops : DeviceOps S)
      → v' ≡ (register_driver strcmp v name ops).1
      → Step strcmp v v'

pub data Reach {S : Type 0} (strcmp : List ℕ → List ℕ → ℤ) (v : Devices S)
    : Devices S → Type 0 where
  start : Reach strcmp v v
  step : {v1 v2 : Devices S} → Reach strcmp v v1 → Step strcmp v1 v2 → Reach strcmp v v2

Kept-ok :
    {S : Type 0} {r : Run (ℤ × Devices S)} {ret : ℤ} {v : Devices S}
    → Kept r
    → r ≡ ok (ret, v)
    → IsCounted v
Kept-ok h e = subst Kept e h

Step-IsCounted :
    {S : Type 0} (strcmp : List ℕ → List ℕ → ℤ) (v v' : Devices S)
    → Step strcmp v v'
    → IsCounted v
    → IsCounted v'
unfolding dev_read dev_write dev_ioctl dev_poll
Step-IsCounted strcmp v v' (opened filename ret e) c = Kept-ok (Kept-dev_open strcmp v c filename) e
Step-IsCounted strcmp v v' (closed i ret b e) c = Kept-ok (Kept-dev_close strcmp v c i b) e
Step-IsCounted strcmp v v' (was_read i dest size ret e) c =
    Kept-ok (Kept-call strcmp v c i (λ ops. ops.read) (λ f. f i dest size)) e
Step-IsCounted strcmp v v' (written i src size ret e) c =
    Kept-ok (Kept-call strcmp v c i (λ ops. ops.write) (λ f. f i src size)) e
Step-IsCounted strcmp v v' (controlled i cmd arg ret e) c =
    Kept-ok (Kept-call strcmp v c i (λ ops. ops.ioctl) (λ f. f i cmd arg)) e
Step-IsCounted strcmp v v' (polled i events timeout ret e) c =
    Kept-ok (Kept-call strcmp v c i (λ ops. ops.poll) (λ f. f i events timeout)) e
Step-IsCounted strcmp v v' (registered name ops e) c =
    subst IsCounted (sym e) (Kept-register_driver strcmp v c name ops)

-- Whatever calls of the devices' services the application makes, closing only descriptors below
-- CONFIG_MAX_DEVICE_DESC, which `rx_dev_close` does not test, and whatever the drivers return, each device's count of opens is the number of descriptors that are open on it.
pub Reach-IsCounted :
    {S : Type 0} (strcmp : List ℕ → List ℕ → ℤ) (v v' : Devices S)
    → IsCounted v
    → Reach strcmp v v'
    → IsCounted v'
Reach-IsCounted strcmp v v' c start = c
Reach-IsCounted strcmp v v' c (step {v1} r st) =
    Step-IsCounted strcmp v1 v' st (Reach-IsCounted strcmp v v1 c r)
