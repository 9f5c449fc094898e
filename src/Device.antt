-- ===== src/Device.antt =====
-- kernel/rx_device.c, and the simulator's driver (drivers/simulator/x86sim.c).
-- A driver is its table of functions, each NULL or a function of the descriptor's number and of
-- `S`, all that drivers keep: a buffer to read into is a part of it, and one to write is given by its bytes. `strcmp` is the library's.
pub mod Simulator
pub mod Reach
pub mod Opening
pub mod Counts
use rosx.Base.{
  ℕ, zero, suc, Bool, true, false, Option, none, some, List, [], ◌∷◌, ◌==◌, update, if◌then◌else◌,
  Run, ok, null_deref, ◌>>=◌,
}
use rosx.Base.Int.{ℤ, pos, negsuc, inc, dec, is_zero}
use rosx.Kernel.{Kernel}
use rosx.WaitQueue.{WaitQueues, wait_on}

-- What a driver's function does: its result, and the drivers' state after it.
abbrev pub Call : Type 0 → Type 0
Call S = S → ℤ × S

pub record DeviceOps (S : Type 0) : Type 0 where
  pub open_op : Option (ℕ → Call S)
  pub release : Option (ℕ → Call S)
  pub read : Option (ℕ → (dest size : ℕ) → Call S)
  pub write : Option (ℕ → (src : ℕ → ℕ) → (size : ℕ) → Call S)
  pub ioctl : Option (ℕ → (cmd arg : ℕ) → Call S)
  pub poll : Option (ℕ → (events : ℕ) → ℤ → Call S)

pub record Device (S : Type 0) : Type 0 where
  pub name : List ℕ
  pub ops : Option (DeviceOps S)
  pub open_count : ℤ

-- `device_table`, and `desc`: the device of a descriptor in use.
pub record Devices (S : Type 0) : Type 0 where
  pub table : ℕ → Device S
  pub desc : ℕ → Option ℕ
  pub drivers : S

-- sizeof(device_table) / sizeof(struct device), and CONFIG_MAX_DEVICE_DESC
abbrev table_size : ℕ
table_size = 1

abbrev pub max_desc : ℕ
max_desc = 5

-- -ENXIO, -ENOMEM and -ENODEV
abbrev enxio : ℤ
enxio = negsuc 5

abbrev pub enomem : ℤ
enomem = negsuc 11

abbrev enodev : ℤ
enodev = negsuc 18

-- A call through a pointer to a function.
abbrev pub through {ℓ} : {F : Type ℓ} → Option F → Run F
through none = null_deref
through (some f) = ok f

-- The first entry that passes the test, from `i` on.
unfoldable pub first_from : (rounds i : ℕ) → (ℕ → Bool) → Option ℕ
first_from zero i test = none
first_from (suc rounds) i test = elim (test i) [
  | true ↦ some i
  | false ↦ first_from rounds (suc i) test
]

abbrev pub is_unused : Option ℕ → Bool
is_unused none = true
is_unused (some d) = false

module _ {S : Type 0} (strcmp : List ℕ → List ℕ → ℤ) where
  unfoldable pub find_device : Devices S → List ℕ → Option ℕ
  unfolding first_from
  find_device v filename = first_from table_size 0 (λ d. is_zero (strcmp filename (v.table d).name))

  -- `rx_dev_open`
  unfoldable pub dev_open : Devices S → List ℕ → Run (ℤ × Devices S)
  unfolding find_device first_from
  dev_open v filename = elim (find_device v filename) [
    | none ↦ ok (enodev, v)
    | some d ↦ elim ((v.table d).ops) [
      | none ↦ ok (enxio, v)
      | some ops ↦ elim (first_from max_desc 0 (λ i. is_unused (v.desc i))) [
        | none ↦ ok (enomem, v)
        | some i ↦ do
          f ← through ops.open_op
          let (ret, drivers) = f i v.drivers
          if is_zero ret
              then ok (
                pos i,
                record v {
                  desc = update v.desc i (some d);
                  table =
                      update v.table d
                        (record (v.table d) { open_count = inc (v.table d).open_count });
                  drivers = drivers;
                },
              )
              else ok (ret, record v { desc = update v.desc i none; drivers = drivers })
      ]
    ]
  ]

  -- `rx_register_driver`
  unfoldable pub register_driver : Devices S → List ℕ → DeviceOps S → ℤ × Devices S
  unfolding find_device
  register_driver v name ops = elim (find_device v name) [
    | none ↦ (enodev, v)
    | some d ↦ elim ((v.table d).ops) [
      | some old ↦ (pos 19, v)
      | none ↦
          (pos 0, record v { table = update v.table d (record (v.table d) { ops = some ops }) })
    ]
  ]

-- The driver's function for an open descriptor; a device in use has a driver.
abbrev pub call {ℓ} :
    {S : Type 0} {F : Type ℓ}
    → Devices S
    → ℕ
    → (DeviceOps S → Option F)
    → (F → Call S)
    → Run (ℤ × Devices S)
call v i op apply = elim (v.desc i) [
  | none ↦ ok (enodev, v)
  | some d ↦ do
    ops ← through ((v.table d).ops)
    f ← through (op ops)
    let (ret, drivers) = apply f v.drivers
    ok (ret, record v { drivers = drivers })
]

-- `rx_dev_close`
unfoldable pub dev_close : {S : Type 0} → Devices S → ℕ → Run (ℤ × Devices S)
dev_close v i = elim (v.desc i) [
  | none ↦ ok (enodev, v)
  | some d ↦ do
    ops ← through ((v.table d).ops)
    f ← through ops.release
    let (ret, drivers) = f i v.drivers
    if is_zero ret
        then ok (
          pos 0,
          record v {
            table =
                update v.table d (record (v.table d) { open_count = dec (v.table d).open_count });
            desc = update v.desc i none;
            drivers = drivers;
          },
        )
        else ok (ret, record v { drivers = drivers })
]

-- `rx_dev_read`, `rx_dev_write`, `rx_dev_ioctl` and `rx_dev_poll`
unfoldable pub dev_read : {S : Type 0} → Devices S → ℕ → (dest size : ℕ) → Run (ℤ × Devices S)
dev_read v i dest size = call v i (λ ops. ops.read) (λ f. f i dest size)

unfoldable pub dev_write :
    {S : Type 0} → Devices S → ℕ → (src : ℕ → ℕ) → (size : ℕ) → Run (ℤ × Devices S)
dev_write v i src size = call v i (λ ops. ops.write) (λ f. f i src size)

unfoldable pub dev_ioctl : {S : Type 0} → Devices S → ℕ → (cmd arg : ℕ) → Run (ℤ × Devices S)
dev_ioctl v i cmd arg = call v i (λ ops. ops.ioctl) (λ f. f i cmd arg)

unfoldable pub dev_poll : {S : Type 0} → Devices S → ℕ → (events : ℕ) → ℤ → Run (ℤ × Devices S)
dev_poll v i events timeout = call v i (λ ops. ops.poll) (λ f. f i events timeout)

-- `rx_poll_wait`, for the drivers, up to the switch
unfoldable poll_wait : ℕ → WaitQueues → Kernel → (wq : ℕ) → Run (WaitQueues × Kernel)
unfolding wait_on
poll_wait fuel w k wq = wait_on fuel w k wq
