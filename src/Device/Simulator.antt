-- ===== src/Device/Simulator.antt =====
-- drivers/simulator/x86sim.c: what is written to the device is printed, a character a call.
use rosx.Base.{ℕ, none, some, List, [], ◌∷◌, ◌++◌}
use rosx.Base.Int.{ℤ, pos}
use rosx.Device.{Call, DeviceOps, Devices, register_driver}

-- The characters printed.
abbrev sim_open : ℕ → Call (List ℕ)
sim_open i out = (pos 0, out)

abbrev sim_release : ℕ → Call (List ℕ)
sim_release i out = (pos 0, out)

-- `x86_sim_write` prints the first character, and returns the size.
abbrev sim_write : ℕ → (ℕ → ℕ) → ℕ → Call (List ℕ)
sim_write i src size out = (pos size, out ++ src 0 ∷ [])

-- `fops`
abbrev pub sim_ops : DeviceOps (List ℕ)
sim_ops = record {
  open_op = some sim_open;
  release = some sim_release;
  read = none;
  write = some sim_write;
  ioctl = none;
  poll = none;
}

abbrev pub sim_name : List ℕ
sim_name = 115 ∷ 105 ∷ 109 ∷ 120 ∷ 56 ∷ 54 ∷ []

-- `x86_simulator_init`
unfoldable pub simulator_init : (List ℕ → List ℕ → ℤ) → Devices (List ℕ) → Devices (List ℕ)
simulator_init strcmp v = (register_driver strcmp v sim_name sim_ops).1
