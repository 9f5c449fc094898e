-- ===== src/Device/Opening.antt =====
-- `rx_dev_open` and `rx_dev_close` together, and the failures of an open.
use rosx.Base.{
  ℕ, zero, suc, ◌+◌, ◌<◌, ◌≡◌, refl, sym, ap, ◌∙◌, inl, inr, Bool, true, false, Option, none, some,
  List, arith, ◌==◌, ==→eq, update, update_self, Bool-cases, Run, ok,
}
use rosx.Base.Int.{ℤ, pos, inc, dec, is_zero}
use rosx.Device.{
  Call, DeviceOps, Device, Devices, max_desc, enomem, first_from, is_unused, find_device, dev_open,
  dev_close,
}
use rosx.Device.Counts.{first_from_lem}
use rosx.Device.Reach.{is_unused-none}

dec-inc : (a : ℤ) → dec (inc a) ≡ a
unfolding inc dec
dec-inc a = ground arith

first_from-none :
    (rounds i : ℕ) (test : ℕ → Bool)
    → ((j : ℕ) → j < i + rounds → test j ≡ false)
    → first_from rounds i test ≡ none
unfolding first_from
first_from-none zero i test all = refl
first_from-none (suc m) i test all =
    rw (all i (omega arith), first_from)
      (first_from-none m (suc i) test (λ j b. all j (omega arith)))

-- If all the descriptors are in use an open of a device that has a driver returns -ENOMEM and
-- changes nothing.
dev_open-full :
    {S : Type 0} (strcmp : List ℕ → List ℕ → ℤ) (v : Devices S) (filename : List ℕ) (d : ℕ)
    (ops : DeviceOps S)
    → find_device strcmp v filename ≡ some d
    → (v.table d).ops ≡ some ops
    → ((i : ℕ) → i < max_desc → is_unused (v.desc i) ≡ false)
    → dev_open strcmp v filename ≡ ok (enomem, v)
unfolding dev_open
dev_open-full strcmp v filename d ops known driver all =
    simp (known, dev_open)
      (simp driver (
        simp (first_from-none max_desc 0 (λ i. is_unused (v.desc i)) (λ j b. all j (omega arith)))
          refl))

-- An open that finds a free descriptor, and whose driver succeeds, returns that descriptor; if the
-- driver also lets go of it, a close frees the descriptor again, and the tables of descriptors and
-- of devices, with names, drivers and counts, are as before. The drivers' own state may differ.
pub dev_close-dev_open :
    {S : Type 0} (strcmp : List ℕ → List ℕ → ℤ) (v : Devices S) (filename : List ℕ) (d i : ℕ)
    (ops : DeviceOps S) (f g : ℕ → Call S)
    → find_device strcmp v filename ≡ some d
    → (v.table d).ops ≡ some ops
    → first_from max_desc 0 (λ j. is_unused (v.desc j)) ≡ some i
    → ops.open_op ≡ some f
    → ops.release ≡ some g
    → is_zero (f i v.drivers).0 ≡ true
    → is_zero (g i (f i v.drivers).1).0 ≡ true
    → (v1 v2 : Devices S) × (dev_open strcmp v filename ≡ ok (pos i, v1))
      × (v1.desc i ≡ some d)
      × ((v1.table d).open_count ≡ inc (v.table d).open_count)
      × (dev_close v1 i ≡ ok (pos 0, v2))
      × ((q : ℕ) → v2.desc q ≡ v.desc q)
      × ((q : ℕ) → v2.table q ≡ v.table q)
unfolding dev_open dev_close
dev_close-dev_open {S} strcmp v filename d i ops f g known driver entry opens closes fine fine' =
    let v1 : Devices S = record v {
      desc = update v.desc i (some d);
      table = update v.table d (record (v.table d) { open_count = inc (v.table d).open_count });
      drivers = (f i v.drivers).1;
    } in
    let dev1 : Device S = record (v.table d) { open_count = inc (v.table d).open_count } in
    let at_d : v1.table d ≡ dev1 = update_self v.table d dev1 in
    let used : v1.desc i ≡ some d = update_self v.desc i (some d) in
    let driver1 : (v1.table d).ops ≡ some ops = ap (λ (z : Device S). z.ops) at_d ∙ driver in
    let v2 : Devices S = record v1 {
      table = update v1.table d (record (v1.table d) { open_count = dec (v1.table d).open_count });
      desc = update v1.desc i none;
      drivers = (g i (f i v.drivers).1).1;
    } in
    let reopened : Option (DeviceOps S) → Run (ℤ × Devices S) =
      λ o. ok (pos i, record v1 { table = update v.table d (record dev1 { ops = o }) }) in
    let free : v.desc i ≡ none =
      is_unused-none (v.desc i) (first_from_lem max_desc 0 (λ j. is_unused (v.desc j)) i entry).1 in
    (
      v1,
      v2,
      simp (known, dev_open)
          (simp driver (simp entry (simp opens (simp fine (ap reopened driver))))),
      used,
      ap (λ (z : Device S). z.open_count) at_d,
      simp (used, dev_close) (simp driver1 (simp closes (simp fine' refl))),
      (λ q. elim (Bool-cases (q == i)) [
        | inl e ↦ rw e (sym (ap v.desc (==→eq q i e) ∙ free))
        | inr e ↦ rw e refl
      ]),
      (λ q. elim (Bool-cases (q == d)) [
        | inl e ↦ rw e (
            ap (λ (z : Device S). record z { open_count = dec z.open_count }) at_d
            ∙ (ap (λ n. record (v.table d) { open_count = n }) (dec-inc (v.table d).open_count)
                ∙ ap v.table (sym (==→eq q d e))))
        | inr e ↦ rw e refl
      ]),
    )
