-- ===== src/Devices/I2c/Tests.antt =====
-- A controller with one slave, which counts the bytes that it is sent.
use riscv_em.Base.{ℕ, suc, ◌≡◌, refl, false, [], ◌∷◌}
use riscv_em.Devices.I2c.{Slave, I2c, init, write, tick, write_cr}
use riscv_em.Devices.I2c.Inv.{Inv, Reachable, Reachable-Inv}
use riscv_em.Devices.I2c.Completion.{Finished, ticks, write_cr-Finished}

abbrev counter : Slave ℕ
counter = record {
  address = 0x2c;
  start_transmit = λ s. s;
  stop_transmit = λ s. s;
  dev_read = λ ack s. (s, s);
  dev_write = λ val s. suc s;
}

abbrev unused_yet : I2c ℕ
unused_yet = init 0x10030000 (counter ∷ []) 0

-- Switched on, with the address of the slave in the transmit register.
abbrev addressed : I2c ℕ
addressed = record unused_yet { ctr = 0xc0; txr = 0x58 }

Reachable-Inv_example : Inv (tick (write 0x10030008 0x80 unused_yet))
Reachable-Inv_example = Reachable-Inv (tick (write 0x10030008 0x80 unused_yet)) (
    Reachable.ticked
      (Reachable.written 0x10030008 0x80 (Reachable.started 0x10030000 (counter ∷ []) 0)))

write_cr-Finished_example :
    Finished (ticks 100 (write_cr 0x90 addressed))
    × ((ticks 100 (write_cr 0x90 addressed)).op_active ≡ false)
unfolding init
write_cr-Finished_example = write_cr-Finished 0x90 addressed refl refl
