-- ===== src/Devices/Uart/Step/Tests.antt =====
-- The serial port at its start, and after a byte.
use riscv_em.Base.{◌≡◌, refl, ◌⊎◌, false, ltb, length, [], ◌∷◌, ◌++◌, if◌then◌else◌}
use riscv_em.Devices.Uart.{Uart, init, update_iir, calc_iir_locked}
use riscv_em.Devices.Uart.Step.{write, read_rhr, receive_byte}
use riscv_em.Devices.Uart.Step.Inv.{Inv, init-Inv, receive_byte-Inv}
use riscv_em.Devices.Uart.Step.Bus.{Used, Used-Inv}
use riscv_em.Devices.Uart.Step.Queue.{waiting, room, receive_byte-waiting, read_rhr-waiting}

abbrev start : Uart
start = init 0x10000000 10

abbrev with_byte : Uart
with_byte = (receive_byte 65 start).uart

with_byte-Inv : Inv with_byte
with_byte-Inv = receive_byte-Inv 65 start (init-Inv 0x10000000 10)

Used-Inv_example : Inv (write 0x10000002 1 with_byte).uart
Used-Inv_example =
    Used-Inv (write 0x10000002 1 with_byte).uart
      (Used.written 0x10000002 1 (Used.received 65 (Used.started 0x10000000 10)))

receive_byte-waiting_example : waiting (receive_byte 65 start).uart ≡ (
    if ltb (length (waiting start)) (room start) then waiting start ++ (65 ∷ []) else waiting start)
receive_byte-waiting_example = receive_byte-waiting 65 start (init-Inv 0x10000000 10)

data_access : with_byte.dlab ≡ false
unfolding init receive_byte update_iir calc_iir_locked
data_access = refl

read_rhr-waiting_example :
    (waiting with_byte ≡ [] × waiting (read_rhr with_byte).1.uart ≡ [])
    ⊎ (waiting with_byte ≡ (read_rhr with_byte).0 ∷ waiting (read_rhr with_byte).1.uart)
read_rhr-waiting_example = read_rhr-waiting with_byte with_byte-Inv data_access
