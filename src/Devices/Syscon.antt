-- ===== src/Devices/Syscon.antt =====
-- src/devices/syscon.cpp: the registers that power the machine off and reset it.
use riscv_em.Base.{ℕ, sub64, ◌==◌, if◌then◌else◌, Option, none, some}

-- What a write asks of the machine.
pub data Request : Type 0 where
  stop : Request
  reset : Request

pub read : ℕ → ℕ
read addr = 0

-- The offset is taken the other way round, which only the first register does not see.
pub write : ℕ → ℕ → ℕ → Option Request
write start addr val =
    let offset = sub64 start addr in
    if offset == 0
    then if val == 0x5555
      then some Request.stop
      else if val == 0x7777
      then some Request.reset
      else none
    else none
