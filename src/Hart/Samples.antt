-- ===== src/Hart/Samples.antt =====
-- Harts for the tests.
use riscv_em.Base.{◌==◌, if◌then◌else◌, false, true}
use riscv_em.Traps.{PrivilegeMode}
use riscv_em.Hart.{Hart}
use riscv_em.Hart.Csr.{csr_medeleg, csr_mideleg}

-- A hart in user mode; environment calls and supervisor interrupts are delegated; a timer
-- interrupt of the machine and an external one of the supervisor are pending and enabled.
abbrev pub user_hart : Hart
user_hart = record {
  id = 0;
  gpr = λ i. if i == 2 then 0x1234 else if i == 1 then 0x80000010 else 0;
  csrs = λ i. if i == csr_medeleg then 0x100 else if i == csr_mideleg then 0x222 else 0;
  pc = 0x80001000;
  mode = PrivilegeMode.user;
  status = 0xa0000000a;
  ie = 0x280;
  ip = 0x280;
  stimecmp = 0;
  fcsr = 0;
  wfi = false;
  reservation = record { vaddr = 0x80000020; size = 8; valid = true };
}

abbrev pub machine_hart : Hart
machine_hart = record user_hart { mode = PrivilegeMode.machine; status = 0; ip = 0 }
