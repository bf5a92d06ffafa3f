-- ===== src/Traps.antt =====
-- include/defines/traps.hpp and `PrivilegeMode` of include/hart.hpp: exception and interrupt
-- codes, what a memory access and an instruction report, and the privilege modes.
use riscv_em.Base.{ℕ, Bool, List, [], ◌∷◌}

pub data PrivilegeMode : Type 0 where
  user supervisor hypervisor machine : PrivilegeMode

-- The enumerators' values.
abbrev pub mode_code : PrivilegeMode → ℕ
mode_code PrivilegeMode.user = 0
mode_code PrivilegeMode.supervisor = 1
mode_code PrivilegeMode.hypervisor = 2
mode_code PrivilegeMode.machine = 3

pub data MemorySize : Type 0 where
  byte short int long : MemorySize

abbrev pub size_code : MemorySize → ℕ
size_code MemorySize.byte = 1
size_code MemorySize.short = 2
size_code MemorySize.int = 4
size_code MemorySize.long = 8

abbrev pub exc_inst_addr_misaligned : ℕ
exc_inst_addr_misaligned = 0

abbrev pub exc_inst_access_fault : ℕ
exc_inst_access_fault = 1

abbrev pub exc_illegal_instruction : ℕ
exc_illegal_instruction = 2

abbrev pub exc_breakpoint : ℕ
exc_breakpoint = 3

abbrev pub exc_load_access_fault : ℕ
exc_load_access_fault = 5

abbrev pub exc_store_access_fault : ℕ
exc_store_access_fault = 7

abbrev pub exc_env_call_from_u : ℕ
exc_env_call_from_u = 8

abbrev pub exc_env_call_from_s : ℕ
exc_env_call_from_s = 9

abbrev pub exc_env_call_from_m : ℕ
exc_env_call_from_m = 11

-- The order in which pending interrupts are taken.
abbrev pub irq_priority : List ℕ
irq_priority = 11 ∷ 9 ∷ 3 ∷ 1 ∷ 7 ∷ 5 ∷ []

pub record ExecReturn : Type 0 where
  pub is_success : Bool
  pub can_change_pc : Bool
  pub increase_pc : ℕ
  pub cause : ℕ
  pub tval : ℕ

pub record MemoryReturn : Type 0 where
  pub is_success : Bool
  pub exc_code : ℕ
  pub tval : ℕ
