-- ===== src/Isa/Privileged.antt =====
-- `exec_SFENCE_VMA` and `exec_WFI` of src/sets/priv.cpp; the returns from a trap are in Hart/Trap.
use riscv_em.Base.{bit_and, nonzero, ◌==◌, if◌then◌else◌, true, ◌&&◌, ◌||◌}
use riscv_em.Traps.{ExecReturn}
use riscv_em.Hart.{Hart}
use riscv_em.Hart.Csr.{status_tvm, status_tw}
use riscv_em.Hart.Trap.{is_supervisor, is_user, illegal}
use riscv_em.Isa.{InstructionData, next}

pub exec_sfence_vma : InstructionData → Hart → ExecReturn × Hart
exec_sfence_vma d h =
    if is_user h.mode || (is_supervisor h.mode && nonzero (status_tvm h.status))
    then (illegal d.inst, h)
    else (next, h)

-- The clock that the code reads here is not used.
pub exec_wfi : InstructionData → Hart → ExecReturn × Hart
exec_wfi d h =
    if nonzero (status_tw h.status)
    then (illegal d.inst, h)
    else (next, if bit_and h.ip h.ie == 0 then record h { wfi = true } else h)
