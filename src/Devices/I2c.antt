-- ===== src/Devices/I2c.antt =====
-- src/devices/i2c/i2c-core.cpp with include/devices/i2c: the I2C controller. A slave is a table of its
-- virtual functions on the state `S` that the slaves share.
pub mod Inv
pub mod Completion
mod Tests
use riscv_em.Base.{
  ℕ, zero, suc, ◌+◌, ◌-◌, ◌*◌, ◌/◌, ◌%◌, ◌^◌, bit_and, u8, sub64, nonzero, ltb, ◌==◌, if◌then◌else◌,
  Bool, true, false, not, ◌&&◌, ◌||◌, List, [], ◌∷◌, Option, none, some, get_elem?,
}
use riscv_em.Base.Fields.{field, set_field}
use riscv_em.Memory.{Outcome}

pub record Slave (S : Type 0) : Type 0 where
  pub address : ℕ
  pub start_transmit : S → S
  pub stop_transmit : S → S
  pub dev_read : Bool → S → ℕ × S
  pub dev_write : ℕ → S → S

-- The pointer `current_dev` is a place in the list of slaves. `told` has the levels of the calls of
-- `PLIC::set_pending`, the last one first.
pub record I2c (S : Type 0) : Type 0 where
  pub start : ℕ
  pub prer_lo : ℕ
  pub prer_hi : ℕ
  pub ctr : ℕ
  pub txr : ℕ
  pub rxr : ℕ
  pub cr : ℕ
  pub sr : ℕ
  pub device_selected : Bool
  pub current_address : ℕ
  pub current_dev : Option ℕ
  pub is_read_operation : Bool
  pub int_line : Bool
  pub op_active : Bool
  pub delay : ℕ
  pub slaves : List (Slave S)
  pub state : S
  pub told : List Bool

abbrev pub cr_set : ℕ → ℕ → Bool
cr_set i cr = field 1 i cr == 1

abbrev pub set_sr : ℕ → ℕ → ℕ → ℕ
set_sr i v sr = set_field 1 i v sr

-- The bits of the two registers.
abbrev pub cr_iack : ℕ
cr_iack = 0

abbrev pub cr_ack : ℕ
cr_ack = 3

abbrev pub cr_wr : ℕ
cr_wr = 4

abbrev pub cr_rd : ℕ
cr_rd = 5

abbrev pub cr_sto : ℕ
cr_sto = 6

abbrev pub cr_sta : ℕ
cr_sta = 7

abbrev pub sr_if : ℕ
sr_if = 0

abbrev pub sr_tip : ℕ
sr_tip = 1

abbrev pub sr_busy : ℕ
sr_busy = 6

abbrev pub sr_rxack : ℕ
sr_rxack = 7

abbrev pub transaction_started : ℕ → Bool
transaction_started cr = cr_set cr_wr cr || (cr_set cr_rd cr || cr_set cr_sto cr)

module _ {S : Type 0} where
  -- The constructor, without the device tree.
  pub init : ℕ → List (Slave S) → S → I2c S
  init start slaves state = record {
    start = start;
    prer_lo = 0xff;
    prer_hi = 0xff;
    ctr = 0;
    txr = 0;
    rxr = 0;
    cr = 0;
    sr = 0;
    device_selected = false;
    current_address = 0xffff;
    current_dev = none;
    is_read_operation = false;
    int_line = false;
    op_active = false;
    delay = 0;
    slaves = slaves;
    state = state;
    told = [];
  }

  pub raise_interrupt : I2c S → I2c S
  raise_interrupt c =
      if nonzero (bit_and c.ctr 0x40) && not c.int_line
      then record c { int_line = true; told = true ∷ c.told }
      else c

  pub lower_interrupt : I2c S → I2c S
  lower_interrupt c = if c.int_line then record c { int_line = false; told = false ∷ c.told } else c

  pub acknowledge : I2c S → I2c S
  acknowledge c =
      let lowered = lower_interrupt (record c { sr = set_sr sr_if 0 c.sr }) in
      if cr_set cr_iack c.cr then record lowered { cr = set_field 1 cr_iack 0 c.cr } else c

  -- The slave that the controller talks to.
  pub selected : I2c S → Option (Slave S)
  selected c = elim c.current_dev [
    | some i ↦ if c.device_selected then get_elem? c.slaves i else none
    | none ↦ none
  ]

  pub send_start : I2c S → I2c S
  send_start c =
      if cr_set cr_sta c.cr
      then record c { sr = set_sr sr_busy 1 c.sr; current_address = 0xffff }
      else c

  -- The loop over the slaves, from place `i` on.
  pub find_slave : ℕ → ℕ → List (Slave S) → Option (ℕ × Slave S)
  find_slave addr i [] = none
  find_slave addr i (dev ∷ rest) =
      if dev.address == addr then some (i, dev) else find_slave addr (i + 1) rest

  -- What the slave that was found for the address changes.
  pub answered : I2c S → Option (ℕ × Slave S) → I2c S
  answered c none = record c {
    current_address = c.txr / 2;
    is_read_operation = nonzero (bit_and c.txr 1);
    device_selected = false;
  }
  answered c (some (i, dev)) = record c {
    current_address = c.txr / 2;
    is_read_operation = nonzero (bit_and c.txr 1);
    device_selected = true;
    current_dev = some i;
    state = dev.start_transmit c.state;
    sr = set_sr sr_rxack 0 c.sr;
  }

  -- The first byte after a start is an address.
  pub send_address : I2c S → I2c S
  send_address c = answered c (find_slave (c.txr / 2) 0 c.slaves)

  -- A byte for the slave that is selected.
  pub wrote : I2c S → Option (Slave S) → I2c S
  wrote c none = record c { sr = set_sr sr_rxack 1 (set_sr sr_tip 1 c.sr) }
  wrote c (some dev) = record c {
    state = dev.dev_write c.txr c.state;
    sr = set_sr sr_rxack 0 (set_sr sr_rxack 1 (set_sr sr_tip 1 c.sr));
  }

  pub send_data : I2c S → I2c S
  send_data c = wrote c (selected c)

  pub transfer_write : I2c S → I2c S
  transfer_write c =
      let sent = if c.current_address == 0xffff then send_address c else send_data c in
      if cr_set cr_wr c.cr then sent else c

  -- A byte from the slave that is selected.
  pub got : I2c S → Option (Slave S) → I2c S
  got c none = record c { rxr = 0xff; sr = set_sr sr_rxack 1 (set_sr sr_tip 1 c.sr) }
  got c (some dev) =
      let (val, state) = dev.dev_read (cr_set cr_ack c.cr) c.state in
      record c { rxr = u8 val; state = state; sr = set_sr sr_rxack 0 (set_sr sr_tip 1 c.sr) }

  pub receive_data : I2c S → I2c S
  receive_data c = got c (selected c)

  pub transfer_read : I2c S → I2c S
  transfer_read c = if cr_set cr_rd c.cr then receive_data c else c

  pub state_after_stop : I2c S → S
  state_after_stop c = elim (selected c) [ some dev ↦ dev.stop_transmit c.state | none ↦ c.state ]

  pub send_stop : I2c S → I2c S
  send_stop c =
      if cr_set cr_sto c.cr
      then record c {
        state = state_after_stop c;
        device_selected = false;
        sr = set_sr sr_busy 0 c.sr;
      }
      else c

  pub complete : I2c S → I2c S
  complete c =
      if transaction_started c.cr
      then raise_interrupt (record c { sr = set_sr sr_if 1 (set_sr sr_tip 0 c.sr) })
      else c

  pub execute_command : I2c S → I2c S
  execute_command c =
      let a = acknowledge c in
      let ran = complete (send_stop (transfer_read (transfer_write (send_start a)))) in
      if not (cr_set cr_sta a.cr) && not (transaction_started a.cr) then a else ran

  pub tick : I2c S → I2c S
  tick c =
      let waited = record c { delay = c.delay + 1 } in
      let ran = record (execute_command waited) { op_active = false } in
      if not c.op_active then c else if ltb waited.delay 100 then waited else ran

  pub read : ℕ → I2c S → ℕ
  read addr c =
      let offs = sub64 addr c.start in
      if offs == 0
      then c.prer_lo
      else if offs == 4
      then c.prer_hi
      else if offs == 8
      then c.ctr
      else if offs == 12
      then c.rxr
      else if offs == 16
      then c.sr
      else 0

  -- A controller that is switched off forgets the transfer.
  pub write_ctr : ℕ → I2c S → I2c S
  write_ctr val c =
      let c' = record c { ctr = u8 val } in
      let off = record c' { sr = 0; device_selected = false; current_address = 0xffff } in
      if nonzero (bit_and c'.ctr (2 ^ 7)) then c' else lower_interrupt off

  pub write_cr : ℕ → I2c S → I2c S
  write_cr val c =
      if nonzero (bit_and c.ctr (2 ^ 7))
      then record c {
        cr = u8 val;
        op_active = true;
        delay = 0;
        sr = set_sr sr_if 0 (set_sr sr_tip 1 c.sr);
      }
      else c

  pub write : ℕ → ℕ → I2c S → I2c S
  write addr val c =
      let offs = sub64 addr c.start in
      if offs == 0
      then record c { prer_lo = u8 val }
      else if offs == 4
      then record c { prer_hi = u8 val }
      else if offs == 8
      then write_ctr val c
      else if offs == 12
      then record c { txr = u8 val }
      else if offs == 16
      then write_cr val c
      else c
