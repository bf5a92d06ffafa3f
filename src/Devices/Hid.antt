-- ===== src/Devices/Hid.antt =====
-- src/devices/hid/hid-over-i2c.cpp with include/devices/hid/hid-over-i2c.hpp: a HID slave of the I2C
-- controller. `none` is a write past the end of an array.
mod Tests
pub mod Keyboard
use riscv_em.Base.{
  ℕ, suc, ◌+◌, ◌-◌, ◌*◌, ◌/◌, ◌%◌, ◌^◌, bit_or, u8, u16, ltb, leb, ◌==◌, if◌then◌else◌, Bool, true,
  false, ◌&&◌, List, [], ◌∷◌, Option, none, some, get_elem?, length,
}

pub data WriteEvent : Type 0 where
  no_event : WriteEvent
  command : WriteEvent
  data_write : WriteEvent
  output : WriteEvent

-- `told` has the levels of the calls of `PLIC::set_pending`, the last one first.
pub record Hid : Type 0 where
  pub hid_descriptor : List ℕ
  pub report_desc : List ℕ
  pub cur_reg : ℕ
  pub io_offset : ℕ
  pub input_report_size : ℕ
  pub is_transmitting : Bool
  pub report_queue : List (List ℕ)
  pub input_report : ℕ → ℕ
  pub output_report : ℕ → ℕ
  pub data_register : ℕ → ℕ
  pub command_register : ℕ → ℕ
  pub last_event : WriteEvent
  pub told : List Bool

-- The virtual functions that a device overrides.
pub record Events : Type 0 where
  pub hid_event_command_register_write : Hid → Hid
  pub hid_event_data_register_write : Hid → Hid
  pub hid_event_output_report_write : Hid → Hid

pub put_byte : ℕ → ℕ → (ℕ → ℕ) → ℕ → ℕ
put_byte i v bytes k = if k == i then v else bytes k

put_all : ℕ → List ℕ → (ℕ → ℕ) → ℕ → ℕ
put_all i [] bytes = bytes
put_all i (v ∷ vs) bytes = put_all (i + 1) vs (put_byte i v bytes)

-- A byte of a list, and 0 past its end.
byte_of : ℕ → List ℕ → ℕ
byte_of i vs = elim (get_elem? vs i) [ some v ↦ v | none ↦ 0 ]

byte_below : ℕ → ℕ → (ℕ → ℕ) → ℕ
byte_below size i bytes = if ltb i size then bytes i else 0

-- The constructor's descriptor, with the lengths of the report descriptor and of an input report.
pub descriptor : ℕ → ℕ → List ℕ
descriptor len input_len =
    0x1e
    ∷ 0x00
    ∷ 0x00
    ∷ 0x01
    ∷ u8 len
    ∷ u8 (len / 2 ^ 8)
    ∷ 0x02
    ∷ 0x00
    ∷ 0x03
    ∷ 0x00
    ∷ u8 input_len
    ∷ u8 (input_len / 2 ^ 8)
    ∷ 0x07
    ∷ 0x00
    ∷ 0x00
    ∷ 0x04
    ∷ 0x05
    ∷ 0x00
    ∷ 0x06
    ∷ 0x00
    ∷ 0x34
    ∷ 0x12
    ∷ 0x78
    ∷ 0x56
    ∷ 0x01
    ∷ 0x00
    ∷ 0x00
    ∷ 0x00
    ∷ 0x00
    ∷ 0x00
    ∷ []

-- The constructor, without the device tree. What it leaves without a value is the argument `junk`.
pub hid_init : (ℕ → ℕ) → List ℕ → ℕ → Hid
hid_init junk report_desc input_report_size = record {
  hid_descriptor = descriptor (length report_desc) 0x400;
  report_desc = report_desc;
  cur_reg = u16 (junk 0);
  io_offset = 0;
  input_report_size = input_report_size;
  is_transmitting = false;
  report_queue = [];
  input_report = junk;
  output_report = junk;
  data_register = junk;
  command_register = junk;
  last_event = WriteEvent.no_event;
  told = [];
}

pub tell : Bool → Hid → Hid
tell level h = record h { told = level ∷ h.told }

pub start_transmit : Hid → Hid
start_transmit h = record h {
  io_offset = 0;
  is_transmitting = true;
  last_event = WriteEvent.no_event;
}

-- The handler of the event that the transfer has made.
pub handle_event : Events → WriteEvent → Hid → Hid
handle_event events WriteEvent.no_event h = h
handle_event events WriteEvent.command h = events.hid_event_command_register_write h
handle_event events WriteEvent.data_write h = events.hid_event_data_register_write h
handle_event events WriteEvent.output h = events.hid_event_output_report_write h

-- A device whose queue is not empty asks for an interrupt.
pub ask : List (List ℕ) → Hid → Hid
ask [] h = h
ask (report ∷ rest) h = tell true h

pub stop_transmit : Events → Hid → Hid
stop_transmit events h =
    let handled =
      handle_event events h.last_event (record h { is_transmitting = false; cur_reg = 0x03 }) in
    ask handled.report_queue handled

-- A length in two bytes, and the bytes.
pub message : List ℕ → (ℕ → ℕ) → ℕ → ℕ
message bytes old =
    let total_len = u16 (length bytes + 2) in
    put_all 2 bytes (put_byte 1 (u8 (total_len / 2 ^ 8)) (put_byte 0 (u8 total_len) old))

pub hid_input_report_write : List ℕ → Hid → Option Hid
hid_input_report_write bytes h =
    if leb (length bytes + 2) h.input_report_size
    then some (record h { input_report = message bytes h.input_report })
    else none

pub hid_data_register_write : List ℕ → Hid → Option Hid
hid_data_register_write bytes h =
    if leb (length bytes + 2) 1024
    then some (record h { data_register = message bytes h.data_register })
    else none

-- The queue after the report that was read.
pub popped : List (List ℕ) → List (List ℕ)
popped [] = []
popped (report ∷ rest) = rest

-- The answer when the next report is in the array.
pub with_next : ℕ → Option Hid → Option (ℕ × Hid)
with_next val none = none
with_next val (some shown) = some (val, tell true shown)

-- The end of an input report: the next one is shown, or the interrupt line goes down.
pub next_report : ℕ → List (List ℕ) → Hid → Option (ℕ × Hid)
next_report val [] h = some (
  val,
  record (tell false (record h { report_queue = [] })) { io_offset = u16 (h.io_offset + 1) },
)
next_report val (report ∷ rest) h =
    with_next val (hid_input_report_write report (record h { report_queue = report ∷ rest }))

-- The byte of the register at the offset.
pub byte_at : Hid → ℕ
byte_at h =
    if h.cur_reg == 0x01
    then byte_of h.io_offset h.hid_descriptor
    else if h.cur_reg == 0x02
    then byte_of h.io_offset h.report_desc
    else if h.cur_reg == 0x03
    then byte_below h.input_report_size h.io_offset h.input_report
    else if h.cur_reg == 0x05
    then byte_below 1024 h.io_offset h.command_register
    else if h.cur_reg == 0x06
    then byte_below 1024 h.io_offset h.data_register
    else 0

pub dev_read : Bool → Hid → Option (ℕ × Hid)
dev_read m_ack h =
    if (h.cur_reg == 0x03) && leb h.input_report_size (h.io_offset + 1)
    then next_report (byte_at h) (popped h.report_queue) h
    else some (byte_at h, record h { io_offset = u16 (h.io_offset + 1) })

-- A byte of one of the three buffers that a transfer writes.
put_below : ℕ → ℕ → (ℕ → ℕ) → ℕ → ℕ
put_below i v bytes = if ltb i 1024 then put_byte i v bytes else bytes

pub write_buffer : ℕ → Hid → Hid
write_buffer val h =
    let place = h.io_offset - 2 in
    let next = u16 (h.io_offset + 1) in
    if h.cur_reg == 0x05
    then record h {
      command_register = put_below place val h.command_register;
      io_offset = next;
      last_event = WriteEvent.command;
    }
    else if h.cur_reg == 0x06
    then record h {
      data_register = put_below place val h.data_register;
      io_offset = next;
      last_event = WriteEvent.data_write;
    }
    else if h.cur_reg == 0x07
    then record h {
      output_report = put_below place val h.output_report;
      io_offset = next;
      last_event = WriteEvent.output;
    }
    else h

-- The first two bytes of a transfer are the number of a register.
pub dev_write : ℕ → Hid → Hid
dev_write val h =
    if h.io_offset == 0
    then record h { cur_reg = val; io_offset = 1 }
    else if h.io_offset == 1
    then record h { cur_reg = bit_or h.cur_reg (val * 2 ^ 8); io_offset = 2 }
    else write_buffer val h
