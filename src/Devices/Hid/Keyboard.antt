-- ===== src/Devices/Hid/Keyboard.antt =====
-- src/devices/hid/hid_keyboard.cpp: the keyboard, a HID slave.
pub mod Queue
use riscv_em.Base.{
  ℕ, ◌+◌, ◌%◌, ◌/◌, ◌^◌, bit_and, u8, leb, ◌==◌, if◌then◌else◌, Bool, true, false, not, List, [],
  ◌∷◌, ◌++◌, Option, none, some, get_elem?, length,
}
use riscv_em.Devices.Hid.{Hid, descriptor, hid_init, Events, put_byte, tell, hid_input_report_write}

-- The constructor. The bytes of the report descriptor are made elsewhere.
pub init : (ℕ → ℕ) → List ℕ → Hid
init junk report_desc = record (hid_init junk report_desc 10) {
  hid_descriptor = descriptor (length report_desc) 10;
}

pub hid_event_output_report_write : Hid → Hid
hid_event_output_report_write h = h

pub hid_event_data_register_write : Hid → Hid
hid_event_data_register_write h = h

-- The power command prints a line and changes nothing.
pub hid_event_command_register_write : Hid → Hid
hid_event_command_register_write h =
    let opcode = bit_and (h.command_register 1) 0x0f in
    let cleared = record h {
      io_offset = 0;
      input_report = put_byte 1 0 (put_byte 0 0 h.input_report);
      report_queue = [];
    } in
    if opcode == 0x01 then tell true cleared else h

pub keyboard_events : Events
keyboard_events = record {
  hid_event_command_register_write = hid_event_command_register_write;
  hid_event_data_register_write = hid_event_data_register_write;
  hid_event_output_report_write = hid_event_output_report_write;
}

-- The six keys of a report.
pub record Keys : Type 0 where
  pub key_1 : ℕ
  pub key_2 : ℕ
  pub key_3 : ℕ
  pub key_4 : ℕ
  pub key_5 : ℕ
  pub key_6 : ℕ

-- A report of the keys, or of too many keys.
pub report_of : ℕ → Keys → Bool → List ℕ
report_of modifiers keys rollover =
    if rollover
    then modifiers ∷ 0 ∷ 1 ∷ 1 ∷ 1 ∷ 1 ∷ 1 ∷ 1 ∷ []
    else modifiers ∷ 0 ∷ keys.key_1 ∷ keys.key_2 ∷ keys.key_3 ∷ keys.key_4 ∷ keys.key_5 ∷ keys.key_6
      ∷ []

-- The first report of a queue is shown at once.
pub show_first : List (List ℕ) → List ℕ → Hid → Option Hid
show_first [] report h = hid_input_report_write report (record h { report_queue = report ∷ [] })
show_first (first ∷ rest) report h =
    some (record h { report_queue = (first ∷ rest) ++ (report ∷ []) })

-- A device that is not in a transfer asks for an interrupt.
pub alert : Hid → Hid
alert h = if not h.is_transmitting then tell true h else h

pub alerted : Option Hid → Option Hid
alerted none = none
alerted (some h) = some (alert h)

pub update : ℕ → Keys → Bool → Hid → Option Hid
update modifiers keys rollover h =
    if leb 64 (length h.report_queue)
    then some h
    else alerted (show_first h.report_queue (report_of modifiers keys rollover) h)
