-- ===== src/Devices/Hid/Keyboard/Queue.antt =====
-- The queue of reports of the keyboard, in every state it can reach.
use riscv_em.Base.{
  ℕ, u16, ◌+◌, ◌≤◌, ◌≡◌, refl, sym, subst, ap, ◌∙◌, leb, ◌==◌, if◌then◌else◌, Bool, true, false,
  ◌&&◌, not, List, [], ◌∷◌, ◌++◌, Option, some, length, arith, bit_and, Bool-cases, inl, inr,
}
use riscv_em.Devices.Hid.{
  Hid, tell, hid_init, hid_input_report_write, start_transmit, stop_transmit, dev_read, dev_write,
  next_report, byte_at, popped, with_next, write_buffer, handle_event, ask, put_byte, message,
  WriteEvent,
}
use riscv_em.Devices.Hid.Keyboard.{
  init, Keys, report_of, alerted, show_first, alert, update, keyboard_events,
  hid_event_command_register_write, hid_event_data_register_write, hid_event_output_report_write,
}

-- Reports of eight bytes.
pub data Reports : List (List ℕ) → Type 0 where
  empty : Reports []
  queued :
      {report : List ℕ} {rest : List (List ℕ)}
      → length report ≡ 8
      → Reports rest
      → Reports (report ∷ rest)

-- The reports fit in the array, and there are at most 64.
pub record Ready (h : Hid) : Type 0 where
  pub size : h.input_report_size ≡ 10
  pub reports : Reports h.report_queue
  pub count : length h.report_queue ≤ 64

report_of-length :
    (modifiers : ℕ) (keys : Keys) (rollover : Bool) → length (report_of modifiers keys rollover) ≡ 8
unfolding report_of
report_of-length modifiers keys true = refl
report_of-length modifiers keys false = refl

write-fits :
    (report : List ℕ) (h : Hid)
    → length report ≡ 8
    → h.input_report_size ≡ 10
    → hid_input_report_write report h
      ≡ some (record h { input_report = message report h.input_report })
unfolding hid_input_report_write
write-fits report h long size = rw (long, size) refl

Reports-append :
    (queue : List (List ℕ)) (report : List ℕ)
    → Reports queue
    → length report ≡ 8
    → Reports (queue ++ (report ∷ []))
Reports-append [] report all long = Reports.queued long Reports.empty
Reports-append (_ ∷ rest) report (Reports.queued first all) long =
    Reports.queued first (Reports-append rest report all long)

length-append :
    (queue : List (List ℕ)) (report : List ℕ) → length (queue ++ (report ∷ [])) ≡ length queue + 1
length-append [] report = refl
length-append (_ ∷ rest) report = grind (arith, length-append rest report)

popped-Reports : (queue : List (List ℕ)) → Reports queue → Reports (popped queue)
unfolding popped
popped-Reports [] all = Reports.empty
popped-Reports (_ ∷ rest) (Reports.queued first all) = all

popped-length : (queue : List (List ℕ)) → length (popped queue) ≤ length queue
unfolding popped
popped-length [] = omega arith
popped-length (_ ∷ rest) = ground arith

-- A read at the end of a report.
next_report-Ready :
    (val : ℕ) (queue : List (List ℕ)) (h : Hid)
    → h.input_report_size ≡ 10
    → Reports queue
    → length queue ≤ 64
    → (p : ℕ × Hid) × (next_report val queue h ≡ some p) × Ready p.1
unfolding next_report tell with_next
next_report-Ready val [] h size all count = (
  (val, record (tell false (record h { report_queue = [] })) { io_offset = u16 (h.io_offset + 1) }),
  refl,
  record { size = size; reports = Reports.empty; count = count },
)
next_report-Ready val (report ∷ rest) h size (Reports.queued long all) count =
    let h' = record h { report_queue = report ∷ rest } in
    (
      (val, tell true (record h' { input_report = message report h.input_report })),
      ap (with_next val) (write-fits report h' long size),
      record { size = size; reports = Reports.queued long all; count = count },
    )

dev_read-Ready :
    (m_ack : Bool) (h : Hid) → Ready h → (p : ℕ × Hid) × (dev_read m_ack h ≡ some p) × Ready p.1
unfolding dev_read
dev_read-Ready m_ack h ready =
    let last = (h.cur_reg == 0x03) && leb h.input_report_size (h.io_offset + 1) in
    elim (Bool-cases last) [
      | inl at_end ↦
          let next =
            next_report-Ready (byte_at h) (popped h.report_queue) h ready.size
              (popped-Reports h.report_queue ready.reports)
              (omega (arith, popped-length h.report_queue, ready.count)) in
          (next.0, rw at_end next.1, next.2)
      | inr inside ↦ (
        (byte_at h, record h { io_offset = u16 (h.io_offset + 1) }),
        rw inside refl,
        record { size = ready.size; reports = ready.reports; count = ready.count },
      )
    ]

kept :
    {h : Hid} (h' : Hid)
    → h'.input_report_size ≡ h.input_report_size
    → h'.report_queue ≡ h.report_queue
    → Ready h
    → Ready h'
kept h' size queue ready = record {
  size = size ∙ ready.size;
  reports = subst Reports (sym queue) ready.reports;
  count = subst (λ q. length q ≤ 64) (sym queue) ready.count;
}

either-Ready : (b : Bool) (x y : Hid) → Ready x → Ready y → Ready (if b then x else y)
either-Ready true x y rx ry = rx
either-Ready false x y rx ry = ry

alert-Ready : (h : Hid) → Ready h → Ready (alert h)
unfolding alert tell
alert-Ready h ready =
    either-Ready (not h.is_transmitting) (tell true h) h (kept (tell true h) refl refl ready) ready

show_first-Ready :
    (queue : List (List ℕ)) (report : List ℕ) (h : Hid)
    → h.input_report_size ≡ 10
    → Reports queue
    → length queue + 1 ≤ 64
    → length report ≡ 8
    → (h' : Hid) × (show_first queue report h ≡ some h') × Ready h'
unfolding show_first
show_first-Ready [] report h size all room long =
    let h' = record h { report_queue = report ∷ [] } in
    (
      record h' { input_report = message report h.input_report },
      write-fits report h' long size,
      record { size = size; reports = Reports.queued long Reports.empty; count = omega arith },
    )
show_first-Ready (first ∷ rest) report h size all room long = (
  record h { report_queue = (first ∷ rest) ++ (report ∷ []) },
  refl,
  record {
    size = size;
    reports = Reports-append (first ∷ rest) report all long;
    count = omega (arith, length-append (first ∷ rest) report, room);
  },
)

update-Ready :
    (modifiers : ℕ) (keys : Keys) (rollover : Bool) (h : Hid)
    → Ready h
    → (h' : Hid) × (update modifiers keys rollover h ≡ some h') × Ready h'
unfolding update alerted
update-Ready modifiers keys rollover h ready =
    let report = report_of modifiers keys rollover in
    elim (Bool-cases (leb 64 (length h.report_queue))) [
      | inl full ↦ (h, rw full refl, ready)
      | inr free ↦
          let room : length h.report_queue + 1 ≤ 64 = ground (arith, free) in
          let shown =
            show_first-Ready h.report_queue report h ready.size ready.reports room
              (report_of-length modifiers keys rollover) in
          (alert shown.0, rw free (ap alerted shown.1), alert-Ready shown.0 shown.2)
    ]

hid_event_command_register_write-Ready :
    (h : Hid) → Ready h → Ready (hid_event_command_register_write h)
unfolding hid_event_command_register_write tell
hid_event_command_register_write-Ready h ready =
    let cleared = record h {
      io_offset = 0;
      input_report = put_byte 1 0 (put_byte 0 0 h.input_report);
      report_queue = [];
    } in
    either-Ready (bit_and (h.command_register 1) 0x0f == 0x01) (tell true cleared) h
      (record { size = ready.size; reports = Reports.empty; count = omega arith }) ready

handle_event-Ready :
    (event : WriteEvent) (h : Hid) → Ready h → Ready (handle_event keyboard_events event h)
unfolding handle_event keyboard_events hid_event_data_register_write hid_event_output_report_write
handle_event-Ready WriteEvent.no_event h ready = ready
handle_event-Ready WriteEvent.command h ready = hid_event_command_register_write-Ready h ready
handle_event-Ready WriteEvent.data_write h ready = ready
handle_event-Ready WriteEvent.output h ready = ready

ask-Ready : (queue : List (List ℕ)) (h : Hid) → Ready h → Ready (ask queue h)
unfolding ask tell
ask-Ready [] h ready = ready
ask-Ready (report ∷ rest) h ready = kept (tell true h) refl refl ready

stop_transmit-Ready : (h : Hid) → Ready h → Ready (stop_transmit keyboard_events h)
unfolding stop_transmit
stop_transmit-Ready h ready =
    let stopped = record h { is_transmitting = false; cur_reg = 0x03 } in
    let handled = handle_event keyboard_events h.last_event stopped in
    ask-Ready handled.report_queue handled
      (handle_event-Ready h.last_event stopped (kept stopped refl refl ready))

start_transmit-Ready : (h : Hid) → Ready h → Ready (start_transmit h)
unfolding start_transmit
start_transmit-Ready h ready = kept (start_transmit h) refl refl ready

dev_write-Ready : (val : ℕ) (h : Hid) → Ready h → Ready (dev_write val h)
unfolding dev_write write_buffer
dev_write-Ready val h ready = kept (dev_write val h) (ground arith) (ground arith) ready

init-Ready : (junk : ℕ → ℕ) (report_desc : List ℕ) → Ready (init junk report_desc)
unfolding init hid_init
init-Ready junk report_desc = record { size = refl; reports = Reports.empty; count = omega arith }

-- The states of a keyboard: from its start, by keys and by the transfers of the controller.
pub data Session : Hid → Type 0 where
  begun : (junk : ℕ → ℕ) (report_desc : List ℕ) → Session (init junk report_desc)
  typed :
      (modifiers : ℕ) (keys : Keys) (rollover : Bool) {h h' : Hid}
      → Session h
      → update modifiers keys rollover h ≡ some h'
      → Session h'
  opened : {h : Hid} → Session h → Session (start_transmit h)
  closed : {h : Hid} → Session h → Session (stop_transmit keyboard_events h)
  received : (val : ℕ) {h : Hid} → Session h → Session (dev_write val h)
  sent :
      (m_ack : Bool) {h h' : Hid} (val : ℕ)
      → Session h
      → dev_read m_ack h ≡ some (val, h')
      → Session h'

same_update : {h h' : Hid} {o : Option Hid} → o ≡ some h → o ≡ some h' → h ≡ h'
same_update e e' = cc

same_read : {p p' : ℕ × Hid} {o : Option (ℕ × Hid)} → o ≡ some p → o ≡ some p' → p ≡ p'
same_read e e' = cc

Session-Ready : (h : Hid) → Session h → Ready h
Session-Ready _ (Session.begun junk report_desc) = init-Ready junk report_desc
Session-Ready _ (Session.typed modifiers keys rollover {h} {h'} before e) =
    let next = update-Ready modifiers keys rollover h (Session-Ready h before) in
    subst Ready (same_update next.1 e) next.2
Session-Ready _ (Session.opened {h} before) = start_transmit-Ready h (Session-Ready h before)
Session-Ready _ (Session.closed {h} before) = stop_transmit-Ready h (Session-Ready h before)
Session-Ready _ (Session.received val {h} before) = dev_write-Ready val h (Session-Ready h before)
Session-Ready _ (Session.sent m_ack {h} {h'} val before e) =
    let next = dev_read-Ready m_ack h (Session-Ready h before) in
    subst Ready (ap (λ p. p.1) (same_read next.1 e)) next.2

-- In every state that a keyboard can reach, at most 64 reports of eight bytes wait, and neither a
-- new report nor a read of any byte writes past the end of the array for the input report.
pub Session-Fits :
    (h : Hid)
    → Session h
    → (length h.report_queue ≤ 64)
      × ((modifiers : ℕ) (keys : Keys) (rollover : Bool)
          → (h' : Hid) × (update modifiers keys rollover h ≡ some h'))
      × ((m_ack : Bool) → (p : ℕ × Hid) × (dev_read m_ack h ≡ some p))
Session-Fits h session =
    let ready = Session-Ready h session in
    (
      ready.count,
      (λ modifiers keys rollover.
          let next = update-Ready modifiers keys rollover h ready in (next.0, next.1)),
      (λ m_ack. let next = dev_read-Ready m_ack h ready in (next.0, next.1)),
    )
