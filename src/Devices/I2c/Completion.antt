-- ===== src/Devices/I2c/Completion.antt =====
-- A command of the I2C controller is done after a hundred ticks of the machine.
use riscv_em.Base.{
  if_true, ℕ, zero, suc, ◌+◌, ◌/◌, ◌^◌, ◌<◌, ◌≡◌, refl, ap, ◌∙◌, bit_and, nonzero, u8, ltb, ◌==◌,
  if◌then◌else◌, Bool, true, false, not, ◌&&◌, Option, none, some, arith,
}
use riscv_em.Base.Fields.{field, field-set_field_self, field-set_field_above}
use riscv_em.Devices.I2c.{
  Slave, I2c, cr_set, set_sr, cr_sta, cr_wr, cr_rd, sr_if, sr_tip, transaction_started,
  raise_interrupt, acknowledge, selected, find_slave, answered, wrote, got, send_start,
  send_address, send_data, transfer_write, receive_data, transfer_read, send_stop, complete,
  execute_command, tick, write_cr,
}

module _ {S : Type 0} where
  -- So many ticks.
  unfoldable pub ticks : ℕ → I2c S → I2c S
  ticks zero c = c
  ticks (suc n) c = ticks n (tick c)

  either-cr :
      (b : Bool) (x y : I2c S) (cr : ℕ) → x.cr ≡ cr → y.cr ≡ cr → (if b then x else y).cr ≡ cr
  either-cr true x y cr ex ey = ex
  either-cr false x y cr ex ey = ey

  answered-cr : (c : I2c S) (o : Option (ℕ × Slave S)) → (answered c o).cr ≡ c.cr
  unfolding answered
  answered-cr c none = refl
  answered-cr c (some p) = refl

  wrote-cr : (c : I2c S) (o : Option (Slave S)) → (wrote c o).cr ≡ c.cr
  unfolding wrote
  wrote-cr c none = refl
  wrote-cr c (some dev) = refl

  got-cr : (c : I2c S) (o : Option (Slave S)) → (got c o).cr ≡ c.cr
  unfolding got
  got-cr c none = refl
  got-cr c (some dev) = refl

  send_start-cr : (c : I2c S) → (send_start c).cr ≡ c.cr
  unfolding send_start
  send_start-cr c = ground arith

  transfer_write-cr : (c : I2c S) → (transfer_write c).cr ≡ c.cr
  unfolding transfer_write send_address send_data
  transfer_write-cr c =
      either-cr (cr_set cr_wr c.cr)
        (if c.current_address == 0xffff then send_address c else send_data c) c c.cr
        (either-cr (c.current_address == 0xffff) (send_address c) (send_data c) c.cr
          (answered-cr c (find_slave (c.txr / 2) 0 c.slaves)) (wrote-cr c (selected c)))
        refl

  transfer_read-cr : (c : I2c S) → (transfer_read c).cr ≡ c.cr
  unfolding transfer_read receive_data
  transfer_read-cr c =
      either-cr (cr_set cr_rd c.cr) (receive_data c) c c.cr (got-cr c (selected c)) refl

  send_stop-cr : (c : I2c S) → (send_stop c).cr ≡ c.cr
  unfolding send_stop
  send_stop-cr c = ground arith

  -- The acknowledgement bit aside, the command stays.
  acknowledge-started :
      (c : I2c S) → transaction_started (acknowledge c).cr ≡ transaction_started c.cr
  unfolding acknowledge
  acknowledge-started c = ground (
    arith,
    field-set_field_above 1 0 0 c.cr 1 4 (omega arith),
    field-set_field_above 1 0 0 c.cr 1 5 (omega arith),
    field-set_field_above 1 0 0 c.cr 1 6 (omega arith),
  )

  -- A transaction that is over shows in the status register.
  unfoldable pub Finished : I2c S → Type 0
  Finished c = (field 1 sr_if c.sr ≡ 1) × (field 1 sr_tip c.sr ≡ 0)

  raise_interrupt-sr : (c : I2c S) → (raise_interrupt c).sr ≡ c.sr
  unfolding raise_interrupt
  raise_interrupt-sr c = ground arith

  complete-Finished : (c : I2c S) → transaction_started c.cr ≡ true → Finished (complete c)
  unfolding complete Finished
  complete-Finished c started =
      let sr = set_sr sr_if 1 (set_sr sr_tip 0 c.sr) in
      let kept = raise_interrupt-sr (record c { sr = sr }) in
      rw (started, kept)
        (
          field-set_field_self 1 0 1 (set_sr sr_tip 0 c.sr),
          field-set_field_above 1 0 1 (set_sr sr_tip 0 c.sr) 1 1 (omega arith)
              ∙ field-set_field_self 1 1 0 c.sr,
        )

  execute_command-Finished :
      (c : I2c S) → transaction_started c.cr ≡ true → Finished (execute_command c)
  unfolding execute_command
  execute_command-Finished c started =
      let a = acknowledge c in
      let s = send_start a in
      let w = transfer_write s in
      let r = transfer_read w in
      let same : (send_stop r).cr ≡ a.cr =
        send_stop-cr r ∙ transfer_read-cr w ∙ transfer_write-cr s ∙ send_start-cr a in
      let begun : transaction_started a.cr ≡ true = acknowledge-started c ∙ started in
      let runs : (not (cr_set cr_sta a.cr) && not (transaction_started a.cr)) ≡ false =
        ground (arith, begun) in
      rw runs (complete-Finished (send_stop r) (ap transaction_started same ∙ begun))

  -- A controller in the middle of its delay.
  abbrev at_delay : ℕ → I2c S → I2c S
  at_delay n c = record c { delay = n; op_active = true }

  tick-waits : (n : ℕ) (c : I2c S) → n + 1 < 100 → tick (at_delay n c) ≡ at_delay (n + 1) c
  unfolding tick
  tick-waits n c h =
      let short : ltb (n + 1) 100 ≡ true = ground arith in
      if_true short (at_delay (n + 1) c)
        (record (execute_command (at_delay (n + 1) c)) { op_active = false })

  tick-runs :
      (c : I2c S)
      → tick (at_delay 99 c) ≡ record (execute_command (at_delay 100 c)) { op_active = false }
  unfolding tick
  tick-runs c = refl

  delayed :
      (left n : ℕ) (c : I2c S)
      → left + n ≡ 99
      → ticks (suc left) (at_delay n c)
        ≡ record (execute_command (at_delay 100 c)) { op_active = false }
  unfolding ticks
  delayed zero n c e =
      let last : n ≡ 99 = omega arith in ap (λ k. tick (at_delay k c)) last ∙ tick-runs c
  delayed (suc left) n c e =
      ap (ticks (suc left)) (tick-waits n c (omega arith)) ∙ delayed left (n + 1) c (omega arith)

  -- A command that transfers something, written to a controller that is switched on, is done after
  -- a hundred ticks: the transfer flag is down, the interrupt flag is up, and no command is left.
  pub write_cr-Finished :
      (val : ℕ) (c : I2c S)
      → nonzero (bit_and c.ctr (2 ^ 7)) ≡ true
      → transaction_started (u8 val) ≡ true
      → Finished (ticks 100 (write_cr val c)) × ((ticks 100 (write_cr val c)).op_active ≡ false)
  unfolding write_cr Finished
  write_cr-Finished val c on started =
      let opened = record c {
        cr = u8 val;
        op_active = true;
        delay = 0;
        sr = set_sr sr_if 0 (set_sr sr_tip 1 c.sr);
      } in
      let last = execute_command (at_delay 100 opened) in
      let same : ticks 100 (write_cr val c) ≡ record last { op_active = false } =
        ap (ticks 100) (if_true on opened c) ∙ delayed 99 0 opened refl in
      rw same (execute_command-Finished (at_delay 100 opened) started, refl)
