-- ===== src/Devices/I2c/Inv.antt =====
-- The interrupt line and the selected slave of the I2C controller, in every state it can reach.
use riscv_em.Base.{
  if_true, if_false, ℕ, suc, ◌+◌, ◌/◌, ◌≡◌, refl, sym, ap, ◌∙◌, bit_and, nonzero, u8, ltb, sub64,
  ◌^◌, ◌==◌, if◌then◌else◌, Bool, true, false, not, ◌&&◌, Bool-cases, inl, inr, List, [], ◌∷◌,
  Option, none, some, get_elem?, arith,
}
use riscv_em.Base.Fields.{set_field}
use riscv_em.Devices.I2c.{
  Slave, I2c, init, raise_interrupt, lower_interrupt, acknowledge, selected, send_start, find_slave,
  send_address, send_data, receive_data, cr_set, set_sr, cr_iack, cr_sta, cr_wr, cr_rd, cr_sto,
  sr_if, sr_busy, answered, wrote, got, state_after_stop, transaction_started, sr_tip,
  transfer_write, transfer_read, send_stop, complete, execute_command, tick, write_ctr, write_cr,
  write,
}

-- The level that the interrupt controller was told last.
unfoldable pub last_told : List Bool → Bool
last_told [] = false
last_told (level ∷ earlier) = level

module _ {S : Type 0} where
  -- The line is what was told, and a selected slave is there.
  pub record Inv (c : I2c S) : Type 0 where
    pub line : c.int_line ≡ last_told c.told
    pub present : c.device_selected ≡ true → (dev : Slave S) × (selected c ≡ some dev)

  init-Inv : (start : ℕ) (slaves : List (Slave S)) (state : S) → Inv (init start slaves state)
  unfolding init last_told
  init-Inv start slaves state = record { line = refl; present = λ e. absurd cc }

  either-Inv : (b : Bool) (x y : I2c S) → Inv x → Inv y → Inv (if b then x else y)
  either-Inv true x y ix iy = ix
  either-Inv false x y ix iy = iy

  raise_interrupt-Inv : (c : I2c S) → Inv c → Inv (raise_interrupt c)
  unfolding raise_interrupt last_told selected
  raise_interrupt-Inv c inv =
      either-Inv (nonzero (bit_and c.ctr 0x40) && not c.int_line)
        (record c { int_line = true; told = true ∷ c.told }) c
        (record { line = refl; present = inv.present }) inv

  lower_interrupt-Inv : (c : I2c S) → Inv c → Inv (lower_interrupt c)
  unfolding lower_interrupt last_told selected
  lower_interrupt-Inv c inv =
      either-Inv c.int_line (record c { int_line = false; told = false ∷ c.told }) c
        (record { line = refl; present = inv.present }) inv

  acknowledge-Inv : (c : I2c S) → Inv c → Inv (acknowledge c)
  unfolding acknowledge selected
  acknowledge-Inv c inv =
      let cleared = record c { sr = set_sr sr_if 0 c.sr } in
      let lowered =
        lower_interrupt-Inv cleared (record { line = inv.line; present = inv.present }) in
      either-Inv (cr_set cr_iack c.cr)
        (record (lower_interrupt cleared) { cr = set_field 1 cr_iack 0 c.cr }) c
        (record { line = lowered.line; present = lowered.present }) inv

  send_start-Inv : (c : I2c S) → Inv c → Inv (send_start c)
  unfolding send_start selected
  send_start-Inv c inv =
      either-Inv (cr_set cr_sta c.cr)
        (record c { sr = set_sr sr_busy 1 c.sr; current_address = 0xffff }) c
        (record { line = inv.line; present = inv.present }) inv

  same_answer :
      (i k : ℕ) (x dev : Slave S)
      → ◌≡◌ {A = Option (ℕ × Slave S)} (some (i, x)) (some (k, dev))
      → (i ≡ k) × (x ≡ dev)
  same_answer i k x dev e = (
    ap (λ (o : Option (ℕ × Slave S)). elim o [ none ↦ i | some p ↦ p.0 ]) e,
    ap (λ (o : Option (ℕ × Slave S)). elim o [ none ↦ x | some p ↦ p.1 ]) e,
  )

  -- A slave that is found stands at its place.
  find_slave-place :
      (addr i : ℕ) (l whole : List (Slave S)) (k : ℕ) (dev : Slave S)
      → ((j : ℕ) → get_elem? whole (i + j) ≡ get_elem? l j)
      → find_slave addr i l ≡ some (k, dev)
      → get_elem? whole k ≡ some dev
  unfolding find_slave
  find_slave-place addr i [] whole k dev at e = absurd cc
  find_slave-place addr i (x ∷ rest) whole k dev at e =
      let later =
        find_slave-place addr (i + 1) rest whole k dev
          (λ j. ap (get_elem? whole) (omega arith) ∙ at (suc j)) in
      elim (Bool-cases (x.address == addr)) [
        | inl here ↦
            let first : (i ≡ k) × (x ≡ dev) =
              same_answer i k x dev
                (sym (if_true here (some (i, x)) (find_slave addr (i + 1) rest)) ∙ e) in
            ap (get_elem? whole) (sym first.0 ∙ omega arith) ∙ at 0 ∙ ap some first.1
        | inr other ↦ later (sym (if_false other (some (i, x)) (find_slave addr (i + 1) rest)) ∙ e)
      ]

  found-Inv :
      (c : I2c S) (o : Option (ℕ × Slave S))
      → Inv c
      → ((k : ℕ) (dev : Slave S) → o ≡ some (k, dev) → get_elem? c.slaves k ≡ some dev)
      → Inv (answered c o)
  unfolding answered selected
  found-Inv c none inv place = record { line = inv.line; present = λ e. absurd cc }
  found-Inv c (some (k, dev)) inv place = record {
    line = inv.line;
    present = λ e. (dev, place k dev refl);
  }

  send_address-Inv : (c : I2c S) → Inv c → Inv (send_address c)
  unfolding send_address
  send_address-Inv c inv = found-Inv c (find_slave (c.txr / 2) 0 c.slaves) inv (λ k dev e.
      find_slave-place (c.txr / 2) 0 c.slaves c.slaves k dev
        (λ j. ap (get_elem? c.slaves) (omega arith)) e)

  wrote-Inv : (c : I2c S) (o : Option (Slave S)) → Inv c → Inv (wrote c o)
  unfolding wrote selected
  wrote-Inv c none inv = record { line = inv.line; present = inv.present }
  wrote-Inv c (some dev) inv = record { line = inv.line; present = inv.present }

  got-Inv : (c : I2c S) (o : Option (Slave S)) → Inv c → Inv (got c o)
  unfolding got selected
  got-Inv c none inv = record { line = inv.line; present = inv.present }
  got-Inv c (some dev) inv = record { line = inv.line; present = inv.present }

  transfer_write-Inv : (c : I2c S) → Inv c → Inv (transfer_write c)
  unfolding transfer_write send_data
  transfer_write-Inv c inv =
      either-Inv (cr_set cr_wr c.cr)
        (if c.current_address == 0xffff then send_address c else send_data c) c
        (either-Inv (c.current_address == 0xffff) (send_address c) (send_data c)
          (send_address-Inv c inv) (wrote-Inv c (selected c) inv))
        inv

  transfer_read-Inv : (c : I2c S) → Inv c → Inv (transfer_read c)
  unfolding transfer_read receive_data
  transfer_read-Inv c inv =
      either-Inv (cr_set cr_rd c.cr) (receive_data c) c (got-Inv c (selected c) inv) inv

  stopped-Inv :
      (c : I2c S) (state : S)
      → Inv c
      → Inv (record c { state = state; device_selected = false; sr = set_sr sr_busy 0 c.sr })
  stopped-Inv c state inv = record { line = inv.line; present = λ e. absurd cc }

  send_stop-Inv : (c : I2c S) → Inv c → Inv (send_stop c)
  unfolding send_stop
  send_stop-Inv c inv =
      either-Inv (cr_set cr_sto c.cr)
        (record c {
          state = state_after_stop c;
          device_selected = false;
          sr = set_sr sr_busy 0 c.sr;
        })
        c (stopped-Inv c (state_after_stop c) inv) inv

  complete-Inv : (c : I2c S) → Inv c → Inv (complete c)
  unfolding complete selected
  complete-Inv c inv =
      let done = record c { sr = set_sr sr_if 1 (set_sr sr_tip 0 c.sr) } in
      either-Inv (transaction_started c.cr) (raise_interrupt done) c
        (raise_interrupt-Inv done (record { line = inv.line; present = inv.present })) inv

  execute_command-Inv : (c : I2c S) → Inv c → Inv (execute_command c)
  unfolding execute_command
  execute_command-Inv c inv =
      let a = acknowledge c in
      let ia = acknowledge-Inv c inv in
      let s = send_start a in
      let w = transfer_write s in
      let r = transfer_read w in
      let ir = transfer_read-Inv w (transfer_write-Inv s (send_start-Inv a ia)) in
      either-Inv (not (cr_set cr_sta a.cr) && not (transaction_started a.cr)) a
        (complete (send_stop r)) ia (complete-Inv (send_stop r) (send_stop-Inv r ir))

  tick-Inv : (c : I2c S) → Inv c → Inv (tick c)
  unfolding tick selected
  tick-Inv c inv =
      let waited = record c { delay = c.delay + 1 } in
      let iw : Inv waited = record { line = inv.line; present = inv.present } in
      let ran = execute_command-Inv waited iw in
      let after = record (execute_command waited) { op_active = false } in
      either-Inv (not c.op_active) c (if ltb waited.delay 100 then waited else after) inv (
        either-Inv (ltb waited.delay 100) waited after iw
          (record { line = ran.line; present = ran.present }))

  write_ctr-Inv : (val : ℕ) (c : I2c S) → Inv c → Inv (write_ctr val c)
  unfolding write_ctr selected
  write_ctr-Inv val c inv =
      let c' = record c { ctr = u8 val } in
      let off = record c' { sr = 0; device_selected = false; current_address = 0xffff } in
      either-Inv (nonzero (bit_and c'.ctr (2 ^ 7))) c' (lower_interrupt off)
        (record { line = inv.line; present = inv.present })
        (lower_interrupt-Inv off (record { line = inv.line; present = λ e. absurd cc }))

  write_cr-Inv : (val : ℕ) (c : I2c S) → Inv c → Inv (write_cr val c)
  unfolding write_cr selected
  write_cr-Inv val c inv =
      either-Inv (nonzero (bit_and c.ctr (2 ^ 7)))
        (record c {
          cr = u8 val;
          op_active = true;
          delay = 0;
          sr = set_sr sr_if 0 (set_sr sr_tip 1 c.sr);
        })
        c (record { line = inv.line; present = inv.present }) inv

  write-Inv : (addr val : ℕ) (c : I2c S) → Inv c → Inv (write addr val c)
  unfolding write selected
  write-Inv addr val c inv =
      let offs = sub64 addr c.start in
      let command = if offs == 16 then write_cr val c else c in
      let sent = record c { txr = u8 val } in
      let reply = if offs == 12 then sent else command in
      let control = if offs == 8 then write_ctr val c else reply in
      let high = record c { prer_hi = u8 val } in
      let scale = if offs == 4 then high else control in
      let low = record c { prer_lo = u8 val } in
      either-Inv (offs == 0) low scale (record { line = inv.line; present = inv.present })
        (either-Inv (offs == 4) high control (record { line = inv.line; present = inv.present })
          (either-Inv (offs == 8) (write_ctr val c) reply (write_ctr-Inv val c inv) (
            either-Inv (offs == 12) sent command (record { line = inv.line; present = inv.present })
              (either-Inv (offs == 16) (write_cr val c) c (write_cr-Inv val c inv) inv))))

  -- The states of a controller: from its start, by register writes and by ticks of the machine.
  pub data Reachable : I2c S → Type 0 where
    started :
        (start : ℕ) (slaves : List (Slave S)) (state : S) → Reachable (init start slaves state)
    written : (addr val : ℕ) {c : I2c S} → Reachable c → Reachable (write addr val c)
    ticked : {c : I2c S} → Reachable c → Reachable (tick c)

  -- In every state that the controller can reach, its line is the level that it told the interrupt
  -- controller last, and a slave that is marked as selected is one of its slaves.
  pub Reachable-Inv : (c : I2c S) → Reachable c → Inv c
  Reachable-Inv _ (Reachable.started start slaves state) = init-Inv start slaves state
  Reachable-Inv _ (Reachable.written addr val {c} before) =
      write-Inv addr val c (Reachable-Inv c before)
  Reachable-Inv _ (Reachable.ticked {c} before) = tick-Inv c (Reachable-Inv c before)
