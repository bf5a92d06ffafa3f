-- ===== src/Devices/Hid/Tests.antt =====
-- A keyboard that is opened and gets a key.
use riscv_em.Base.{ℕ, ◌≡◌, ◌≤◌, Bool, [], ◌∷◌, some, length}
use riscv_em.Devices.Hid.{Hid, start_transmit, dev_read, dev_write}
use riscv_em.Devices.Hid.Keyboard.{init, Keys, update}
use riscv_em.Devices.Hid.Keyboard.Queue.{Session, Session-Fits}

abbrev plugged : Hid
plugged = init (λ i. 0) (7 ∷ 8 ∷ 9 ∷ [])

-- The register number 3 has been written.
abbrev asked : Hid
asked = dev_write 0 (dev_write 3 (start_transmit plugged))

Session-Fits_example :
    (length asked.report_queue ≤ 64)
    × ((modifiers : ℕ) (keys : Keys) (rollover : Bool)
        → (h' : Hid) × (update modifiers keys rollover asked ≡ some h'))
    × ((m_ack : Bool) → (p : ℕ × Hid) × (dev_read m_ack asked ≡ some p))
Session-Fits_example = Session-Fits asked (
    Session.received 0
      (Session.received 3 (Session.opened (Session.begun (λ i. 0) (7 ∷ 8 ∷ 9 ∷ [])))))
