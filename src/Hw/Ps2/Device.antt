-- ===== src/Hw/Ps2/Device.antt =====
-- A controller that takes every command at once, and what the loops do with it.
use limix.Base.{
  ℕ, zero, suc, ◌<◌, ◌≡◌, refl, ap, ◌∙◌, arith, true, false, bit_and, List, [], ◌∷◌, ◌++◌, length,
  ◌≢◌,
}
use limix.Base.Run.{ok}
use limix.Hw.Ports.{Ports}
use limix.Hw.Ps2.{
  ps2_command_read_ccb, ps2_command_write_ccb, ps2_command_disable_port1, ps2_command_disable_port2,
  ps2_command_enable_port2, ps2_command_test_controller, ps2_command_test_port1,
  ps2_command_test_port2, ps2_data_available, ps2_can_send, ps2_read_data, ps2_send_command,
  ps2_send_data, wait_data, wait_send, clear_data, ask, write_config,
}

-- The bytes that wait to be read, oldest first, and the configuration byte. Commands that ask put
-- their answer behind these, and the others leave them alone; the status shows whether a byte waits.
-- No command but the self-test touches the bits for interrupts and translation.
pub record Controller (P : Ports) : Type 1 where
  pub output : P.State → List ℕ
  pub ccb : P.State → ℕ
  pub status : P.State → ℕ
  pub self_test : ℕ
  pub port1_test : ℕ
  pub port2_test : ℕ
  pub read_status : (s : P.State) → P.inb 0x64 s ≡ (status s, s)
  pub status_none : (s : P.State) → output s ≡ [] → bit_and (status s) 1 ≡ 0
  pub status_some :
      (x : ℕ) (xs : List ℕ) (s : P.State) → output s ≡ x ∷ xs → bit_and (status s) 1 ≡ 1
  pub status_free : (s : P.State) → bit_and (status s) 2 ≡ 0
  pub read_output :
      (x : ℕ) (xs : List ℕ) (s : P.State)
      → output s ≡ x ∷ xs
      → ((P.inb 0x60 s).0 ≡ x) × (output (P.inb 0x60 s).1 ≡ xs) × (ccb (P.inb 0x60 s).1 ≡ ccb s)
  pub ccb_byte : (s : P.State) → ccb s < 256
  pub waits : (s : P.State) → (output (P.inb 0x80 s).1 ≡ output s) × (ccb (P.inb 0x80 s).1 ≡ ccb s)
  pub disables1 : (s : P.State) → output (P.outb 0x64 ps2_command_disable_port1 s) ≡ output s
  pub disables2 : (s : P.State) → output (P.outb 0x64 ps2_command_disable_port2 s) ≡ output s
  pub enables2 : (s : P.State) → output (P.outb 0x64 ps2_command_enable_port2 s) ≡ output s
  pub tells_ccb :
      (s : P.State) → output (P.outb 0x64 ps2_command_read_ccb s) ≡ output s ++ ccb s ∷ []
  pub tests :
      (s : P.State)
      → output (P.outb 0x64 ps2_command_test_controller s) ≡ output s ++ self_test ∷ []
  pub tests1 :
      (s : P.State) → output (P.outb 0x64 ps2_command_test_port1 s) ≡ output s ++ port1_test ∷ []
  pub tests2 :
      (s : P.State) → output (P.outb 0x64 ps2_command_test_port2 s) ≡ output s ++ port2_test ∷ []
  pub keeps :
      (command : ℕ) (s : P.State)
      → command ≢ ps2_command_test_controller
      → bit_and (ccb (P.outb 0x64 command s)) 0x43 ≡ bit_and (ccb s) 0x43
  pub writes_ccb :
      (v : ℕ) (s : P.State)
      → v < 256
      → (output (P.outb 0x60 v (P.outb 0x64 ps2_command_write_ccb s)) ≡ output s)
        × (ccb (P.outb 0x60 v (P.outb 0x64 ps2_command_write_ccb s)) ≡ v)

module _ (P : Ports) (C : Controller P) where
  available_none : (s : P.State) → C.output s ≡ [] → ps2_data_available P s ≡ (false, s)
  unfolding ps2_data_available
  available_none s e = rw (C.read_status s, C.status_none s e) refl

  available_some :
      (x : ℕ) (xs : List ℕ) (s : P.State) → C.output s ≡ x ∷ xs → ps2_data_available P s ≡ (true, s)
  unfolding ps2_data_available
  available_some x xs s e = rw (C.read_status s, C.status_some x xs s e) refl

  can_send : (s : P.State) → ps2_can_send P s ≡ (true, s)
  unfolding ps2_can_send
  can_send s = rw (C.read_status s, C.status_free s) refl

  pub read_none : (s : P.State) → C.output s ≡ [] → ps2_read_data P s ≡ (0, s)
  unfolding ps2_read_data
  read_none s e = rw (available_none s e) refl

  read_some :
      (x : ℕ) (xs : List ℕ) (s : P.State) → C.output s ≡ x ∷ xs → ps2_read_data P s ≡ P.inb 0x60 s
  unfolding ps2_read_data
  read_some x xs s e = rw (available_some x xs s e) refl

  wait_ends :
      (fuel x : ℕ) (xs : List ℕ) (s : P.State)
      → C.output s ≡ x ∷ xs
      → wait_data P (suc fuel) s ≡ ok s
  unfolding wait_data
  wait_ends fuel x xs s e = rw (available_some x xs s e) refl

  wait_send_ends : (fuel : ℕ) (s : P.State) → wait_send P (suc fuel) s ≡ ok s
  unfolding wait_send
  wait_send_ends fuel s = rw (can_send s) refl

  -- An answer to a command that nothing else waits in front of.
  pub ask_answer :
      (fuel x command : ℕ) (s : P.State)
      → C.output (P.outb 0x64 command s) ≡ x ∷ []
      → (s1 : P.State) × (ask P (suc fuel) command s ≡ ok (x, s1))
        × (C.output s1 ≡ [])
        × (C.ccb s1 ≡ C.ccb (P.outb 0x64 command s))
  unfolding ask ps2_send_command
  ask_answer fuel x command s e =
      let asked = P.outb 0x64 command s in
      let (first, none_left, same) = C.read_output x [] asked e in
      (
        (P.inb 0x60 asked).1,
        rw (wait_ends fuel x [] asked e, read_some x [] asked e)
            (ap (λ (y : ℕ). ok (y, (P.inb 0x60 asked).1)) first),
        none_left,
        same,
      )

  pub write_config_lem :
      (fuel ccb : ℕ) (s : P.State)
      → bit_and ccb 0xbc < 256
      → (s1 : P.State) × (write_config P (suc fuel) ccb s ≡ ok s1)
        × (C.output s1 ≡ C.output s)
        × (C.ccb s1 ≡ bit_and ccb 0xbc)
  unfolding write_config ps2_send_command ps2_send_data
  write_config_lem fuel ccb s small =
      let (out, now) = C.writes_ccb (bit_and ccb 0xbc) s small in
      (
        P.outb 0x60 (bit_and ccb 0xbc) (P.outb 0x64 ps2_command_write_ccb s),
        rw
            (
              wait_send_ends fuel (P.outb 0x64 ps2_command_write_ccb s),
              can_send (P.outb 0x64 ps2_command_write_ccb s),
            )
            refl,
        out,
        now,
      )

  pub clear_data_lem :
      (xs : List ℕ) (fuel : ℕ) (s : P.State)
      → C.output s ≡ xs
      → length xs < fuel
      → (s1 : P.State) × (clear_data P fuel s ≡ ok s1) × (C.output s1 ≡ []) × (C.ccb s1 ≡ C.ccb s)
  unfolding clear_data
  clear_data_lem xs zero s e l = absurd (omega arith)
  clear_data_lem [] (suc fuel) s e l = (s, rw (available_none s e) refl, e, refl)
  clear_data_lem (x ∷ xs) (suc fuel) s e l =
      let (_, left, same) = C.read_output x xs s e in
      let (s1, run, empty, kept) = clear_data_lem xs fuel (P.inb 0x60 s).1 left (omega arith) in
      (s1, rw (available_some x xs s e, read_some x xs s e) run, empty, kept ∙ same)
