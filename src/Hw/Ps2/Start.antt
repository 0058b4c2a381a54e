-- ===== src/Hw/Ps2/Start.antt =====
-- ps2_init on a controller that takes every command at once.
use limix.Base.{
  ℕ, suc, ◌<◌, ◌≡◌, refl, ap, ◌∙◌, arith, true, not, ◌&&◌, ◌||◌, ◌==◌, if◌then◌else◌, bit_and, List,
  [], ◌∷◌, ◌++◌, length, ltb, Bool-cases, inl, inr, holds_below, holds_below-lt,
}
use limix.Base.Run.{ok}
use limix.Hw.Ports.{Ports}
use limix.Hw.Ps2.{
  Ps2, ps2_command_read_ccb, ps2_command_disable_port1, ps2_command_disable_port2,
  ps2_command_enable_port2, ps2_command_test_controller, ps2_command_test_port1,
  ps2_command_test_port2, ps2_send_command, check_dual, check_port1, check_port2, init_ports,
  init_controller, ps2_init,
}
use limix.Hw.Ps2.Device.{Controller, read_none, ask_answer, write_config_lem, clear_data_lem}

-- The three bits are cleared in a byte, and nothing is added to it.
cleared_table :
    holds_below 256 (λ c. ltb (bit_and c 0xbc) 256 && bit_and (bit_and c 0xbc) 0x43 == 0) ≡ true
unfolding holds_below
cleared_table = refl

cleared : (c : ℕ) → c < 256 → (bit_and c 0xbc < 256) × (bit_and (bit_and c 0xbc) 0x43 ≡ 0)
cleared c l = ground (
  arith,
  holds_below-lt 256 (λ c. ltb (bit_and c 0xbc) 256 && bit_and (bit_and c 0xbc) 0x43 == 0) c
      cleared_table l,
)

module _ (P : Ports) (C : Controller P) where
  abbrev quiet : P.State → ℕ
  quiet s = bit_and (C.ccb s) 0x43

  check_dual_lem :
      (t : Ps2) (s : P.State)
      → C.output s ≡ []
      → ((check_dual P t s).0 ≡ t)
        × (C.output (check_dual P t s).1 ≡ [])
        × (quiet (check_dual P t s).1 ≡ quiet s)
  unfolding check_dual ps2_send_command
  check_dual_lem t s e =
      let enabled = P.outb 0x64 ps2_command_enable_port2 s in
      let waited = (P.inb 0x80 enabled).1 in
      let none_there : C.output waited ≡ [] = (C.waits enabled).0 ∙ C.enables2 s ∙ e in
      let kept : quiet waited ≡ quiet s =
        ap (λ (c : ℕ). bit_and c 0x43) ((C.waits enabled).1)
        ∙ C.keeps ps2_command_enable_port2 s (omega arith) in
      elim (Bool-cases t.dual_channel) [
        | inl dual ↦
            rw (dual, read_none P C waited none_there)
              (
                ground (arith, dual),
                C.disables2 waited ∙ none_there,
                C.keeps ps2_command_disable_port2 waited (omega arith) ∙ kept,
              )
        | inr single ↦ rw single (refl, e, refl)
      ]

  -- The state after the test of a port.
  abbrev tested1 : Ps2 → Ps2
  tested1 t = record t { port1_available = C.port1_test == 0 || t.port1_available }

  abbrev tested2 : Ps2 → Ps2
  tested2 t = record t {
    port2_available = t.dual_channel && C.port2_test == 0 || t.port2_available;
  }

  answer_alone :
      (x command : ℕ) (s : P.State)
      → C.output (P.outb 0x64 command s) ≡ C.output s ++ x ∷ []
      → C.output s ≡ []
      → C.output (P.outb 0x64 command s) ≡ x ∷ []
  answer_alone x command s asks e = asks ∙ ap (λ (xs : List ℕ). xs ++ x ∷ []) e

  check_port1_lem :
      (fuel : ℕ) (t : Ps2) (s : P.State)
      → C.output s ≡ []
      → (s1 : P.State) × (check_port1 P (suc fuel) t s ≡ ok (tested1 t, s1))
        × (C.output s1 ≡ [])
        × (quiet s1 ≡ quiet s)
  unfolding check_port1
  check_port1_lem fuel t s e =
      let (s1, run, empty, kept) =
        ask_answer P C fuel C.port1_test ps2_command_test_port1 s
          (answer_alone C.port1_test ps2_command_test_port1 s (C.tests1 s) e) in
      (
        s1,
        rw run refl,
        empty,
        ap (λ (c : ℕ). bit_and c 0x43) kept ∙ C.keeps ps2_command_test_port1 s (omega arith),
      )

  check_port2_lem :
      (fuel : ℕ) (t : Ps2) (s : P.State)
      → C.output s ≡ []
      → (s1 : P.State) × (check_port2 P (suc fuel) t s ≡ ok (tested2 t, s1))
        × (C.output s1 ≡ [])
        × (quiet s1 ≡ quiet s)
  unfolding check_port2
  check_port2_lem fuel t s e = elim (Bool-cases t.dual_channel) [
    | inl dual ↦
        let (s1, run, empty, kept) =
          ask_answer P C fuel C.port2_test ps2_command_test_port2 s
            (answer_alone C.port2_test ps2_command_test_port2 s (C.tests2 s) e) in
        (
          s1,
          rw (dual, run) (ground (arith, dual)),
          empty,
          ap (λ (c : ℕ). bit_and c 0x43) kept ∙ C.keeps ps2_command_test_port2 s (omega arith),
        )
    | inr single ↦ (s, rw single (ground (arith, single)), e, refl)
  ]

  init_ports_lem :
      (fuel c : ℕ) (t : Ps2) (s : P.State)
      → C.output s ≡ []
      → c < 256
      → (s1 : P.State) × (init_ports P (suc fuel) c t s ≡ ok (tested2 (tested1 t), s1))
        × (C.output s1 ≡ [])
        × (quiet s1 ≡ 0)
  unfolding init_ports
  init_ports_lem fuel c t s e small =
      let (below, zeros) = cleared c small in
      let (s1, run1, out1, ccb1) = write_config_lem P C fuel c s below in
      let (same, out2, kept2) = check_dual_lem t s1 (out1 ∙ e) in
      let (s3, run3, out3, kept3) = check_port1_lem fuel t (check_dual P t s1).1 out2 in
      let (s4, run4, out4, kept4) = check_port2_lem fuel (tested1 t) s3 out3 in
      (
        s4,
        rw (run1, same, run3) run4,
        out4,
        kept4 ∙ kept3 ∙ kept2 ∙ ap (λ (b : ℕ). bit_and b 0x43) ccb1 ∙ zeros,
      )

  abbrev pub with_channels : ℕ → Ps2 → Ps2
  with_channels c t = record t { dual_channel = not (bit_and c 0x20 == 0) }

  -- What ps2_init is to find out, with configuration byte `c`: after a passed self-test the first
  -- port is there if it passes its test, and the second if the byte shows two channels and it passes
  -- its own.
  abbrev pub found_ports : ℕ → Ps2 → Ps2
  found_ports c t =
      if C.self_test == 0x55 then tested2 (tested1 (with_channels c t)) else with_channels c t

  init_controller_lem :
      (fuel : ℕ) (t : Ps2) (s : P.State)
      → C.output s ≡ []
      → (s1 : P.State) × (init_controller P (suc fuel) t s ≡ ok (found_ports (C.ccb s) t, s1))
        × (C.output s1 ≡ [])
        × (C.self_test ≡ 0x55 → quiet s1 ≡ 0)
  unfolding init_controller
  init_controller_lem fuel t s e =
      let (s1, run1, out1, ccb1) =
        ask_answer P C fuel (C.ccb s) ps2_command_read_ccb s
          (answer_alone (C.ccb s) ps2_command_read_ccb s (C.tells_ccb s) e) in
      let (s2, run2, out2, ccb2) =
        write_config_lem P C fuel (C.ccb s) s1 (cleared (C.ccb s) (C.ccb_byte s)).0 in
      let (s3, run3, out3, ccb3) =
        ask_answer P C fuel C.self_test ps2_command_test_controller s2
          (answer_alone C.self_test ps2_command_test_controller s2 (C.tests s2) (out2 ∙ out1)) in
      elim (Bool-cases (C.self_test == 0x55)) [
        | inl passed ↦
            let (s4, run4, out4, quiet4) =
              init_ports_lem fuel (C.ccb s) (with_channels (C.ccb s) t) s3 out3 (C.ccb_byte s) in
            (s4, rw (run1, run2, run3, passed) run4, out4, λ p. quiet4)
        | inr failed ↦
            (s3, rw (run1, run2, run3, failed) refl, out3, λ p. absurd (ground (arith, failed, p)))
      ]

  -- A controller that takes every command at once, with fewer bytes waiting than there is fuel:
  -- ps2_init ends and leaves no byte waiting. After a failed self-test it has noted the number of
  -- channels and no port; after a passed one also the ports that pass their tests, the second only
  -- with two channels, and interrupts and translation are off.
  pub ps2_init-found_ports :
      (fuel : ℕ) (t : Ps2) (s : P.State)
      → length (C.output s) < suc fuel
      → (s1 : P.State) × (ps2_init P (suc fuel) t s
          ≡ ok (
            found_ports
                (C.ccb
                  (P.outb 0x64 ps2_command_disable_port2 (P.outb 0x64 ps2_command_disable_port1 s)))
                t,
            s1,
          ))
        × (C.output s1 ≡ [])
        × (C.self_test ≡ 0x55 → bit_and (C.ccb s1) 0x43 ≡ 0)
  unfolding ps2_init ps2_send_command
  ps2_init-found_ports fuel t s enough =
      let off1 = P.outb 0x64 ps2_command_disable_port1 s in
      let (s1, run1, out1, ccb1) =
        clear_data_lem P C (C.output s) (suc fuel) (P.outb 0x64 ps2_command_disable_port2 off1)
          (C.disables2 off1 ∙ C.disables1 s) enough in
      let (s2, run2, out2, quiet2) = init_controller_lem fuel t s1 out1 in
      (s2, rw run1 (run2 ∙ ap (λ (c : ℕ). ok (found_ports c t, s2)) ccb1), out2, quiet2)
