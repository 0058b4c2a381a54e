-- ===== src/Hw/Ps2.antt =====
-- kernel/src/hw/hid/ps2.c: the controller behind ports 0x60 and 0x64. A loop that waits for the
-- controller takes fuel.
pub mod Device
pub mod Start
mod Tests
use limix.Base.{
  ℕ, zero, suc, ◌-◌, ◌%◌, Bool, true, false, not, ◌&&◌, ◌||◌, ◌==◌, if◌then◌else◌, bit_and,
}
use limix.Base.Run.{Run, ok, out_of_fuel, ◌>>=◌}
use limix.Hw.Ports.{Ports}

-- The static variables.
pub record Ps2 : Type 0 where
  pub dual_channel : Bool
  pub port1_available : Bool
  pub port2_available : Bool

abbrev pub ps2_port_data : ℕ
ps2_port_data = 0x60

abbrev pub ps2_port_command : ℕ
ps2_port_command = 0x64

abbrev pub ps2_command_read_ccb : ℕ
ps2_command_read_ccb = 0x20

abbrev pub ps2_command_write_ccb : ℕ
ps2_command_write_ccb = 0x60

abbrev pub ps2_command_disable_port2 : ℕ
ps2_command_disable_port2 = 0xa7

abbrev pub ps2_command_enable_port2 : ℕ
ps2_command_enable_port2 = 0xa8

abbrev pub ps2_command_test_port2 : ℕ
ps2_command_test_port2 = 0xa9

abbrev pub ps2_command_test_controller : ℕ
ps2_command_test_controller = 0xaa

abbrev pub ps2_command_test_port1 : ℕ
ps2_command_test_port1 = 0xab

abbrev pub ps2_command_disable_port1 : ℕ
ps2_command_disable_port1 = 0xad

abbrev pub ps2_command_write_port2_input : ℕ
ps2_command_write_port2_input = 0xd4

-- PORT1_INT, PORT2_INT and PORT1_TRANSLATION
abbrev pub ps2_ccb_cleared : ℕ
ps2_ccb_cleared = 0x43

module _ (P : Ports) where
  unfoldable pub ps2_data_available : P.State → Bool × P.State
  ps2_data_available s = let (v, s1) = P.inb ps2_port_command s in (not (bit_and v 1 == 0), s1)

  unfoldable pub ps2_can_send : P.State → Bool × P.State
  ps2_can_send s = let (v, s1) = P.inb ps2_port_command s in (bit_and v 2 == 0, s1)

  unfoldable pub ps2_read_data : P.State → ℕ × P.State
  ps2_read_data s =
      let (full, s1) = ps2_data_available s in if full then P.inb ps2_port_data s1 else (0, s1)

  unfoldable pub ps2_send_command : ℕ → P.State → P.State
  ps2_send_command command s = P.outb ps2_port_command command s

  unfoldable pub ps2_send_data : ℕ → P.State → P.State
  ps2_send_data v s =
      let (free, s1) = ps2_can_send s in if free then P.outb ps2_port_data v s1 else s1

  -- `while (!ps2_data_available())` and `while (!ps2_can_send())`
  unfoldable pub wait_data : ℕ → P.State → Run P.State
  wait_data zero s = out_of_fuel
  wait_data (suc fuel) s =
      let (full, s1) = ps2_data_available s in
      let rest = wait_data fuel s1 in if full then ok s1 else rest

  unfoldable pub wait_send : ℕ → P.State → Run P.State
  wait_send zero s = out_of_fuel
  wait_send (suc fuel) s =
      let (free, s1) = ps2_can_send s in
      let rest = wait_send fuel s1 in if free then ok s1 else rest

  -- `while (ps2_data_available()) ps2_read_data();`
  unfoldable pub clear_data : ℕ → P.State → Run P.State
  clear_data zero s = out_of_fuel
  clear_data (suc fuel) s =
      let (full, s1) = ps2_data_available s in
      let rest = clear_data fuel ((ps2_read_data s1).1) in if full then rest else ok s1

  -- Also ps2_send_command1 and ps2_send_command2, which only call these.
  unfoldable pub ps2_send_data1 : ℕ → Ps2 → P.State → P.State
  ps2_send_data1 v t s =
      let (free, s1) = ps2_can_send s in
      if not t.port1_available then s else if free then P.outb ps2_port_data v s1 else s1

  unfoldable pub ps2_send_data2 : ℕ → ℕ → Ps2 → P.State → Run P.State
  ps2_send_data2 fuel v t s =
      let (free, s1) = ps2_can_send s in
      if not t.port2_available
      then ok s
      else if free
      then (wait_send fuel (ps2_send_command ps2_command_write_port2_input s1) >>= λ s2.
          ok (P.outb ps2_port_data v s2))
      else ok s1

  unfoldable pub ps2_read_data2 : Ps2 → P.State → ℕ × P.State
  ps2_read_data2 t s =
      let (full, s1) = ps2_data_available s in
      if not t.port2_available then (0, s) else if full then ps2_read_data s1 else (0, s1)

  -- A command, the wait for its answer, and the answer.
  unfoldable pub ask : ℕ → ℕ → P.State → Run (ℕ × P.State)
  ask fuel command s = wait_data fuel (ps2_send_command command s) >>= λ s1. ok (ps2_read_data s1)

  -- The write of the configuration without interrupts and translation.
  unfoldable pub write_config : ℕ → ℕ → P.State → Run P.State
  write_config fuel ccb s = wait_send fuel (ps2_send_command ps2_command_write_ccb s) >>= λ s1.
      ok (ps2_send_data (bit_and ccb (255 - ps2_ccb_cleared)) s1)

  -- `if (_dual_channel)` for the first time; io_wait reads port 0x80.
  unfoldable pub check_dual : Ps2 → P.State → Ps2 × P.State
  check_dual t s =
      let (ccb, s1) =
        ps2_read_data ((P.inb 0x80 (ps2_send_command ps2_command_enable_port2 s)).1) in
      let dual = bit_and ccb 0x20 == 0 in
      if t.dual_channel
      then (
        record t { dual_channel = dual },
        if dual then ps2_send_command ps2_command_disable_port2 s1 else s1,
      )
      else (t, s)

  unfoldable pub check_port1 : ℕ → Ps2 → P.State → Run (Ps2 × P.State)
  check_port1 fuel t s = ask fuel ps2_command_test_port1 s >>= λ r.
      ok (record t { port1_available = r.0 == 0 || t.port1_available }, r.1)

  unfoldable pub check_port2 : ℕ → Ps2 → P.State → Run (Ps2 × P.State)
  check_port2 fuel t s =
      if t.dual_channel
      then (ask fuel ps2_command_test_port2 s >>= λ r.
          ok (record t { port2_available = r.0 == 0 || t.port2_available }, r.1))
      else ok (t, s)

  -- What follows the self-test.
  unfoldable pub init_ports : ℕ → ℕ → Ps2 → P.State → Run (Ps2 × P.State)
  init_ports fuel ccb t s = write_config fuel ccb s >>= λ s1.
      check_port1 fuel (check_dual t s1).0 (check_dual t s1).1 >>= λ r. check_port2 fuel (r.0) (r.1)

  -- What follows the clearing of old data.
  unfoldable pub init_controller : ℕ → Ps2 → P.State → Run (Ps2 × P.State)
  init_controller fuel t s = ask fuel ps2_command_read_ccb s >>= λ c.
      write_config fuel (c.0) (c.1) >>= λ s1. ask fuel ps2_command_test_controller s1 >>= λ r.
      let t1 = record t { dual_channel = not (bit_and (c.0) 0x20 == 0) } in
      if r.0 == 0x55 then init_ports fuel (c.0) t1 (r.1) else ok (t1, r.1)

  unfoldable pub ps2_init : ℕ → Ps2 → P.State → Run (Ps2 × P.State)
  ps2_init fuel t s =
      clear_data fuel
        (ps2_send_command ps2_command_disable_port2 (ps2_send_command ps2_command_disable_port1 s))
      >>= λ s1. init_controller fuel t s1
