-- ===== src/Hw/Pic.antt =====
-- kernel/src/hw/cpu/pic.c: the two interrupt controllers behind their ports.
pub mod Bits
pub mod Masks
mod Tests
use limix.Base.{ℕ, ◌+◌, ◌-◌, ◌*◌, ◌%◌, ◌^◌, ltb, leb, if◌then◌else◌, bit_and, bit_or}
use limix.Hw.Ports.{Ports}

abbrev pub pic_master_cmd : ℕ
pic_master_cmd = 0x20

abbrev pub pic_master_data : ℕ
pic_master_data = 0x21

abbrev pub pic_slave_cmd : ℕ
pic_slave_cmd = 0xa0

abbrev pub pic_slave_data : ℕ
pic_slave_data = 0xa1

abbrev pub pic_eoi : ℕ
pic_eoi = 0x20

abbrev pub pic_read_irr : ℕ
pic_read_irr = 0x0a

abbrev pub pic_read_isr : ℕ
pic_read_isr = 0x0b

-- The choice of pic_mask and pic_unmask.
abbrev pub mask_port : ℕ → ℕ
mask_port irq = if ltb irq 8 then pic_master_data else pic_slave_data

abbrev pub mask_line : ℕ → ℕ
mask_line irq = if ltb irq 8 then irq else irq - 8

module _ (P : Ports) where
  -- `io_wait()`
  abbrev io_wait : P.State → P.State
  io_wait s = (P.inb 0x80 s).1

  abbrev out_and_wait : ℕ → ℕ → P.State → P.State
  out_and_wait port v s = io_wait (P.outb port v s)

  unfoldable pub pic_disable : P.State → P.State
  pic_disable s = P.outb pic_slave_data 0xff (P.outb pic_master_data 0xff s)

  -- The offsets are cut to a byte by outb.
  unfoldable pub pic_remap : ℕ → ℕ → P.State → P.State
  pic_remap offset0 offset1 s =
      let (a0, s1) = P.inb pic_master_data s in
      let (a1, s2) = P.inb pic_slave_data s1 in
      let s3 = out_and_wait pic_master_cmd 0x11 s2 in
      let s4 = out_and_wait pic_slave_cmd 0x11 s3 in
      let s5 = out_and_wait pic_master_data (offset0 % 256) s4 in
      let s6 = out_and_wait pic_slave_data (offset1 % 256) s5 in
      let s7 = out_and_wait pic_slave_data 2 (out_and_wait pic_master_data 4 s6) in
      let s8 = out_and_wait pic_slave_data 1 (out_and_wait pic_master_data 1 s7) in
      P.outb pic_slave_data a1 (P.outb pic_master_data a0 s8)

  -- Without the two instructions that hold interrupts off.
  unfoldable pub pic_init : P.State → P.State
  unfolding pic_disable pic_remap
  pic_init s = pic_remap 0x20 0x28 (pic_disable s)

  -- `value` is a byte.
  unfoldable pub pic_mask : ℕ → P.State → P.State
  pic_mask irq s =
      let (v, s1) = P.inb (mask_port irq) s in
      P.outb (mask_port irq) (bit_or v (2 ^ mask_line irq) % 256) s1

  unfoldable pub pic_unmask : ℕ → P.State → P.State
  pic_unmask irq s =
      let (v, s1) = P.inb (mask_port irq) s in
      P.outb (mask_port irq) (bit_and v (255 - 2 ^ mask_line irq % 256)) s1

  unfoldable pub pic_send_eoi : ℕ → P.State → P.State
  pic_send_eoi irq s =
      P.outb pic_master_cmd pic_eoi (if leb 8 irq then P.outb pic_slave_cmd pic_eoi s else s)

  -- The two reads, the slave's first.
  unfoldable pub pic_get_irq_reg : ℕ → P.State → ℕ × P.State
  pic_get_irq_reg ocw3 s =
      let (high, s1) =
        P.inb pic_slave_cmd (P.outb pic_slave_cmd ocw3 (P.outb pic_master_cmd ocw3 s)) in
      let (low, s2) = P.inb pic_master_cmd s1 in (bit_or (high * 2 ^ 8) low, s2)

  unfoldable pub pic_get_irr : P.State → ℕ × P.State
  unfolding pic_get_irq_reg
  pic_get_irr s = pic_get_irq_reg pic_read_irr s

  unfoldable pub pic_get_isr : P.State → ℕ × P.State
  unfolding pic_get_irq_reg
  pic_get_isr s = pic_get_irq_reg pic_read_isr s
