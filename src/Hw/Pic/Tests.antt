-- ===== src/Hw/Pic/Tests.antt =====
-- Two controllers as two bytes.
use limix.Base.{ℕ, ◌%◌, ◌<◌, ◌≡◌, refl, arith, not, ◌&&◌, ◌||◌, ◌==◌, if◌then◌else◌}
use limix.Hw.Ports.{Ports}
use limix.Hw.Pic.{pic_mask, pic_unmask}
use limix.Hw.Pic.Masks.{Controllers, masked, pic_mask-masked}

abbrev two_bytes : Ports
two_bytes = record {
  State = ℕ × ℕ;
  outb = λ port v s.
      if port == 0x21 then (v % 256, s.1) else if port == 0xa1 then (s.0, v % 256) else s;
  inb = λ port s. (if port == 0x21 then s.0 else s.1, s);
}

abbrev controllers : Controllers two_bytes
controllers = record {
  Ready = λ s. (s.0 < 256) × (s.1 < 256);
  mask = λ port s. if port == 0x21 then s.0 else s.1;
  mask_byte = λ port s r. ground (arith, r);
  read = λ port s d r. refl;
  write = λ port v s d r l. ground (arith, d, r, l);
  write_other = λ port other v s d e n r. ground (arith, d, e, n);
}

pic_mask-masked_example :
    (masked two_bytes controllers 9 (pic_mask two_bytes 3 (0xff, 0))
      ≡ (3 == 9 || masked two_bytes controllers 9 (0xff, 0)))
    × (masked two_bytes controllers 9 (pic_unmask two_bytes 3 (0xff, 0))
        ≡ (not (3 == 9) && masked two_bytes controllers 9 (0xff, 0)))
pic_mask-masked_example =
    pic_mask-masked two_bytes controllers 3 9 (0xff, 0) (omega arith, omega arith) (omega arith)
      (omega arith)
