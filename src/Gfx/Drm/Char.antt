-- ===== src/Gfx/Drm/Char.antt =====
-- The characters of kernel/src/gfx/drm/drm.c, in the loaded font or the built-in one. Coordinates wrap
-- at 2 ^ 64.
use limix.Base.{
  ℕ, zero, suc, ◌+◌, ◌-◌, ◌*◌, ◌/◌, ◌%◌, ◌^◌, not, ◌&&◌, ◌==◌, leb, if◌then◌else◌, Option, none,
  some, bit_and, List, [], ◌∷◌, get_or,
}
use limix.Gfx.Drm.{wrap, Display, drm_plot, drm_fill_rel_rect}

-- A bit of row `hi` of the glyph of `ch`; `16 * ch` is a u32.
abbrev pub glyph : (ℕ → ℕ) → ℕ → ℕ → ℕ
glyph font ch hi = font ((16 * ch % 2 ^ 32 + hi) % 2 ^ 32)

-- `for (u8 i = 0; i < 8; i++)` of _drm_plot_char, with `left` rounds to go and the mask `m`.
unfoldable pub plot_bits : ℕ → ℕ → ℕ → ℕ → ℕ → ℕ → ℕ → Display → Display
plot_bits zero bits m n x y c s = s
plot_bits (suc left) bits m n x y c s =
    let s1 = if bit_and bits m == 0 then s else drm_plot n x y c s in
    plot_bits left bits (m / 2) n (wrap (x + 1)) y c s1

unfoldable pub plot_rows : ℕ → (ℕ → ℕ) → ℕ → ℕ → ℕ → ℕ → ℕ → ℕ → Display → Display
plot_rows zero font hi n x y ch c s = s
plot_rows (suc left) font hi n x y ch c s =
    plot_rows left font (hi + 1) n x y ch c
      (plot_bits 8 (glyph font ch hi) 0x80 n x (wrap (y + hi)) c s)

-- The same two loops of _drm_plot_char_solid, with GFX_FONT_SCALE 1.
unfoldable pub solid_bits : ℕ → ℕ → ℕ → ℕ → ℕ → ℕ → ℕ → ℕ → Display → Display
solid_bits zero bits m n x y c b s = s
solid_bits (suc left) bits m n x y c b s =
    solid_bits left bits (m / 2) n (wrap (x + 1)) y c b
      (drm_fill_rel_rect n x y 1 1 (if bit_and bits m == 0 then b else c) s)

unfoldable pub solid_rows : ℕ → (ℕ → ℕ) → ℕ → ℕ → ℕ → ℕ → ℕ → ℕ → ℕ → Display → Display
solid_rows zero font hi n x y ch c b s = s
solid_rows (suc left) font hi n x y ch c b s =
    solid_rows left font (hi + 1) n x y ch c b
      (solid_bits 8 (glyph font ch hi) 0x80 n x (wrap (y + hi)) c b s)

-- `_fallback_font`, eight rows of four bits for each character.
abbrev pub fallback_font : List ℕ
fallback_font =
    0x6999f999 ∷ 0xe99e99e0 ∷ 0x78888870 ∷ 0xe99999e0 ∷ 0xf88f88f0 ∷ 0xf88f8880 ∷ 0x788b9960
    ∷ 0x999f9990 ∷ 0x44444440 ∷ 0x11199960 ∷ 0x9ac8ca90 ∷ 0x888888f0 ∷ 0x9ff99990 ∷ 0x9ddbb990
    ∷ 0x69999960 ∷ 0xe99e8880 ∷ 0x6999db70 ∷ 0xe99eca90 ∷ 0x788611e0 ∷ 0xff666660 ∷ 0x99999960
    ∷ 0x99999f60 ∷ 0x9999ff90 ∷ 0x99669990 ∷ 0x99966660 ∷ 0x0f1248f0 ∷ 0x64444460 ∷ 0x62222260
    ∷ 0x22244440 ∷ 0x66000660 ∷ 0x00000660 ∷ 0x00f00f00 ∷ 0x000000f0 ∷ 0x69909960 ∷ 0x22202220
    ∷ 0x61168860 ∷ 0x69121960 ∷ 0x99961110 ∷ 0x68861160 ∷ 0x68869960 ∷ 0x69901110 ∷ 0x69969960
    ∷ 0x69961170 ∷ 0x00060000 ∷ []

unfoldable pub drm_get_fallback : ℕ → ℕ
drm_get_fallback c =
    if leb b'A' c && leb c b'Z'
    then get_or fallback_font (c - b'A') 0
    else if leb b'a' c && leb c b'z'
    then get_or fallback_font (c - b'a') 0
    else if c == b'['
    then get_or fallback_font 26 0
    else if c == b']'
    then get_or fallback_font 27 0
    else if c == b'/'
    then get_or fallback_font 28 0
    else if c == b':'
    then get_or fallback_font 29 0
    else if c == b'.'
    then get_or fallback_font 30 0
    else if c == b'='
    then get_or fallback_font 31 0
    else if c == b'_'
    then get_or fallback_font 32 0
    else if leb b'0' c && leb c b'9'
    then get_or fallback_font (33 + c - b'0') 0
    else if c == b'-'
    then get_or fallback_font 43 0
    else if c == b' '
    then 0
    else c

-- The loops of the two functions that draw with it; pixels of a character are 2 by 2, and
-- `back` is `none` where the background is kept.
unfoldable pub fallback_bits : ℕ → ℕ → ℕ → ℕ → ℕ → ℕ → ℕ → Option ℕ → Display → Display
fallback_bits zero bits m n x y c back s = s
fallback_bits (suc left) bits m n x y c back s =
    let blank : Display = elim back [ none ↦ s | some b ↦ drm_fill_rel_rect n x y 2 2 b s ] in
    fallback_bits left bits (m / 2) n (wrap (x + 2)) y c back
      (if bit_and bits m == 0 then blank else drm_fill_rel_rect n x y 2 2 c s)

unfoldable pub fallback_rows : ℕ → ℕ → ℕ → ℕ → ℕ → ℕ → ℕ → Option ℕ → Display → Display
fallback_rows zero hi n x y ch c back s = s
fallback_rows (suc left) hi n x y ch c back s = fallback_rows left (hi + 1) n x y ch c back (
    fallback_bits 4 (drm_get_fallback ch / 2 ^ ((7 - hi) * 4)) 0x80 n x (wrap (y + hi * 2)) c back
      s)

unfoldable pub drm_plot_char : ℕ → ℕ → ℕ → ℕ → ℕ → Display → Display
drm_plot_char n x y ch c s = if not s.initialized then s else elim s.font [
  | some font ↦ plot_rows 16 font 0 n x y ch c s
  | none ↦ fallback_rows 8 0 n x y ch c none s
]

unfoldable pub drm_plot_char_solid : ℕ → ℕ → ℕ → ℕ → ℕ → ℕ → Display → Display
drm_plot_char_solid n x y ch c b s = elim s.font [
  | some font ↦ solid_rows 16 font 0 n x y ch c b s
  | none ↦ fallback_rows 8 0 n x y ch c (some b) s
]
