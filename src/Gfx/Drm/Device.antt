-- ===== src/Gfx/Drm/Device.antt =====
-- The drms of kernel/src/gfx/drm/drm.c as buffers: setting up, clearing, switching, and the reads and
-- writes of the device file.
use limix.Base.{
  ℕ, zero, suc, ◌+◌, ◌*◌, ◌/◌, ◌%◌, Bool, true, false, not, ◌||◌, ◌==◌, ltb, leb, if◌then◌else◌,
  Option, none, some, bit_and, List,
}
use limix.Libk.Memory.{load, kmemset, kmemcpy}
use limix.Mm.Pmm.{MemoryTag, request_pages}
use limix.Gfx.Drm.{wrap, Display, max_drms, drm_plot}

-- Only the drm's own buffer is cleared.
unfoldable pub drm_clear : ℕ → Display → Display
drm_clear n s =
    let d = s.drms n in
    if not s.initialized
    then s
    else record s { mem = kmemset s.mem d.framebuffer 0 (wrap (d.width * d.height * d.bpp) / 8) }

unfoldable pub drm_sync_real : Display → Display
drm_sync_real s =
    let d = s.drms s.active in
    record s {
      mem = kmemcpy s.mem (s.screen).framebuffer d.framebuffer (wrap (d.pitch * d.height));
    }

unfoldable pub drm_switch : ℕ → Display → Display
drm_switch n s =
    if not s.initialized
    then s
    else if leb max_drms n
    then s
    else drm_sync_real (record s { active = n })

unfoldable pub drm_is_attached_to_process : ℕ → Display → Bool
drm_is_attached_to_process n s =
    if not s.initialized then false else not (bit_and (s.drms n).flags 2 == 0)

-- `HHDM(request_pages(count))`, for the start `hhaddr` of the direct map. The macro names its argument
-- in the test and again in the branch, so request_pages is called twice. `none` is a panic.
unfoldable pub hhdm_request_pages : ℕ → ℕ → List MemoryTag → Option (ℕ × List MemoryTag)
hhdm_request_pages hhaddr count tags = elim (request_pages count tags) [
  | none ↦ none
  | some (a, tags1) ↦ elim (request_pages count tags1) [
    | none ↦ none
    | some (b, tags2) ↦ some (if ltb a hhaddr then wrap (b + hhaddr) else b, tags2)
  ]
]

-- drm_init with its one drm.
unfoldable pub drm_init : ℕ → List MemoryTag → Display → Option (Display × List MemoryTag)
drm_init hhaddr tags s =
    let g = s.screen in
    elim (hhdm_request_pages hhaddr (wrap (wrap (g.width * g.pitch) + 4095) / 4096) tags) [
      | none ↦ none
      | some (f, tags') ↦
          let d = record g { framebuffer = f; flags = 0 } in
          if f == 0
          then none
          else some (
            record s {
              mem = kmemset s.mem f 0 (wrap (g.pitch * g.height));
              drms = λ i. if i == 0 then d else s.drms i;
              initialized = true;
              active = 0;
            },
            tags',
          )
    ]

-- `E_SUCCESS` and `E_OUTOFBOUNDS`
abbrev pub e_success : ℕ
e_success = 0

abbrev pub e_outofbounds : ℕ
e_outofbounds = 3

-- The test of _drm_write and _drm_read.
unfoldable pub out_of_bounds : ℕ → ℕ → ℕ → Display → Bool
out_of_bounds n o size s =
    let d = s.drms n in
    ltb (wrap (d.width * d.height)) o || ltb (wrap (d.width * d.height)) (wrap (o + size))

-- `words` is the caller's buffer as an array of u32.
unfoldable pub write_loop : ℕ → ℕ → ℕ → (ℕ → ℕ) → Display → Display
write_loop zero n k words s = s
write_loop (suc left) n k words s =
    let w = (s.drms n).width in
    write_loop left n (wrap (k + 1)) (λ i. words (i + 1)) (drm_plot n (k % w) (k / w) (words 0) s)

unfoldable pub drm_write : ℕ → ℕ → ℕ → (ℕ → ℕ) → Display → ℕ × Display
drm_write n o size words s =
    if out_of_bounds n o size s
    then (e_outofbounds, s)
    else (e_success, write_loop size n o words s)

-- `b` is what the caller's buffer holds before.
unfoldable pub drm_read : ℕ → ℕ → ℕ → (ℕ → ℕ) → Display → ℕ × (ℕ → ℕ)
drm_read n o size b s = if out_of_bounds n o size s then (e_outofbounds, b) else (
  e_success,
  λ i.
      if not (ltb i size)
      then b i
      else if s.active == n
      then load 4 s.mem (wrap ((s.screen).framebuffer + 4 * wrap (o * i)))
      else load 4 s.mem (wrap ((s.drms n).framebuffer + 4 * wrap (o + i))),
)
