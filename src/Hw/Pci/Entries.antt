-- ===== src/Hw/Pci/Entries.antt =====
-- A registry as the list of its entries.
use limix.Base.{
  ℕ, zero, suc, ◌+◌, ◌-◌, ◌%◌, ◌^◌, ◌<◌, ◌≡◌, ◌≢◌, refl, ap, ◌∙◌, arith, true, false, ◌==◌, ltb,
  if◌then◌else◌, Bool-cases, inl, inr, none, some, List, [], ◌∷◌, length,
}
use limix.Base.Run.{Run, ok, out_of_fuel}
use limix.Libk.Memory.{Mem, load}
use limix.Hw.Pci.{hhdm}
use limix.Hw.Pci.Texts.{Named, text, copied}
use limix.Hw.Pci.Registry.{
  LimineFile, bytes_at, find_module, pci_vendors, in_registry, registry_loop, is_vendor,
  get_vendor_name,
}

-- Memory at `a` holds the entries, each a vendor, the size of the entry and the name.
abbrev pub Listed : Mem → ℕ → List (ℕ × List ℕ) → Type 0
Listed m a [] = Unit
Listed m a ((id, name) ∷ more) =
    (load 2 m a ≡ id)
    × (load 2 m (a + 2) ≡ length name + 4)
    × (length name < 2 ^ 16 - 4)
    × (bytes_at m (a + 4) (length name) ≡ name)
    × Listed m (a + (length name + 4)) more

-- The bytes of all entries.
abbrev pub extent : List (ℕ × List ℕ) → ℕ
extent [] = 0
extent ((id, name) ∷ more) = length name + 4 + extent more

-- The name of the first entry of a vendor.
unfoldable pub vendor_name : ℕ → List (ℕ × List ℕ) → Named
vendor_name id [] = text "-"
vendor_name id ((v, name) ∷ more) =
    let rest = vendor_name id more in if v == id then copied name else rest

registry_loop-vendor_name :
    (entries : List (ℕ × List ℕ)) (fuel id : ℕ) (m : Mem) (a offset size : ℕ)
    → Listed m a entries
    → offset + extent entries ≡ size
    → size < 2 ^ 64
    → length entries < fuel
    → registry_loop fuel 4 (is_vendor m id) m a offset size ≡ ok (vendor_name id entries)
unfolding registry_loop vendor_name
registry_loop-vendor_name entries zero id m a offset size l e small enough = absurd (omega arith)
registry_loop-vendor_name [] (suc fuel) id m a offset size l e small enough =
    let done : ltb offset size ≡ false = ground (arith, e) in rw (registry_loop, done) refl
registry_loop-vendor_name ((v, name) ∷ more) (suc fuel) id m a offset size
      (key, long, short, bytes, l) e small enough =
    let go : ltb offset size ≡ true = ground (arith, e) in
    let two : a + (4 - 2) ≡ a + 2 = omega arith in
    let strs : (length name + 4 + 2 ^ 16 - 4) % 2 ^ 16 ≡ length name = omega (arith, short) in
    let next : (offset + (length name + 4)) % 2 ^ 64 ≡ offset + (length name + 4) =
      omega (arith, e) in
    elim (Bool-cases (v == id)) [
      | inl q ↦ rw (registry_loop, go, key, q, two, long, strs, bytes) refl
      | inr q ↦
          rw (registry_loop, go, key, q, two, long, next)
            (registry_loop-vendor_name more fuel id m (a + (length name + 4))
              (offset + (length name + 4)) size l (omega (arith, e)) small (omega arith))
    ]

in_found :
    (name : List ℕ) (modules : List LimineFile) (f : LimineFile) (search : LimineFile → Run Named)
    → find_module name modules ≡ some f
    → in_registry name (some modules) none search ≡ (search f, some f)
in_found name modules f search h = rw (in_registry, h) refl

-- Where a module for the vendors is there whose memory is a list of entries from end to end, with
-- names shorter than 2 ^ 16 - 4 bytes, get_vendor_name gives the name of the first entry of the
-- vendor, or "-" if there is none, and remembers the module. The fuel is for the entries.
pub get_vendor_name-entry :
    (fuel hhaddr id : ℕ) (m : Mem) (modules : List LimineFile) (f : LimineFile)
    (entries : List (ℕ × List ℕ))
    → find_module pci_vendors modules ≡ some f
    → Listed m (hhdm hhaddr f.address) entries
    → extent entries ≡ f.size
    → f.size < 2 ^ 64
    → length entries < fuel
    → get_vendor_name fuel hhaddr id m (some modules) none ≡ (ok (vendor_name id entries), some f)
unfolding get_vendor_name
get_vendor_name-entry fuel hhaddr id m modules f entries found l e small enough =
    in_found pci_vendors modules f _ found
    ∙ ap (λ r. (r, some f))
        (registry_loop-vendor_name entries fuel id m (hhdm hhaddr f.address) 0 f.size l
          (omega (arith, e)) small enough)

-- An entry of another vendor whose size is 0 is read forever: no fuel is enough.
pub registry_loop-stuck :
    (fuel id : ℕ) (m : Mem) (a size : ℕ)
    → load 2 m a ≢ id
    → load 2 m (a + 2) ≡ 0
    → 0 < size
    → registry_loop fuel 4 (is_vendor m id) m a 0 size ≡ out_of_fuel
unfolding registry_loop
registry_loop-stuck zero id m a size other empty some_bytes = refl
registry_loop-stuck (suc fuel) id m a size other empty some_bytes =
    let go : ltb 0 size ≡ true = ground (arith, some_bytes) in
    let no : (load 2 m a == id) ≡ false = ground (arith, other) in
    let two : a + (4 - 2) ≡ a + 2 = omega arith in
    let here : a + 0 ≡ a = omega arith in
    rw (registry_loop, go, no, two, empty, here)
      (registry_loop-stuck fuel id m a size other empty some_bytes)
