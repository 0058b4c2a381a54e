-- ===== src/Hw/Devman/Drivers.antt =====
-- Which drivers are offered a device.
use limix.Base.{◌≡◌, refl, ℕ, Bool, true, false, if◌then◌else◌, List, [], ◌∷◌, Bool-cases, inl, inr}
use limix.Hw.Devman.{PciType0, Driver, matches, devman_handle_pcie_device}

-- Inits are called in turn until one takes the device.
pub offer : (ℕ → Bool) → List ℕ → List ℕ × Bool
offer accepts [] = ([], false)
offer accepts (f ∷ fs) =
    let rest = offer accepts fs in if accepts f then (f ∷ [], true) else (f ∷ rest.0, rest.1)

-- The inits of the drivers that fit the device, in the order of the list.
pub candidates : PciType0 → List Driver → List ℕ
candidates h [] = []
candidates h (d ∷ ds) = let rest = candidates h ds in if matches d h then d.init ∷ rest else rest

-- The device is offered to the drivers whose address fits it, in the order of the list and up to the
-- first that takes it, and to no other.
pub devman_handle_pcie_device-offer :
    (accepts : ℕ → Bool) (h : PciType0) (ds : List Driver)
    → devman_handle_pcie_device accepts h ds ≡ offer accepts (candidates h ds)
unfolding devman_handle_pcie_device offer candidates
devman_handle_pcie_device-offer accepts h [] = refl
devman_handle_pcie_device-offer accepts h (d ∷ ds) = elim (Bool-cases (matches d h)) [
  | inl e ↦ rw (e, devman_handle_pcie_device-offer accepts h ds) refl
  | inr e ↦ rw (e) (devman_handle_pcie_device-offer accepts h ds)
]
