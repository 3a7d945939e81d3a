-- ===== src/Devices/Places.antt =====
-- The tree that `createHardwareLibrary` makes, as the memory map.
use hyparm.Common.{
  ℕ, ◌<◌, ◌^◌, ◌≡◌, refl, ap, ◌∙◌, arith, Bool, true, false, List, [], none, some, Outcome,
}
use hyparm.Devices.Tree.{Device, Functions, device_at, create_device, call_function}
use hyparm.Devices.Library.{create_hardware_library}
use hyparm.Devices.MemoryMap.{memory_map, find_row}
use hyparm.Devices.Routing.{answer, ranges, is_sound, Finds, finds}

routes :
    {A : Type 0} (hw mmc profiler : Bool) (ds : List Device)
    → is_sound 6 ds 0 ≡ true
    → (device_at ds 0).start_address_mapped ≡ 0
    → (device_at ds 0).end_address_mapped ≡ 0xffff_ffff
    → ranges 6 ds 0 ≡ memory_map hw mmc profiler
    → (own : Functions → ℕ → Outcome A) (address : ℕ) → address < 2 ^ 32
    → call_function (λ f dev. own f (device_at ds dev).start_address_mapped) 6 ds 0 address
      ≡ answer own (find_row (memory_map hw mmc profiler) address)
unfolding Finds
routes hw mmc profiler ds sound first last same own address h =
    finds ds address own 6 0 sound (rw (first, last) (ground (arith, h)))
    ∙ ap (λ rows. answer own (find_row rows address)) same

-- What `createHardwareLibrary` makes.
unfoldable pub library : (hw mmc profiler : Bool) → List Device
unfolding create_hardware_library
library hw mmc profiler = elim (create_hardware_library hw mmc profiler) [
  | none ↦ []
  | some ds ↦ ds
]

-- It is made in every configuration, siblings are apart, the top level bus has all addresses, and
-- its ranges are those of the map.
library_lem :
    (hw mmc profiler : Bool)
    → (create_hardware_library hw mmc profiler ≡ some (library hw mmc profiler))
      × (is_sound 6 (library hw mmc profiler) 0 ≡ true)
      × ((device_at (library hw mmc profiler) 0).start_address_mapped ≡ 0)
      × ((device_at (library hw mmc profiler) 0).end_address_mapped ≡ 0xffff_ffff)
      × (ranges 6 (library hw mmc profiler) 0 ≡ memory_map hw mmc profiler)
unfolding library create_hardware_library create_device is_sound ranges
library_lem false false false = (refl, refl, refl, refl, refl)
library_lem false false true = (refl, refl, refl, refl, refl)
library_lem false true false = (refl, refl, refl, refl, refl)
library_lem false true true = (refl, refl, refl, refl, refl)
library_lem true false false = (refl, refl, refl, refl, refl)
library_lem true false true = (refl, refl, refl, refl, refl)
library_lem true true false = (refl, refl, refl, refl, refl)
library_lem true true true = (refl, refl, refl, refl, refl)

pub library_routes :
    {A : Type 0} (hw mmc profiler : Bool) (own : Functions → ℕ → Outcome A) (address : ℕ)
    → address < 2 ^ 32
    → call_function
        (λ f dev. own f (device_at (library hw mmc profiler) dev).start_address_mapped)
        6
        (library hw mmc profiler)
        0
        address
      ≡ answer own (find_row (memory_map hw mmc profiler) address)
library_routes hw mmc profiler own address h =
    let (made, sound, first, last, same) = library_lem hw mmc profiler in
    routes hw mmc profiler (library hw mmc profiler) sound first last same own address h

-- In every configuration `createHardwareLibrary` makes its devices without a failure, and an access
-- through the top level bus to any 32-bit address reaches the functions of the device that the
-- memory map has at the address, called with that device; where the map has none, or a boot ROM, it
-- stops the hypervisor.
pub create_hardware_library_lem :
    {A : Type 0}
    → (hw_passthrough mmc_guest_access profiler : Bool)
    → (own : Functions → (start_address : ℕ) → Outcome A) → (address : ℕ) → address < 2 ^ 32
    → (ds : List Device) × (create_hardware_library hw_passthrough mmc_guest_access profiler
        ≡ some ds)
      × (call_function (λ f dev. own f (device_at ds dev).start_address_mapped) 6 ds 0 address
          ≡ answer own (find_row (memory_map hw_passthrough mmc_guest_access profiler) address))
create_hardware_library_lem hw mmc profiler own address h =
    let (made, sound, first, last, same) = library_lem hw mmc profiler in
    (
      library hw mmc profiler,
      made,
      routes hw mmc profiler (library hw mmc profiler) sound first last same own address h,
    )
