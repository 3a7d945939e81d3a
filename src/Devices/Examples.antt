-- ===== src/Devices/Examples.antt =====
-- The theorem on the devices at the address of a UART.
use hyparm.Common.{ℕ, ◌≡◌, arith, false, List, some, Outcome, ok}
use hyparm.Devices.Tree.{Device, Functions, device_at, call_function}
use hyparm.Devices.Library.{create_hardware_library}
use hyparm.Devices.MemoryMap.{memory_map, find_row}
use hyparm.Devices.Routing.{answer}
use hyparm.Devices.Places.{create_hardware_library_lem}

-- The device is told by its place.
abbrev place : Functions → ℕ → Outcome (Functions × ℕ)
place f start_address = ok (f, start_address)

create_hardware_library_lem_example :
    (ds : List Device) × (create_hardware_library false false false ≡ some ds)
    × (call_function (λ f dev. place f (device_at ds dev).start_address_mapped) 6 ds 0 0x4902_0014
        ≡ answer place (find_row (memory_map false false false) 0x4902_0014))
create_hardware_library_lem_example =
    create_hardware_library_lem false false false place 0x4902_0014 (omega arith)
