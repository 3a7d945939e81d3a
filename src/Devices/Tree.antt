-- ===== src/Devices/Tree.antt =====
-- The devices of src/vm/types.h, their making (`createDevice` and `attachDevice`), and the generic
-- load and store functions. A device is known by its number in the order of creation. `parentDevice`
-- is never read, and left out.
use hyparm.Common.{
  ℕ, zero, suc, Bool, true, false, not, ◌&&◌, leb, if◌then◌else◌, List, [], ◌∷◌, ◌++◌, Option, none,
  some, length, get_or, set, Outcome, die, no_child, no_load_function, endless,
}

-- Whose load and store functions a device has; `generic` are loadGeneric and storeGeneric.
pub data Functions : Type 0 where
  generic sram_internal gpmc protection_mechanism sms sdrc sys_ctrl_module clock_manager : Functions
  sdma uart i2c mmc intc prm control_module gpio wd_timer2 gp_timer timer32k sdram : Functions
  profiler_int : Functions

pub record Device : Type 0 where
  pub is_bus : Bool
  pub start_address_mapped : ℕ
  pub end_address_mapped : ℕ
  pub attached_devices : List ℕ
  pub functions : Functions

-- What no number of a created device finds.
abbrev no_device : Device
no_device = record {
  is_bus = false;
  start_address_mapped = 1;
  end_address_mapped = 0;
  attached_devices = [];
  functions = generic;
}

abbrev pub device_at : List Device → ℕ → Device
device_at devices n = get_or devices n no_device

-- `attachDevice(parent, child)`; `none` is FALSE.
unfoldable pub attach_device : List Device → (parent child : ℕ) → Option (List Device)
attach_device devices parent child =
    let p = device_at devices parent in
    let c = device_at devices child in
    let attached =
      set devices parent (record p { attached_devices = p.attached_devices ++ child ∷ [] }) in
    if not p.is_bus
    then none
    else if leb p.start_address_mapped c.start_address_mapped
        && leb c.end_address_mapped p.end_address_mapped
    then some attached
    else none

-- `createDevice`: the device's number; `none` is NULL.
unfoldable pub create_device :
    List Device
    → (is_bus : Bool) (start_address end_address : ℕ) → (parent : Option ℕ) → Functions
    → Option (ℕ × List Device)
unfolding attach_device
create_device devices is_bus start_address end_address parent functions =
    let n = length devices in
    let made : Device = record {
      is_bus = is_bus;
      start_address_mapped = start_address;
      end_address_mapped = end_address;
      attached_devices = [];
      functions = functions;
    } in
    elim parent [
      | none ↦ some (n, devices ++ made ∷ [])
      | some p ↦ elim (attach_device (devices ++ made ∷ []) p n) [
        | none ↦ none
        | some attached ↦ some (n, attached)
      ]
    ]

abbrev pub is_address_in_device : ℕ → Device → Bool
is_address_in_device address dev =
    leb dev.start_address_mapped address && leb address dev.end_address_mapped

-- The loop over the attached devices: the first with the address.
unfoldable pub find_attached : List Device → (attached : List ℕ) (phy_addr : ℕ) → Option ℕ
find_attached devices [] phy_addr = none
find_attached devices (index ∷ attached) phy_addr =
    let rest = find_attached devices attached phy_addr in
    if is_address_in_device phy_addr (device_at devices index) then some index else rest

-- The test of a function pointer against loadGeneric and storeGeneric.
abbrev pub is_generic : Functions → Bool
is_generic generic = true
is_generic _ = false

-- `dev->loadFunction(...)` or `dev->storeFunction(...)`: `own` are the devices' own functions, and
-- the generic ones go on in the tree. The fuel is the depth of the tree.
unfoldable pub call_function :
    {A : Type 0}
    → (own : Functions → (dev : ℕ) → Outcome A) → (fuel : ℕ) → List Device
    → (dev phy_addr : ℕ) → Outcome A
unfolding find_attached
call_function own zero devices dev phy_addr = die endless
call_function own (suc fuel) devices dev phy_addr =
    let d = device_at devices dev in
    let through : Outcome _ = elim (find_attached devices d.attached_devices phy_addr) [
      | none ↦ die no_child
      | some child ↦ call_function own fuel devices child phy_addr
    ] in
    let own_or_generic = if d.is_bus then through else die no_load_function in
    if is_generic d.functions then own_or_generic else own d.functions dev
