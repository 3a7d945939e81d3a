-- ===== src/Devices/Library.antt =====
-- `createHardwareLibrary`: the devices in the order of their making, which fails as soon as one
-- fails. The parts by interconnect; the devices' `init` functions are not part of the tree.
use hyparm.Common.{ℕ, ◌+◌, ◌-◌, Bool, true, false, if◌then◌else◌, List, [], Option, none, some}
use hyparm.Devices.Tree.{
  Device, Functions, create_device, generic, sram_internal, gpmc, protection_mechanism, sms, sdrc,
  sys_ctrl_module, clock_manager, sdma, uart, i2c, mmc, intc, prm, control_module, gpio, wd_timer2,
  gp_timer, timer32k, sdram, profiler_int,
}

infixl 5 ◌>>=◌
abbrev ◌>>=◌ : {A B : Type 0} → Option A → (A → Option B) → Option B
none >>= f = none
some a >>= f = f a

-- An end device at its place and of its size.
unfoldable pub end_device :
    (place size : ℕ) → (parent : ℕ) → Functions → List Device → Option (List Device)
unfolding create_device
end_device place size parent functions devices = do
  (dev, made) ← create_device devices false place (place + size - 1) (some parent) functions
  some made

unfoldable pub bus_device : (place size : ℕ) → (parent : ℕ) → List Device → Option (ℕ × List Device)
unfolding create_device
bus_device place size parent devices =
    create_device devices true place (place + size - 1) (some parent) generic

unfoldable pub on_chip_memory : (q1_bus : ℕ) → List Device → Option (List Device)
unfolding end_device bus_device
on_chip_memory q1_bus d0 = do
  (memory, d1) ← bus_device 0x4000_0000 0x0800_0000 q1_bus d0
  d2 ← end_device 0x4000_0000 0x0001_4000 memory generic d1
  d3 ← end_device 0x4001_4000 0x0000_8000 memory generic d2
  end_device 0x4020_0000 0x0001_0000 memory sram_internal d3

unfoldable pub l3_interconnect : (q1_bus : ℕ) → List Device → Option (List Device)
unfolding end_device bus_device
l3_interconnect q1_bus d0 = do
  (l3, d1) ← bus_device 0x6800_0000 0x0800_0000 q1_bus d0
  d2 ← end_device 0x6e00_0000 0x0100_0000 l3 gpmc d1
  d3 ← end_device 0x6801_0000 0x0000_4400 l3 protection_mechanism d2
  d4 ← end_device 0x6c00_0000 0x0100_0000 l3 sms d3
  end_device 0x6d00_0000 0x0100_0000 l3 sdrc d4

-- CONFIG_MMC_GUEST_ACCESS
unfoldable pub i2c_and_mmc : (l4_int_core : ℕ) → List Device → Option (List Device)
unfolding end_device
i2c_and_mmc core d0 = do
  d1 ← end_device 0x4807_0000 0x80 core i2c d0
  d2 ← end_device 0x4807_2000 0x80 core i2c d1
  d3 ← end_device 0x4806_0000 0x80 core i2c d2
  d4 ← end_device 0x4809_c000 0x2000 core mmc d3
  d5 ← end_device 0x480b_4000 0x2000 core mmc d4
  end_device 0x480a_d000 0x2000 core mmc d5

module _ (hw_passthrough mmc_guest_access profiler : Bool) where
  unfoldable pub l4_core : (l4_interconnect : ℕ) → List Device → Option (ℕ × List Device)
  unfolding end_device bus_device i2c_and_mmc
  l4_core l4_interconnect d0 = do
    (core, d1) ← bus_device 0x4800_0000 0x0100_0000 l4_interconnect d0
    let emulated = (do
      e1 ← end_device 0x4800_2000 0x2000 core sys_ctrl_module d1
      e2 ← end_device 0x4800_4000 0x4000 core clock_manager e1
      end_device 0x4805_6000 0x2000 core sdma e2)
    d2 ← (if hw_passthrough then some d1 else emulated)
    d3 ← end_device 0x4806_a000 0x2000 core uart d2
    d4 ← end_device 0x4806_c000 0x2000 core uart d3
    let controllers = (do
      e1 ← (if mmc_guest_access then i2c_and_mmc core d4 else some d4)
      end_device 0x4820_0000 0x2000 core intc e1)
    d5 ← (if hw_passthrough then some d4 else controllers)
    some (core, d5)

  unfoldable pub l4_core_wakeup : (l4_int_core : ℕ) → List Device → Option (List Device)
  unfolding end_device bus_device
  l4_core_wakeup core d0 = do
    (wakeup, d1) ← bus_device 0x4830_0000 0x0004_0fff core d0
    let emulated = (do
      e1 ← end_device 0x4830_6000 0x4000 wakeup prm d1
      e2 ← end_device 0x4830_a000 0x2000 wakeup control_module e1
      e3 ← end_device 0x4831_0000 0x2000 wakeup gpio e2
      e4 ← end_device 0x4831_4000 0x2000 wakeup wd_timer2 e3
      e5 ← end_device 0x4831_8000 0x2000 wakeup gp_timer e4
      end_device 0x4832_0000 0x2000 wakeup timer32k e5)
    (if hw_passthrough then some d1 else emulated)

  unfoldable pub l4_peripherals : (l4_interconnect : ℕ) → List Device → Option (List Device)
  unfolding end_device bus_device
  l4_peripherals l4_interconnect d0 = do
    (per, d1) ← bus_device 0x4900_0000 0x0010_0000 l4_interconnect d0
    d2 ← end_device 0x4902_0000 0x2000 per uart d1
    let emulated = (do
      e1 ← end_device 0x4905_0000 0x2000 per gpio d2
      e2 ← end_device 0x4905_2000 0x2000 per gpio e1
      e3 ← end_device 0x4905_4000 0x2000 per gpio e2
      e4 ← end_device 0x4905_6000 0x2000 per gpio e3
      end_device 0x4905_8000 0x2000 per gpio e4)
    (if hw_passthrough then some d2 else emulated)

  -- The top level bus is device 0.
  unfoldable pub create_hardware_library : Option (List Device)
  unfolding create_device end_device bus_device on_chip_memory l3_interconnect l4_core
      l4_core_wakeup l4_peripherals
  create_hardware_library = do
    (top, d0) ← create_device [] true 0 0xffff_ffff none generic
    (q0, d1) ← bus_device 0 0x4000_0000 top d0
    (q1, d2) ← bus_device 0x4000_0000 0x4000_0000 top d1
    d3 ← on_chip_memory q1 d2
    d4 ← l3_interconnect q1 d3
    (l4, d5) ← bus_device 0x4800_0000 0x0800_0000 q1 d4
    (core, d6) ← l4_core l4 d5
    d7 ← l4_core_wakeup core d6
    d8 ← l4_peripherals l4 d7
    (q2, d9) ← bus_device 0x8000_0000 0x4000_0000 top d8
    d10 ← end_device 0x8000_0000 0x4000_0000 q2 sdram d9
    (q3, d11) ← bus_device 0xc000_0000 0x4000_0000 top d10
    (if profiler then end_device 0x4800_0000 0x2000 core profiler_int d11 else some d11)
