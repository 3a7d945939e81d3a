-- ===== src/Devices/MemoryMap.antt =====
-- The physical addresses of the OMAP35xx by its memory map, for a guest with all devices emulated:
-- the ranges and what answers there, independent of the tree.
use hyparm.Common.{ℕ, Bool, ◌&&◌, leb, if◌then◌else◌, List, [], ◌∷◌, ◌++◌, Option, none, some}
use hyparm.Devices.Tree.{
  Functions, generic, sram_internal, gpmc, protection_mechanism, sms, sdrc, sys_ctrl_module,
  clock_manager, sdma, uart, i2c, mmc, intc, prm, control_module, gpio, wd_timer2, gp_timer,
  timer32k, sdram, profiler_int,
}

pub record Range : Type 0 where
  pub first : ℕ
  pub last : ℕ
  pub functions : Functions

abbrev pub row : ℕ → ℕ → Functions → Range
row first last functions = record { first = first; last = last; functions = functions }

-- CONFIG_HW_PASSTHROUGH leaves the devices to the hardware, CONFIG_MMC_GUEST_ACCESS adds some, and
-- CONFIG_PROFILER one. The boot ROMs have no functions of their own.
module _ (hw_passthrough mmc_guest_access profiler : Bool) where
  abbrev emulated : List Range → List Range
  emulated rows = if hw_passthrough then [] else rows

  abbrev pub memory_map : List Range
  memory_map =
      (row 0x4000_0000 0x4001_3fff generic
        ∷ row 0x4001_4000 0x4001_bfff generic
        ∷ row 0x4020_0000 0x4020_ffff sram_internal
        ∷ row 0x6e00_0000 0x6eff_ffff gpmc
        ∷ row 0x6801_0000 0x6801_43ff protection_mechanism
        ∷ row 0x6c00_0000 0x6cff_ffff sms
        ∷ row 0x6d00_0000 0x6dff_ffff sdrc
        ∷ [])
      ++ emulated (
          row 0x4800_2000 0x4800_3fff sys_ctrl_module
          ∷ row 0x4800_4000 0x4800_7fff clock_manager
          ∷ row 0x4805_6000 0x4805_7fff sdma
          ∷ [])
      ++ (row 0x4806_a000 0x4806_bfff uart ∷ row 0x4806_c000 0x4806_dfff uart ∷ [])
      ++ emulated (
          (if mmc_guest_access
            then row 0x4807_0000 0x4807_007f i2c
              ∷ row 0x4807_2000 0x4807_207f i2c
              ∷ row 0x4806_0000 0x4806_007f i2c
              ∷ row 0x4809_c000 0x4809_dfff mmc
              ∷ row 0x480b_4000 0x480b_5fff mmc
              ∷ row 0x480a_d000 0x480a_efff mmc
              ∷ []
            else [])
          ++ row 0x4820_0000 0x4820_1fff intc
            ∷ row 0x4830_6000 0x4830_9fff prm
            ∷ row 0x4830_a000 0x4830_bfff control_module
            ∷ row 0x4831_0000 0x4831_1fff gpio
            ∷ row 0x4831_4000 0x4831_5fff wd_timer2
            ∷ row 0x4831_8000 0x4831_9fff gp_timer
            ∷ row 0x4832_0000 0x4832_1fff timer32k
            ∷ [])
      ++ (if profiler then row 0x4800_0000 0x4800_1fff profiler_int ∷ [] else [])
      ++ row 0x4902_0000 0x4902_1fff uart
        ∷ emulated (
            row 0x4905_0000 0x4905_1fff gpio
            ∷ row 0x4905_2000 0x4905_3fff gpio
            ∷ row 0x4905_4000 0x4905_5fff gpio
            ∷ row 0x4905_6000 0x4905_7fff gpio
            ∷ row 0x4905_8000 0x4905_9fff gpio
            ∷ [])
      ++ row 0x8000_0000 0xbfff_ffff sdram ∷ []

-- The row of an address.
abbrev pub find_row : List Range → ℕ → Option Range
find_row [] address = none
find_row (r ∷ rows) address =
    let rest = find_row rows address in
    if leb r.first address && leb address r.last then some r else rest
