-- ===== src/Instr/Directions.antt =====
-- The addresses of a multiple store and of the load that goes back, and the registers between them.
use hyparm.Common.{
  ℕ, zero, suc, ◌-◌, ◌*◌, ◌^◌, bit_and, ◌≤◌, ◌<◌, ◌≡◌, refl, arith, Bool, true, false, not, ◌==◌,
  ◌&&◌, ◌||◌, ltb, leb, if◌then◌else◌, Bool-cases, same_or_apart, inl, inr, Outcome, ok,
}
use hyparm.Cpu.State.{GuestContext, mode_of}
use hyparm.Cpu.Registers.{get_gp_register}
use hyparm.Cpu.Banking.{has_bank}
use hyparm.Memory.{Memory}
use hyparm.Instr.Encoding.{flag, is_indexed, is_up}
use hyparm.Instr.Multiple.{count_ones, count_bits_set, start_address, end_address}
use hyparm.Instr.Ram.{register}
use hyparm.Instr.Saving.{Holds, advance, register-ok}
use hyparm.Instr.Loading.{is_loaded}

pub count_ones_bound : (fuel w : ℕ) → count_ones fuel w ≤ fuel
unfolding count_ones
count_ones_bound zero w = omega arith
count_ones_bound (suc fuel) w =
    let h = count_ones_bound fuel (bit_and w (w - 1)) in ground (arith, h)

pub count_bits_set_bound : (w : ℕ) → count_bits_set w ≤ 32
unfolding count_bits_set
count_bits_set_bound w = count_ones_bound 32 w

-- The two directions meet: where one starts the other does, and the base comes back.
pub start_address_back :
    (push pop base count : ℕ)
    → is_up pop ≡ not (is_up push)
    → is_indexed pop ≡ not (is_indexed push)
    → base < 2 ^ 32
    → count ≤ 32
    → start_address pop (end_address push base (4 * count)) count ≡ start_address push base count
start_address_back push pop base count up indexed small h = elim (Bool-cases (is_up push)) [
  | inl u ↦ elim (Bool-cases (is_indexed push)) [
    | inl x ↦ rw (up, indexed, u, x) (omega (arith, small, h))
    | inr x ↦ rw (up, indexed, u, x) (omega (arith, small, h))
  ]
  | inr u ↦ elim (Bool-cases (is_indexed push)) [
    | inl x ↦ rw (up, indexed, u, x) (omega (arith, small, h))
    | inr x ↦ rw (up, indexed, u, x) (omega (arith, small, h))
  ]
]

pub end_address_back :
    (push pop base count : ℕ)
    → is_up pop ≡ not (is_up push)
    → base < 2 ^ 32
    → count ≤ 32
    → end_address pop (end_address push base (4 * count)) (4 * count) ≡ base
end_address_back push pop base count up small h = elim (Bool-cases (is_up push)) [
  | inl u ↦ rw (up, u) (omega (arith, small, h))
  | inr u ↦ rw (up, u) (omega (arith, small, h))
]

pub start_address-small :
    (instr base count : ℕ) → base < 2 ^ 32 → start_address instr base count < 2 ^ 32
start_address-small instr base count h = ground (arith, h)

pub Holds-init :
    (left registers i address : ℕ) (m : Memory ℕ) (values : ℕ → ℕ)
    → Holds (suc left) registers i address m values
    → Holds left registers i address m values
Holds-init zero registers i address m values h = tt
Holds-init (suc left) registers i address m values (first, rest) =
    (first, Holds-init left registers (suc i) (advance registers i address) m values rest)

pub test_self : (n : ℕ) → (n == n) ≡ true
test_self n = ground arith

pub is_loaded-all : (registers m : ℕ) → m < 15 → is_loaded 15 registers 0 m ≡ flag m registers
is_loaded-all registers m h = let e : (leb 0 m && ltb m 15) ≡ true = ground (arith, h) in rw e refl

pub or_true : (b : Bool) → (b || true) ≡ true
or_true true = refl
or_true false = refl

pub same_value :
    {r r' registers registers' base base' : ℕ}
    → r ≡ r'
    → registers ≡ registers'
    → base ≡ base'
    → (n : ℕ) (x y : Outcome ℕ)
    → (if r == n then ok base else if flag n registers then x else y)
      ≡ (if r' == n then ok base' else if flag n registers' then x else y)
same_value r_same registers_same base_same n x y = rw (r_same, registers_same, base_same) refl

-- The value of a register of the list, or of the base, in the words of both systems.
pub back_again :
    (c d : GuestContext) (registers base n : ℕ)
    → has_bank (mode_of c.cpsr) ≡ true
    → n < 15
    → (if base == n
        then ok (register c base)
        else if flag n registers
        then ok (register c n)
        else get_gp_register false d n)
      ≡ get_gp_register false (if flag n registers || base == n then c else d) n
back_again c d registers base n banked h = elim (same_or_apart base n) [
  | inl e ↦
      rw (e, test_self n, or_true (flag n registers), register-ok c n banked (omega (arith, h)))
        refl
  | inr e ↦
      let apart : (base == n) ≡ false = ground (arith, e) in
      elim (Bool-cases (flag n registers)) [
        | inl f ↦ rw (apart, f, register-ok c n banked (omega (arith, h))) refl
        | inr f ↦ rw (apart, f) refl
      ]
]
