-- ===== src/Scan/Linking.antt =====
-- Branches between translated blocks: where they go, and that unlinking takes them away.
use hyparm.Common.{
  same_or_apart, ℕ, ◌+◌, ◌-◌, ◌*◌, ◌/◌, ◌%◌, ◌^◌, ◌≤◌, ◌<◌, ◌≡◌, ◌≢◌, refl, sym, ◌∙◌, arith, bit_or,
  true, false, ◌==◌, ltb, if◌then◌else◌, Bool-cases, ◌⊎◌, inl, inr, Option, none, some,
}
use hyparm.Bits.{bit_and_mask, bit_or_low}
use hyparm.Memory.{Memory, update_self, update_ne}
use hyparm.Blocks.Store.{BasicBlock, BlockInfo, get_block_info}
use hyparm.Blocks.Translations.{TranslationStore, last_instr_of_host_block, instr_swi, unlink_block}
use hyparm.Scan.Translator.{branch_word, put_branch, mark_group, link_to, link_if, link_block}

-- How the processor reads a branch (ARM A1 encoding of B): the condition, the opcode, and where it
-- goes from a place.
abbrev pub branch_destination : (location word : ℕ) → ℕ
branch_destination location word =
    let imm24 = word % 2 ^ 24 in
    let extended = if ltb imm24 (2 ^ 23) then imm24 * 4 else imm24 * 4 + 2 ^ 32 - 2 ^ 26 in
    (location + 8 + extended) % 2 ^ 32

-- The distance of a branch, modulo 2 ^ 32.
abbrev pub distance : (location target : ℕ) → ℕ
distance location target = (target + 2 ^ 32 - (location + 8) % 2 ^ 32) % 2 ^ 32

branch_word-sum :
    (location target c : ℕ)
    → c < 16
    → branch_word location target (c * 2 ^ 28)
      ≡ (c * 16 + 10) * 2 ^ 24 + distance location target / 4 % 2 ^ 24
unfolding branch_word
branch_word-sum location target c h =
    let top : bit_or (c * 2 ^ 28) 0x0a00_0000 ≡ (c * 16 + 10) * 2 ^ 24 =
      omega (arith, bit_or_low 28 c 0x0a00_0000 (omega arith)) in
    let imm = distance location target / 2 ^ 2 in
    rw (top, bit_and_mask 24 imm) (bit_or_low 24 (c * 16 + 10) (imm % 2 ^ 24) (omega arith))

-- `putBranch` between multiples of four that are less than 32 MB apart, with a condition, writes a
-- branch with that condition, and the processor goes to the target by it.
pub branch_word_lem :
    (location target c : ℕ)
    → location < 2 ^ 32
    → target < 2 ^ 32
    → location % 4 ≡ 0
    → target % 4 ≡ 0
    → c < 16
    → (distance location target < 2 ^ 25) ⊎ (2 ^ 32 - 2 ^ 25 ≤ distance location target)
    → let word = branch_word location target (c * 2 ^ 28) in
      (word / 2 ^ 28 ≡ c) × (word / 2 ^ 24 % 16 ≡ 10) × (branch_destination location word ≡ target)
branch_word_lem location target c hl ht al at hc near =
    let d = distance location target in
    let word = (c * 16 + 10) * 2 ^ 24 + d / 4 % 2 ^ 24 in
    let imm : word % 2 ^ 24 ≡ d / 4 % 2 ^ 24 = omega arith in
    let arrives : (location + 8 + d) % 2 ^ 32 ≡ target = omega arith in
    let goes : branch_destination location word ≡ target = elim near [
      | inl forwards ↦
          (let low : ltb (word % 2 ^ 24) (2 ^ 23) ≡ true = ground arith in
            let whole : word % 2 ^ 24 * 4 ≡ d = omega arith in rw (low, whole) arrives)
      | inr backwards ↦
          (let high : ltb (word % 2 ^ 24) (2 ^ 23) ≡ false = ground arith in
            let whole : word % 2 ^ 24 * 4 + 2 ^ 32 - 2 ^ 26 ≡ d = omega arith in
            rw (high, whole) arrives)
    ] in
    rw (branch_word-sum location target c hc) (omega arith, omega arith, goes)

-- The fields that a link keeps.
abbrev SameCode : (b b' : BasicBlock) → Type 0
SameCode b b' =
    (b'.one_hypercall ≡ b.one_hypercall)
    × (last_instr_of_host_block b' ≡ last_instr_of_host_block b)

mark_group-SameCode :
    (ts : TranslationStore) (j i : ℕ)
    → SameCode (ts.basic_block_store i) ((mark_group ts j).basic_block_store i)
mark_group-SameCode ts j i = elim (Bool-cases (i == j)) [
  | inl e ↦ rw e (refl, refl)
  | inr e ↦ rw e (refl, refl)
]

-- A store that differs at the last hypercall only, with that block's code in place.
abbrev Linked : (ts ts' : TranslationStore) (last_index : ℕ) → Type 0
Linked ts ts' last_index =
    SameCode (ts.basic_block_store last_index) (ts'.basic_block_store last_index)
    × ((a : ℕ)
        → last_instr_of_host_block (ts.basic_block_store last_index) ≢ a
        → ts'.words a ≡ ts.words a)

link_to-Linked :
    (guest : Memory ℕ) (ts : TranslationStore) (next_index last_index : ℕ)
    → let last = last_instr_of_host_block (ts.basic_block_store last_index) in
      Linked ts (link_to guest ts next_index last last_index) last_index
unfolding link_to put_branch
link_to-Linked guest ts next_index last_index =
    let last = last_instr_of_host_block (ts.basic_block_store last_index) in
    let (single, place) = mark_group-SameCode ts last_index last_index in
    let (single2, place2) = mark_group-SameCode (mark_group ts last_index) next_index last_index in
    ((single2 ∙ single, place2 ∙ place), λ a ne. update_ne ts.words last _ a ne)

link_if-Linked :
    (guest : Memory ℕ) (ts : TranslationStore) (found : Option BlockInfo) (last_index : ℕ)
    → let last = last_instr_of_host_block (ts.basic_block_store last_index) in
      Linked ts (link_if guest ts found last last_index) last_index
unfolding link_if
link_if-Linked guest ts none last_index = ((refl, refl), λ a ne. refl)
link_if-Linked guest ts (some info) last_index = elim (Bool-cases info.block_found) [
  | inl e ↦ rw e (link_to-Linked guest ts info.block_index last_index)
  | inr e ↦ rw e ((refl, refl), λ a ne. refl)
]

unlink_block-Linked :
    (ts ts' : TranslationStore) (last_index : ℕ)
    → let last = last_instr_of_host_block (ts.basic_block_store last_index) in
      Linked ts ts' last_index
      → (ts.basic_block_store last_index).one_hypercall ≡ true
      → ts.words last ≡ bit_or instr_swi ((last_index + 0x100) % 2 ^ 32)
      → (a : ℕ) → (unlink_block ts' last_index).words a ≡ ts.words a
unfolding unlink_block
unlink_block-Linked ts ts' last_index ((single, place), others) one call a =
    let last = last_instr_of_host_block (ts.basic_block_store last_index) in
    let hypercall = bit_or instr_swi ((last_index + 0x100) % 2 ^ 32) in
    let alone = single ∙ one in
    rw (place, alone)
      (elim (same_or_apart last a) [
        | inl e ↦ rw (← e) (update_self ts'.words last hypercall ∙ sym call)
        | inr ne ↦ update_ne ts'.words last hypercall a ne ∙ others a ne
      ])

-- A link at the hypercall of a block that ends with one hypercall is taken back by `unlinkBlock`: if
-- the word there was the hypercall with the block's index, each word of memory is again what it was.
-- While the link is there, each word but that one is what it was.
pub unlink_block-link_block :
    (guest : Memory ℕ) (ts : TranslationStore) (next_pc last_index : ℕ)
    → let last = last_instr_of_host_block (ts.basic_block_store last_index) in
      let linked = link_block guest ts next_pc last last_index in
      (ts.basic_block_store last_index).one_hypercall ≡ true
      → ts.words last ≡ bit_or instr_swi ((last_index + 0x100) % 2 ^ 32)
      → ((a : ℕ) → last ≢ a → linked.words a ≡ ts.words a)
        × ((a : ℕ) → (unlink_block linked last_index).words a ≡ ts.words a)
unfolding link_block
unlink_block-link_block guest ts next_pc last_index single call =
    let linked = link_if-Linked guest ts (get_block_info ts.basic_block_store next_pc) last_index in
    (linked.1, unlink_block-Linked ts _ last_index linked single call)
