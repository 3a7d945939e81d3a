-- ===== src/Blocks/Placing.antt =====
-- Filling a free entry of the block store: what the search answers afterwards.
use hyparm.Common.{inl, ℕ, ◌≡◌, ◌≢◌, refl, arith, true, false, some}
use hyparm.Memory.{Memory, update, update_self, update_ne}
use hyparm.Blocks.Store.{BasicBlock, is_valid, get_block_info}
use hyparm.Blocks.Lookup.{Holds, get_block_info-IsAnswer, get_block_info_of_answer}

-- If the search for an address has found nothing and given an entry, and a valid block that starts
-- at the address is put there (as `scanArmBlock` does), then the search finds the block, at that
-- entry.
pub get_block_info-update :
    (store : Memory BasicBlock) (a index : ℕ) (block : BasicBlock)
    → get_block_info store a ≡ some (record { block_found = false; block_index = index })
    → is_valid block.block_type ≡ true
    → block.guest_start ≡ a
    → get_block_info (update store index block) a
      ≡ some (record { block_found = true; block_index = index })
get_block_info-update store a index block h v s =
    let t = get_block_info-IsAnswer store a h in
    get_block_info_of_answer (update store index block) a _ (record {
      from = t.from;
      below = t.below;
      passed = λ i p q. rw (update_ne store index block i (omega arith)) (t.passed i p q);
      stopped = inl (refl, (rw update_self v, rw update_self s));
    })

free-ne :
    (store : Memory BasicBlock) (i j : ℕ)
    → is_valid (store i).block_type ≡ false
    → is_valid (store j).block_type ≡ true
    → i ≢ j
free-ne store i j free held e =
    let clash : is_valid (store j).block_type ≡ false = rw (← e) free in cc

-- Filling a free entry, with whatever block, loses no other: a block that the search for an address
-- found before is found still, where it was.
pub get_block_info-update_other :
    (store : Memory BasicBlock) (a index other : ℕ) (block : BasicBlock)
    → is_valid (store index).block_type ≡ false
    → get_block_info store a ≡ some (record { block_found = true; block_index = other })
    → get_block_info (update store index block) a
      ≡ some (record { block_found = true; block_index = other })
get_block_info-update_other store a index other block free h =
    let t = get_block_info-IsAnswer store a h in
    let here : Holds store a other = ground (arith, t.stopped) in
    let apart = free-ne store index other free here.0 in
    get_block_info_of_answer (update store index block) a _ (record {
      from = t.from;
      below = t.below;
      passed = λ i p q.
          rw (update_ne store index block i (free-ne store index i free (t.passed i p q).0))
            (t.passed i p q);
      stopped = inl (refl, rw (update_ne store index block other apart) here);
    })
