-- ===== src/Access.antt =====
-- `ACCESS_SIZE` of src/common/types.h.
pub data AccessSize : Type 0 where
  byte halfword word : AccessSize
