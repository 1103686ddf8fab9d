-- ===== src/Memory/Entries.antt =====
-- `block_info` and the reads of `block_array`.
use tp2_so_2025q.Base.{ℕ, Bool, true, false, List, get_or}

pub data Status : Type 0 where
  free used : Status

pub record Block : Type 0 where
  pub status : Status
  pub contiguous_blocks : ℕ

abbrev pub block : Status → ℕ → Block
block s n = record { status = s; contiguous_blocks = n }

abbrev pub is_free : Status → Bool
is_free Status.free = true
is_free Status.used = false

-- The entry that `create_mm` and `free` write.
abbrev pub vacant : Block
vacant = block Status.free 0

-- What stands past the end of the array in the model. The code reads no entry there.
abbrev pub outside : Block
outside = block Status.used 0

abbrev pub status_at : List Block → ℕ → Status
status_at bs j = (get_or bs j outside).status

abbrev pub contiguous_at : List Block → ℕ → ℕ
contiguous_at bs j = (get_or bs j outside).contiguous_blocks
