-- ===== src/Bytes/Tests.antt =====
-- A memory whose bytes are their addresses.
use tp2_so_2025q.Base.{◌≡◌, refl, inl, arith}
use tp2_so_2025q.Bytes.{memset, memcpy}
use tp2_so_2025q.Bytes.Copied.{memcpy_lem}

set_byte : memset 16 0x1ff 4 (λ x. x) 19 ≡ 255
unfolding memset
set_byte = refl

memcpy_lem_example : memcpy 0 8 4 (λ x. x) 2 ≡ 10
memcpy_lem_example = memcpy_lem 0 8 4 (λ x. x) 2 (inl (omega arith))

-- Blocks that overlap: a copy of words reads what an earlier word has written.
overlap : memcpy 4 0 8 (λ x. x) 9 ≡ 1
unfolding memcpy
overlap = refl
