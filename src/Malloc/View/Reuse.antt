-- ===== src/Malloc/View/Reuse.antt =====
-- `mm_malloc` after `mm_free`: the block that was freed is used again.
use itu_operating_systems_an.Malloc.Machine.{Machine}
use itu_operating_systems_an.Malloc.Tiling.{Block}
