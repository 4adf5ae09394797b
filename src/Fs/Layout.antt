-- ===== src/Fs/Layout.antt =====
-- The constants of oscdfs/include/oscdfs.h.
use ostd_final.Common.{ℕ}

abbrev pub block_size : ℕ
block_size = 4096

abbrev pub total_blocks : ℕ
total_blocks = 2048

abbrev pub total_inodes : ℕ
total_inodes = 128

abbrev pub magic : ℕ
magic = 0x4F534344
