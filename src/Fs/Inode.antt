-- ===== src/Fs/Inode.antt =====
-- oscdfs/src/inode.c, the inode table: blocks 4 to 7 hold the inodes one behind the other.
pub mod Table
pub mod Succeeds
use ostd_final.Common.{ℕ, ◌+◌, ◌*◌, ◌/◌, ◌%◌, leb, ltb}
use ostd_final.Common.Exec.{pure, guard, in_bounds, ◌>>=◌, ◌>>◌, exit_on_fail}
use ostd_final.Fs.Layout.{total_inodes, block_size}
use ostd_final.Fs.Bytes.{Block, zero_block, load32, store32, put_bytes, from_byte, words}
use ostd_final.Fs.State.{Device, Cmd}
use ostd_final.Fs.Disk.{read_block, write_block}

-- struct oscdfs_inode
pub record Inode : Type 0 where
  pub mode : ℕ
  pub uid : ℕ
  pub gid : ℕ
  pub size : ℕ
  pub ctime : ℕ
  pub atime : ℕ
  pub mtime : ℕ
  pub blocks : ℕ → ℕ
  pub indirect : ℕ
  pub double_indirect : ℕ
  pub triple_indirect : ℕ
  pub reserved : Block

-- sizeof(struct oscdfs_inode): 7 + 12 + 3 + 12 words
abbrev pub inode_bytes : ℕ
inode_bytes = 136

-- the structure at the start of a buffer
abbrev pub decode_inode : Block → Inode
decode_inode b = record {
  mode = load32 b 0;
  uid = load32 b 4;
  gid = load32 b 8;
  size = load32 b 12;
  ctime = load32 b 16;
  atime = load32 b 20;
  mtime = load32 b 24;
  blocks = λ i. load32 b (28 + 4 * i);
  indirect = load32 b 76;
  double_indirect = load32 b 80;
  triple_indirect = load32 b 84;
  reserved = from_byte b 88;
}

-- the bytes of the structure
unfoldable pub encode_inode : Inode → Block
encode_inode ino =
    let b = put_bytes zero_block 28 48 (words ino.blocks) in
    let b = put_bytes b 88 48 ino.reserved in
    let b = store32 b 0 ino.mode in
    let b = store32 b 4 ino.uid in
    let b = store32 b 8 ino.gid in
    let b = store32 b 12 ino.size in
    let b = store32 b 16 ino.ctime in
    let b = store32 b 20 ino.atime in
    let b = store32 b 24 ino.mtime in
    let b = store32 b 76 ino.indirect in
    let b = store32 b 80 ino.double_indirect in store32 b 84 ino.triple_indirect

-- `INODE_TABLE_START + offset / OSCDFS_BLOCK_SIZE`
abbrev pub inode_block : ℕ → ℕ
inode_block n = 4 + n * inode_bytes / block_size

-- `offset % OSCDFS_BLOCK_SIZE`
abbrev pub inode_offset : ℕ → ℕ
inode_offset n = n * inode_bytes % block_size

module _ ⦃dev : Device⦄ where
  -- The copy must not run past the end of the 4096-byte buffer.
  unfoldable pub read_inode : ℕ → Cmd Inode
  read_inode n = do
    guard (ltb n total_inodes)
    buf ← read_block (inode_block n)
    in_bounds (leb (inode_offset n + inode_bytes) block_size)
    pure (decode_inode (from_byte buf (inode_offset n)))

  unfoldable pub write_inode : ℕ → Inode → Cmd (Unit {0})
  write_inode n ino = do
    guard (ltb n total_inodes)
    buf ← read_block (inode_block n)
    in_bounds (leb (inode_offset n + inode_bytes) block_size)
    write_block (inode_block n) (put_bytes buf (inode_offset n) inode_bytes (encode_inode ino))

  unfoldable pub inode_init : (n mode uid gid : ℕ) → Cmd (Unit {0})
  inode_init n mode uid gid s =
      let now = dev.time s.writes in
      exit_on_fail (
        write_inode n
          (record {
            mode = mode;
            uid = uid;
            gid = gid;
            size = 0;
            ctime = now;
            atime = now;
            mtime = now;
            blocks = λ i. 0;
            indirect = 0;
            double_indirect = 0;
            triple_indirect = 0;
            reserved = zero_block;
          })
          s)
