-- ===== src/Fs/Super/Counts.antt =====
-- What the updates of the free counts in oscdfs/src/super.c do to the image.
use ostd_final.Common.{ℕ, ◌<◌, ◌^◌, ◌≡◌, ap, ◌∙◌, ◌⊎◌, inl, inr, false, arith}
use ostd_final.Common.Exec.{ok, fail}
use ostd_final.Common.Int.{ℤ, pos, negsuc, to_int, ◌+ℤ◌, add_int}
use ostd_final.Fs.Bytes.{Block, load32, store32, put_bytes, load32_bound}
use ostd_final.Fs.State.{Device, Fs, store_block}
use ostd_final.Fs.Disk.{Failed, torn, read_block, write_block}
use ostd_final.Fs.Layout.{magic, total_blocks, total_inodes}
use ostd_final.Fs.Super.{
  Superblock, GroupDesc, decode_super, encode_super, decode_desc, encode_desc, out_of_range,
  read_superblock, write_superblock, super_update_counts, read_group_desc, write_group_desc,
  group_desc_update_counts,
}

-- A count that passes the range check moves by delta as an integer.
pub add_int-eq :
    (free total : ℕ) (delta : ℤ)
    → free < 2 ^ 32
    → out_of_range free delta total ≡ false
    → pos (add_int free delta) ≡ to_int free +ℤ delta
add_int-eq free total (pos n) h r = ground arith
add_int-eq free total (negsuc n) h r = ground arith

-- The words of a superblock that was copied into a buffer and back.
pub decode-encode_super :
    (sb : Superblock) (b : Block)
    → (sb.magic < 2 ^ 32)
    → (sb.total_blocks < 2 ^ 32)
    → (sb.free_blocks < 2 ^ 32)
    → (sb.total_inodes < 2 ^ 32)
    → (sb.free_inodes < 2 ^ 32)
    → (load32 (encode_super sb b) 0 ≡ sb.magic)
      × (load32 (encode_super sb b) 4 ≡ sb.total_blocks)
      × (load32 (encode_super sb b) 8 ≡ sb.free_blocks)
      × (load32 (encode_super sb b) 12 ≡ sb.total_inodes)
      × (load32 (encode_super sb b) 16 ≡ sb.free_inodes)
unfolding load32 store32 put_bytes encode_super
decode-encode_super sb b h0 h4 h8 h12 h16 =
    (omega arith, omega arith, omega arith, omega arith, omega arith)

add_int_bound :
    (free total : ℕ) (delta : ℤ)
    → free < 2 ^ 32
    → out_of_range free delta total ≡ false
    → add_int free delta < 2 ^ 32
add_int_bound free total (pos n) h r = ground arith
add_int_bound free total (negsuc n) h r = ground arith

-- Both free counts moved by the deltas; the other words are as before.
pub record SuperMoved (db di : ℤ) (old new : Block) : Type 0 where
  pub free_blocks : pos (load32 new 8) ≡ to_int (load32 old 8) +ℤ db
  pub free_inodes : pos (load32 new 16) ≡ to_int (load32 old 16) +ℤ di
  pub magic : load32 new 0 ≡ load32 old 0
  pub total_blocks : load32 new 4 ≡ load32 old 4
  pub total_inodes : load32 new 12 ≡ load32 old 12

pub record DescMoved (db di : ℤ) (old new : Block) : Type 0 where
  pub free_blocks_count : pos (load32 new 12) ≡ to_int (load32 old 12) +ℤ db
  pub free_inodes_count : pos (load32 new 16) ≡ to_int (load32 old 16) +ℤ di

SuperMoved-encode :
    (db di : ℤ) (b : Block)
    → out_of_range (load32 b 8) db (load32 b 4) ≡ false
    → out_of_range (load32 b 16) di (load32 b 12) ≡ false
    → SuperMoved db di b (
        encode_super
          (record (decode_super b) {
            free_blocks = add_int (load32 b 8) db;
            free_inodes = add_int (load32 b 16) di;
          })
          b)
SuperMoved-encode db di b hb hi =
    let sb : Superblock = record (decode_super b) {
      free_blocks = add_int (load32 b 8) db;
      free_inodes = add_int (load32 b 16) di;
    } in
    let fields =
      decode-encode_super sb b (load32_bound b 0) (load32_bound b 4)
        (add_int_bound _ (load32 b 4) db (load32_bound b 8) hb) (load32_bound b 12)
        (add_int_bound _ (load32 b 12) di (load32_bound b 16) hi) in
    record {
      free_blocks = ap pos fields.2 ∙ add_int-eq _ (load32 b 4) db (load32_bound b 8) hb;
      free_inodes = ap pos fields.4 ∙ add_int-eq _ (load32 b 12) di (load32_bound b 16) hi;
      magic = fields.0;
      total_blocks = fields.1;
      total_inodes = fields.3;
    }

decode-encode_desc :
    (d : GroupDesc) (b : Block)
    → (d.free_blocks_count < 2 ^ 32)
    → (d.free_inodes_count < 2 ^ 32)
    → (load32 (encode_desc d b) 12 ≡ d.free_blocks_count)
      × (load32 (encode_desc d b) 16 ≡ d.free_inodes_count)
unfolding load32 store32 put_bytes encode_desc
decode-encode_desc d b h12 h16 = (omega arith, omega arith)

DescMoved-encode :
    (db di : ℤ) (b : Block)
    → out_of_range (load32 b 12) db total_blocks ≡ false
    → out_of_range (load32 b 16) di total_inodes ≡ false
    → DescMoved db di b (
        encode_desc
          (record (decode_desc b) {
            free_blocks_count = add_int (load32 b 12) db;
            free_inodes_count = add_int (load32 b 16) di;
          })
          b)
DescMoved-encode db di b hb hi =
    let d : GroupDesc = record (decode_desc b) {
      free_blocks_count = add_int (load32 b 12) db;
      free_inodes_count = add_int (load32 b 16) di;
    } in
    let fields =
      decode-encode_desc d b (add_int_bound _ total_blocks db (load32_bound b 12) hb)
        (add_int_bound _ total_inodes di (load32_bound b 16) hi) in
    record {
      free_blocks_count = ap pos fields.0 ∙ add_int-eq _ total_blocks db (load32_bound b 12) hb;
      free_inodes_count = ap pos fields.1 ∙ add_int-eq _ total_inodes di (load32_bound b 16) hi;
    }

module _ ⦃dev : Device⦄ where
  abbrev moved_super : ℤ → ℤ → Fs → Block
  moved_super db di s =
      encode_super
        (record (decode_super (s.disk 0)) {
          free_blocks = add_int (load32 (s.disk 0) 8) db;
          free_inodes = add_int (load32 (s.disk 0) 16) di;
        })
        (s.disk 0)

  abbrev moved_desc : ℤ → ℤ → Fs → Block
  moved_desc db di s =
      encode_desc
        (record (decode_desc (s.disk 1)) {
          free_blocks_count = add_int (load32 (s.disk 1) 12) db;
          free_inodes_count = add_int (load32 (s.disk 1) 16) di;
        })
        (s.disk 1)

  super_update_counts_cases :
      (db di : ℤ) (s : Fs)
      → (super_update_counts db di s ≡ (fail, s))
        ⊎ (super_update_counts db di s ≡ (fail, store_block s 0 (torn 0 (moved_super db di s) s)))
        ⊎ ((super_update_counts db di s ≡ (ok tt, store_block s 0 (moved_super db di s)))
            × (load32 (s.disk 0) 0 ≡ magic)
            × (out_of_range (load32 (s.disk 0) 8) db (load32 (s.disk 0) 4) ≡ false)
            × (out_of_range (load32 (s.disk 0) 16) di (load32 (s.disk 0) 12) ≡ false))
  unfolding super_update_counts read_superblock write_superblock read_block write_block
  super_update_counts_cases db di s = ground arith

  group_desc_update_counts_cases :
      (db di : ℤ) (s : Fs)
      → (group_desc_update_counts db di s ≡ (fail, s))
        ⊎ (group_desc_update_counts db di s
            ≡ (fail, store_block s 1 (torn 1 (moved_desc db di s) s)))
        ⊎ ((group_desc_update_counts db di s ≡ (ok tt, store_block s 1 (moved_desc db di s)))
            × (out_of_range (load32 (s.disk 1) 12) db total_blocks ≡ false)
            × (out_of_range (load32 (s.disk 1) 16) di total_inodes ≡ false))
  unfolding group_desc_update_counts read_group_desc write_group_desc read_block write_block
  group_desc_update_counts_cases db di s = ground arith

  -- Either the call fails, with at most block 0 written, or block 0 was replaced and both counts moved.
  pub super_update_counts_lem :
      (db di : ℤ) (s : Fs)
      → Failed 0 s (super_update_counts db di s)
        ⊎ ((b : Block) × (super_update_counts db di s ≡ (ok tt, store_block s 0 b))
            × SuperMoved db di (s.disk 0) b)
  super_update_counts_lem db di s = elim (super_update_counts_cases db di s) [
    | inl e ↦ inl (inl e)
    | inr (inl e) ↦ inl (inr (_, e))
    | inr (inr (e, m, hb, hi)) ↦ inr (_, e, SuperMoved-encode db di (s.disk 0) hb hi)
  ]

  -- Either the call fails, with at most block 1 written, or block 1 was replaced and both counts moved.
  pub group_desc_update_counts_lem :
      (db di : ℤ) (s : Fs)
      → Failed 1 s (group_desc_update_counts db di s)
        ⊎ ((b : Block) × (group_desc_update_counts db di s ≡ (ok tt, store_block s 1 b))
            × DescMoved db di (s.disk 1) b)
  group_desc_update_counts_lem db di s = elim (group_desc_update_counts_cases db di s) [
    | inl e ↦ inl (inl e)
    | inr (inl e) ↦ inl (inr (_, e))
    | inr (inr (e, hb, hi)) ↦ inr (_, e, DescMoved-encode db di (s.disk 1) hb hi)
  ]

  -- `super_update_counts` and `group_desc_update_counts` fail and write to at most one block, or succeed
  -- and replace it, which is block 0 for the first and block 1 for the second; the two deltas have then been
  -- added to its counts of free blocks and inodes.
  pub update_counts_lem :
      (db di : ℤ) (s : Fs)
      → (Failed 0 s (super_update_counts db di s)
          ⊎ ((b : Block) × (super_update_counts db di s ≡ (ok tt, store_block s 0 b))
              × SuperMoved db di (s.disk 0) b))
        × (Failed 1 s (group_desc_update_counts db di s)
            ⊎ ((b : Block) × (group_desc_update_counts db di s ≡ (ok tt, store_block s 1 b))
                × DescMoved db di (s.disk 1) b))
  update_counts_lem db di s =
      (super_update_counts_lem db di s, group_desc_update_counts_lem db di s)
