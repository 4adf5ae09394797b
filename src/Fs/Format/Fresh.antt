-- ===== src/Fs/Format/Fresh.antt =====
-- A fresh image of oscdfs/src/mkfs.c against the invariants of the allocators.
use ostd_final.Common.{ℕ, ◌+◌, ◌<◌, sym, ap, ◌∙◌, true, false, not, arith, ◌-◌, bit_or, ◌≡◌, refl}
use ostd_final.Common.Exec.{ok}
use ostd_final.Fs.Bytes.{Block, zero_block, store8, load8, load32, store32, put_bytes}
use ostd_final.Fs.State.{Device, Fs}
use ostd_final.Fs.Disk.{write_block}
use ostd_final.Fs.Layout.{block_size, total_blocks, total_inodes, magic}
use ostd_final.Common.Bits.{holds_below, holds_below-at}
use ostd_final.Fs.Super.{encode_desc, super_init}
use ostd_final.Fs.Bitmap.Consistent.{IsConsistent}
use ostd_final.Fs.Bitmap.Succeeds.{IsSized, IsHealthy}
use ostd_final.Fs.Blocks.Persist.{IsFormatted}
use ostd_final.Fs.Bitmap.{is_free, block_bitmap_init, inode_bitmap_init}
use ostd_final.Fs.Bitmap.Bits.{free_count}
use ostd_final.Fs.Format.{fresh_desc, format_metadata}

-- block 0 as `super_init` writes it
super_block : Block
super_block =
    let b = store32 zero_block 0 magic in
    let b = store32 b 4 total_blocks in
    let b = store32 b 12 total_inodes in
    let b = store32 b 20 1 in
    let b = store32 b 24 block_size in
    let b = store32 b 8 (total_blocks - 10) in store32 b 16 total_inodes

block_bitmap : Block
block_bitmap = store8 (store8 zero_block 0 0xFF) 1 0x03

inode_bitmap : Block
inode_bitmap = store8 zero_block 0 (bit_or (load8 zero_block 0) 0x01)

fresh_counts :
    (free_count block_bitmap 2048 ≡ 2038)
    × (free_count inode_bitmap 128 ≡ 127)
    × (load32 super_block 8 ≡ 2038)
    × (load32 super_block 16 ≡ 128)
    × (load32 (encode_desc fresh_desc zero_block) 12 ≡ 2038)
    × (load32 (encode_desc fresh_desc zero_block) 16 ≡ 128)
unfolding free_count is_free block_bitmap inode_bitmap super_block store8 store32 load32 put_bytes
    encode_desc
fresh_counts = (refl, refl, refl, refl, refl, refl)

fresh_sizes :
    (load32 super_block 0 ≡ magic)
    × (load32 super_block 4 ≡ total_blocks)
    × (load32 super_block 12 ≡ total_inodes)
unfolding super_block store32 load32 put_bytes
fresh_sizes = (refl, refl, refl)

meta_table : holds_below 10 (λ j. not (is_free block_bitmap j)) ≡ true
unfolding holds_below is_free block_bitmap store8
meta_table = refl

meta_used : (j : ℕ) → j < 10 → is_free block_bitmap j ≡ false
meta_used j h = ground (arith, holds_below-at 10 _ j h meta_table)

module _ ⦃dev : Device⦄ where
  format_cases :
      (s s' : Fs)
      → format_metadata s ≡ (ok tt, s')
      → (s'.disk 0 ≡ super_block)
        × (s'.disk 1 ≡ encode_desc fresh_desc zero_block)
        × (s'.disk 2 ≡ block_bitmap)
        × (s'.disk 3 ≡ inode_bitmap)
  unfolding format_metadata super_init block_bitmap_init inode_bitmap_init write_block super_block
      block_bitmap inode_bitmap
  format_cases s s' h = (ground arith, ground arith, ground arith, ground arith)

  format_returns : (s : Fs) → IsHealthy dev s → (format_metadata s).0 ≡ ok tt
  unfolding format_metadata super_init block_bitmap_init inode_bitmap_init write_block
  format_returns s h = ground (
    arith,
    h.opened,
    h.writes s.writes 0,
    h.writes (s.writes + 1) 2,
    h.writes (s.writes + 1 + 1) 3,
    h.writes (s.writes + 1 + 1 + 1) 1,
  )

  -- On a healthy device the metadata of a fresh image are written, whatever was there before. They
  -- mark the ten metadata blocks as used, count the free blocks exactly, and count one free inode
  -- more than the bitmap has.
  pub format-IsConsistent :
      (s : Fs)
      → IsHealthy dev s
      → ((format_metadata s).0 ≡ ok tt)
        × IsConsistent 1 (format_metadata s).1
        × IsFormatted (format_metadata s).1
        × IsSized (format_metadata s).1
  format-IsConsistent s h =
      let r = format_returns s h in
      let s' = (format_metadata s).1 in
      let (e0, e1, e2, e3) = format_cases s s' (ap (λ o. (o, s')) r) in
      let c = fresh_counts in
      (
        r,
        record {
          super_blocks = rw (e0, e2) (c.2 ∙ sym c.0);
          desc_blocks = rw (e1, e2) (c.4 ∙ sym c.0);
          super_inodes = rw (e0, e3) (c.3 ∙ ap (λ n. n + 1) (sym c.1));
          desc_inodes = rw (e1, e3) (c.5 ∙ ap (λ n. n + 1) (sym c.1));
        },
        record { meta = λ j p. rw e2 (meta_used j p) },
        record {
          magic_number = rw e0 fresh_sizes.0;
          blocks = rw e0 fresh_sizes.1;
          inodes = rw e0 fresh_sizes.2;
        },
      )
