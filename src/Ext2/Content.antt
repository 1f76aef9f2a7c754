-- ===== src/Ext2/Content.antt =====
-- The bytes of a file in fs/ext2.c, read and written through its blocks.
pub mod Reading
use whirliscope.Prelude.{
  ℕ, zero, suc, ◌+◌, ◌-◌, ◌*◌, ◌/◌, ◌%◌, ◌^◌, Bool, true, false, not, ◌&&◌, ◌||◌, Option, none,
  some, ltb, leb, ◌==◌, if◌then◌else◌,
}
use whirliscope.Libc.Memory.{Memory, within}
use whirliscope.Ext2.Inode.{Inode}
use whirliscope.Ext2.Inode
use whirliscope.Ext2.Image.{Ext2, with_image, block_ptr}
use whirliscope.Ext2.Blocks.{block_id_at, ensure_file_block}

-- The buffer `out` with `len` bytes from number `at` on: noughts, or those from `src` on.
abbrev pub fill_bytes : (at len : ℕ) → Memory → Memory
fill_bytes at len out i = if within at len i then 0 else out i

abbrev pub put_bytes : (at src len : ℕ) → Memory → Memory → Memory
put_bytes at src len from out i = if within at len i then from (src + (i - at)) else out i

-- The part of a block that one round of a loop over `left` bytes takes.
abbrev pub chunk_of : (block_size file_offset left : ℕ) → ℕ
chunk_of block_size file_offset left =
    let chunk = block_size - file_offset % block_size in if ltb left chunk then left else chunk

-- The loop of read_inode_bytes, with `left` bytes to copy behind `copied`; the buffer is indexed
-- from 0. The result none stands for false. A round copies one byte at least, so that as many rounds
-- as bytes are enough; no rounds left is none too.
unfoldable pub read_loop : (rounds left copied offset : ℕ) → Inode → Ext2 → Memory → Option Memory
read_loop zero left copied offset inode fs out = if left == 0 then some out else none
read_loop (suc k) left copied offset inode fs out =
    let file_offset = offset + copied in
    let disk_block = block_id_at inode (file_offset / fs.block_size % 2 ^ 32) fs in
    let chunk = chunk_of fs.block_size file_offset left in
    let hole =
      read_loop k (left - chunk) (copied + chunk) offset inode fs (fill_bytes copied chunk out) in
    let read =
      elim (block_ptr disk_block (file_offset % fs.block_size) chunk fs) as (λ _. Option Memory) [
        | none ↦ none
        | some src ↦
            read_loop k (left - chunk) (copied + chunk) offset inode fs
              (put_bytes copied src chunk fs.image out)
      ] in
    if left == 0 then some out else if disk_block == 0 then hole else read

unfoldable pub read_inode_bytes : (offset len : ℕ) → Inode → Ext2 → Memory → Option Memory
read_inode_bytes offset len inode fs out =
    if ltb (Inode.size inode) offset || ltb (Inode.size inode - offset) len
    then none
    else read_loop len len 0 offset inode fs out

-- The loop of ext2_write_file, over the bytes of `from`; none stands for USER_ERR_FAULT, which also
-- leaves what it has written.
unfoldable pub write_loop :
    (rounds left written offset : ℕ) → Memory → Ext2 → Inode → (Ext2 × Inode) × Bool
write_loop zero left written offset from fs inode = ((fs, inode), left == 0)
write_loop (suc k) left written offset from fs inode =
    let file_offset = offset + written in
    let ((fs1, inode1), block) =
      ensure_file_block inode (file_offset / fs.block_size % 2 ^ 32) fs in
    let chunk = chunk_of fs.block_size file_offset left in
    let rest = elim block as (λ _. (Ext2 × Inode) × Bool) [
      | none ↦ ((fs1, inode1), false)
      | some b ↦ elim (block_ptr b (file_offset % fs.block_size) chunk fs1) [
        | none ↦ ((fs1, inode1), false)
        | some dest ↦
            write_loop k (left - chunk) (written + chunk) offset from
              (with_image fs1 (put_bytes dest written chunk from fs1.image)) inode1
      ]
    ] in
    if left == 0 then ((fs, inode), true) else rest
