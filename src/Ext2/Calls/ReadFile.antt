-- ===== src/Ext2/Calls/ReadFile.antt =====
-- ext2_read_file of fs/ext2.c from the path to the bytes.
use whirliscope.Prelude.{
  ℕ, ◌+◌, ◌-◌, ◌≤◌, ◌<◌, ◌≡◌, refl, List, true, false, some, ltb, leb, if◌then◌else◌, arith,
}
use whirliscope.Prelude.Int.{pos}
use whirliscope.Libc.Memory.{Memory}
use whirliscope.Ext2.Inode.{Inode, inode_is_file}
use whirliscope.Ext2.Inode
use whirliscope.Ext2.Image.{Ext2}
use whirliscope.Ext2.Content.{read_inode_bytes}
use whirliscope.Ext2.Content.Reading.{file_byte, IsBacked, read_inode_bytes-file_byte}
use whirliscope.Ext2.Paths.{path_lookup}
use whirliscope.Ext2.Calls.{ext2_read_file}

-- How many bytes there are to read.
abbrev pub available : (size len offset : ℕ) → ℕ
available size len offset = if ltb (size - offset) len then size - offset else len

read_found :
    (garbage : Memory) (path : List ℕ) (len offset : ℕ) (fs : Ext2) (out : Memory) (file : Inode)
    {number : ℕ} {b : Memory}
    → path_lookup garbage path fs ≡ some (file, number)
    → inode_is_file file ≡ true
    → leb (Inode.size file) offset ≡ false
    → read_inode_bytes offset (available (Inode.size file) len offset) file fs out ≡ some b
    → ext2_read_file garbage path len offset fs out
      ≡ (pos (available (Inode.size file) len offset), b)
unfolding ext2_read_file
read_found garbage path len offset fs out file found is_file inside read =
    rw (found, ext2_read_file) (rw (is_file, inside, read, ext2_read_file) refl)

-- Reading a file that a path leads to, from inside its size on, gives the number of bytes asked for
-- or of those left, and that many bytes of the file in the buffer; the rest of the buffer keeps its
-- bytes. The blocks read have to lie in the image.
pub ext2_read_file-file_byte :
    (garbage : Memory) (path : List ℕ) (len offset : ℕ) (fs : Ext2) (out : Memory) {file : Inode}
    {number : ℕ}
    → path_lookup garbage path fs ≡ some (file, number)
    → inode_is_file file ≡ true
    → 0 < fs.block_size
    → offset < Inode.size file
    → IsBacked file fs offset (available (Inode.size file) len offset)
    → (b : Memory) × (ext2_read_file garbage path len offset fs out
        ≡ (pos (available (Inode.size file) len offset), b))
      × ((i : ℕ)
          → b i ≡ (
              if ltb i (available (Inode.size file) len offset)
              then file_byte file fs (offset + i)
              else out i))
ext2_read_file-file_byte garbage path len offset fs out {file} found is_file positive inside
      backed =
    let n = available (Inode.size file) len offset in
    let (b, e, h) =
      read_inode_bytes-file_byte offset n file fs out positive
        (fits (Inode.size file) len offset inside) backed in
    (
      b,
      read_found garbage path len offset fs out file found is_file
          (starts_inside (Inode.size file) offset inside) e,
      h,
    )
  where
    fits : (size len offset : ℕ) → offset < size → offset + available size len offset ≤ size
    fits size len offset h = ground arith

    starts_inside : (size offset : ℕ) → offset < size → leb size offset ≡ false
    starts_inside size offset h = ground arith
