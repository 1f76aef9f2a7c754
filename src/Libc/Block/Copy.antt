-- ===== src/Libc/Block/Copy.antt =====
-- What memcpy, memset and memmove of libc/mem.c leave in memory.
use whirliscope.Prelude.{ℕ, zero, suc, ◌+◌, ◌-◌, ◌%◌, ◌≤◌, ◌≡◌, ◌⊎◌, arith, if◌then◌else◌}
use whirliscope.Libc.Memory.{Memory, store, within, copied}
use whirliscope.Libc.Block.{copy_up, copy_down, fill, memcpy, memset, memmove}

-- Copying upwards is right as long as no write overtakes a later read.
copy_up_lem :
    (k i dest src : ℕ) (m : Memory) (a : ℕ)
    → (dest ≤ src) ⊎ (src + (i + k) ≤ dest)
    → copy_up k i dest src m a ≡ (if within (dest + i) k a then m (src + (a - dest)) else m a)
unfolding copy_up
copy_up_lem zero i dest src m a apart = ground arith
copy_up_lem (suc k) i dest src m a apart =
    ground (arith, copy_up_lem k (i + 1) dest src (store m (dest + i) (m (src + i))) a)

-- Copying downwards is right when the target lies above the source.
copy_down_lem :
    (k dest src : ℕ) (m : Memory) (a : ℕ)
    → src ≤ dest
    → copy_down k dest src m a ≡ copied m dest src k a
unfolding copy_down
copy_down_lem zero dest src m a below = ground arith
copy_down_lem (suc i) dest src m a below =
    ground (arith, copy_down_lem i dest src (store m (dest + i) (m (src + i))) a)

fill_lem :
    (k i s c : ℕ) (m : Memory) (a : ℕ)
    → fill k i s c m a ≡ (if within (s + i) k a then c % 256 else m a)
unfolding fill
fill_lem zero i s c m a = ground arith
fill_lem (suc k) i s c m a = ground (arith, fill_lem k (i + 1) s c (store m (s + i) (c % 256)) a)

-- memcpy of blocks that do not overlap puts the source bytes at the target and changes nothing
-- else.
pub memcpy-copied :
    (dest src n : ℕ) (m : Memory) (a : ℕ)
    → (dest + n ≤ src) ⊎ (src + n ≤ dest)
    → memcpy dest src n m a ≡ copied m dest src n a
unfolding memcpy
memcpy-copied dest src n m a apart = ground (arith, copy_up_lem n 0 dest src m a)

-- memmove puts the source bytes at the target and changes nothing else, whether or not the blocks
-- overlap.
pub memmove-copied :
    (dest src n : ℕ) (m : Memory) (a : ℕ) → memmove dest src n m a ≡ copied m dest src n a
unfolding memmove
memmove-copied dest src n m a =
    ground (arith, copy_up_lem n 0 dest src m a, copy_down_lem n dest src m a)

-- memset writes the low byte of `c` to each byte of the block and changes nothing else.
pub memset-fills :
    (s c n : ℕ) (m : Memory) (a : ℕ) → memset s c n m a ≡ (if within s n a then c % 256 else m a)
unfolding memset
memset-fills s c n m a = ground (arith, fill_lem n 0 s c m a)
