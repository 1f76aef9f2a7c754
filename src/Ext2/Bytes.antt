-- ===== src/Ext2/Bytes.antt =====
-- 32-bit arithmetic of fs/ext2.c, and numbers written to memory, least byte first.
pub mod Laws
use whirliscope.Prelude.{ℕ, ◌+◌, ◌-◌, ◌*◌, ◌/◌, ◌%◌, ◌^◌}
use whirliscope.Libc.Memory.{Memory, store}

-- uint32_t sum, difference and product.
abbrev pub add32 : ℕ → ℕ → ℕ
add32 a b = (a + b) % 2 ^ 32

abbrev pub sub32 : ℕ → ℕ → ℕ
sub32 a b = (a + 2 ^ 32 - b) % 2 ^ 32

abbrev pub mul32 : ℕ → ℕ → ℕ
mul32 a b = a * b % 2 ^ 32

unfoldable pub write16 : (a v : ℕ) → Memory → Memory
write16 a v m = store (store m a (v % 256)) (a + 1) (v / 2 ^ 8 % 256)

unfoldable pub write32 : (a v : ℕ) → Memory → Memory
unfolding write16
write32 a v m = write16 (a + 2) (v / 2 ^ 16) (write16 a (v % 2 ^ 16) m)
