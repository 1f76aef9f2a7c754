-- ===== src/Libc/Block.antt =====
-- libc/mem.c: memcpy, memset, memmove and memcmp. Each `for` loop is a function of the rounds left
-- and of the counter.
pub mod Compare
pub mod Copy
use whirliscope.Prelude.{ℕ, zero, suc, ◌+◌, ◌-◌, ◌%◌, ltb, ◌==◌, if◌then◌else◌}
use whirliscope.Prelude.Int.{ℤ, pos, negsuc}
use whirliscope.Libc.Memory.{Memory, store}

-- `for (i = …; …; i++) pdest[i] = psrc[i];`
unfoldable pub copy_up : ℕ → ℕ → ℕ → ℕ → Memory → Memory
copy_up zero i dest src m = m
copy_up (suc k) i dest src m = copy_up k (i + 1) dest src (store m (dest + i) (m (src + i)))

-- `for (i = n; i > 0; i--) pdest[i-1] = psrc[i-1];`
copy_down : ℕ → ℕ → ℕ → Memory → Memory
copy_down zero dest src m = m
copy_down (suc i) dest src m = copy_down i dest src (store m (dest + i) (m (src + i)))

unfoldable pub fill : ℕ → ℕ → ℕ → ℕ → Memory → Memory
fill zero i s c m = m
fill (suc k) i s c m = fill k (i + 1) s c (store m (s + i) (c % 256))

unfoldable pub memcpy : ℕ → ℕ → ℕ → Memory → Memory
unfolding copy_up
memcpy dest src n m = copy_up n 0 dest src m

unfoldable pub memset : ℕ → ℕ → ℕ → Memory → Memory
unfolding fill
memset s c n m = fill n 0 s c m

pub memmove : ℕ → ℕ → ℕ → Memory → Memory
unfolding copy_up copy_down
memmove dest src n m =
    if ltb dest src
    then copy_up n 0 dest src m
    else if ltb src dest
    then copy_down n dest src m
    else m

compare_up : ℕ → ℕ → ℕ → ℕ → Memory → ℤ
compare_up zero i s1 s2 m = pos 0
compare_up (suc k) i s1 s2 m =
    let rest = compare_up k (i + 1) s1 s2 m in
    if m (s1 + i) == m (s2 + i)
    then rest
    else if ltb (m (s1 + i)) (m (s2 + i))
    then negsuc 0
    else pos 1

pub memcmp : ℕ → ℕ → ℕ → Memory → ℤ
unfolding compare_up
memcmp s1 s2 n m = compare_up n 0 s1 s2 m
