-- ===== src/Libc/Strings.antt =====
-- libc/string.c: the functions on strings that end with a zero byte. The loops that only the zero
-- ends take the rounds left as their first argument, and give `none` without rounds.
pub mod Length
pub mod Copying
use whirliscope.Prelude.{
  ℕ, zero, suc, ◌+◌, ◌-◌, ◌%◌, Bool, true, false, not, ◌&&◌, ◌||◌, Option, none, some, ◌==◌,
  if◌then◌else◌,
}
use whirliscope.Prelude.Int.{ℤ, pos, sub_ℕ}
use whirliscope.Libc.Memory.{Memory, store}

strlen_from : (rounds len s : ℕ) → Memory → Option ℕ
strlen_from zero len s m = none
strlen_from (suc k) len s m =
    let rest = strlen_from k (len + 1) s m in if m (s + len) == 0 then some len else rest

pub strlen : (rounds s : ℕ) → Memory → Option ℕ
unfolding strlen_from
strlen rounds s m = strlen_from rounds 0 s m

-- The loop of strnlen, with `left` rounds until `maxlen`.
strnlen_from : (left len s : ℕ) → Memory → ℕ
strnlen_from zero len s m = len
strnlen_from (suc left) len s m =
    let rest = strnlen_from left (len + 1) s m in if m (s + len) == 0 then len else rest

pub strnlen : (s maxlen : ℕ) → Memory → ℕ
unfolding strnlen_from
strnlen s maxlen m = strnlen_from maxlen 0 s m

pub strcmp : (rounds s1 s2 : ℕ) → Memory → Option ℤ
strcmp zero s1 s2 m = none
strcmp (suc k) s1 s2 m =
    let rest = strcmp k (s1 + 1) (s2 + 1) m in
    if not (m s1 == 0) && m s1 == m s2 then rest else some (sub_ℕ (m s1) (m s2))

-- The loop of strncmp, with the rounds left until `n`.
strncmp_from : (left i s1 s2 : ℕ) → Memory → ℤ
strncmp_from zero i s1 s2 m = pos 0
strncmp_from (suc left) i s1 s2 m =
    let rest = strncmp_from left (i + 1) s1 s2 m in
    let c1 = m (s1 + i) in
    let c2 = m (s2 + i) in if not (c1 == c2) || c1 == 0 then sub_ℕ c1 c2 else rest

pub strncmp : (s1 s2 n : ℕ) → Memory → ℤ
unfolding strncmp_from
strncmp s1 s2 n m = strncmp_from n 0 s1 s2 m

-- The address returned is `dest`.
pub strcpy : (rounds dest src : ℕ) → Memory → Option Memory
strcpy zero dest src m = none
strcpy (suc k) dest src m =
    let written = store m dest (m src) in
    let rest = strcpy k (dest + 1) (src + 1) written in if m src == 0 then some written else rest

-- The second loop of strncpy.
strncpy_pad : (left i dest : ℕ) → Memory → Memory
strncpy_pad zero i dest m = m
strncpy_pad (suc left) i dest m = strncpy_pad left (i + 1) dest (store m (dest + i) 0)

-- The first loop of strncpy, with the second behind it.
strncpy_from : (left i dest src : ℕ) → Memory → Memory
unfolding strncpy_pad
strncpy_from zero i dest src m = m
strncpy_from (suc left) i dest src m =
    let rest = strncpy_from left (i + 1) dest src (store m (dest + i) (m (src + i))) in
    if m (src + i) == 0 then strncpy_pad (suc left) i dest m else rest

pub strncpy : (dest src n : ℕ) → Memory → Memory
unfolding strncpy_from
strncpy dest src n m = strncpy_from n 0 dest src m

-- `none` stands for no rounds left, and 0 for NULL.
pub strchr : (rounds s c : ℕ) → Memory → Option ℕ
strchr zero s c m = none
strchr (suc k) s c m =
    let rest = strchr k (s + 1) c m in
    if m s == c % 256 then some s else if m s == 0 then some 0 else rest

strrchr_from : (rounds s c last : ℕ) → Memory → Option ℕ
strrchr_from zero s c last m = none
strrchr_from (suc k) s c last m =
    let last' = if m s == c % 256 then s else last in
    let rest = strrchr_from k (s + 1) c last' m in if m s == 0 then some last' else rest

pub strrchr : (rounds s c : ℕ) → Memory → Option ℕ
unfolding strrchr_from
strrchr rounds s c m = strrchr_from rounds s c 0 m
