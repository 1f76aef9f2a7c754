-- ===== src/Klog.antt =====
-- kernel/klog.c: the kernel log, a ring of 8192 characters. The characters of a format string are
-- the work of vsnprintf; klog_vprintf is modelled from its result on.
pub mod Ring
pub mod Tail
mod Examples
use whirliscope.Prelude.{
  ℕ, zero, suc, ◌+◌, ◌-◌, ◌%◌, List, [], ◌∷◌, ◌||◌, take, ltb, leb, ◌==◌, if◌then◌else◌, add64,
  sub64,
}
use whirliscope.Prelude.Int.{ℤ, pos, negsuc}
use whirliscope.Libc.Memory.{Memory, store}

abbrev pub klog_capacity : ℕ
klog_capacity = 8192

-- The static variables of the file.
pub record Klog : Type 0 where
  pub ring : ℕ → ℕ
  pub head : ℕ
  pub used : ℕ
  pub total : ℕ

pub klog_putchar : ℕ → Klog → Klog
klog_putchar ch k = record {
  ring = λ i. if i == k.head then ch else k.ring i;
  head = (k.head + 1) % klog_capacity;
  used = if ltb k.used klog_capacity then k.used + 1 else k.used;
  total = add64 k.total 1;
}

-- The list holds the `n` characters at `s`.
pub klog_write : List ℕ → Klog → Klog
klog_write [] k = k
klog_write (ch ∷ s) k = klog_write s (klog_putchar ch k)

-- `len` is what vsnprintf returned and `buffer` what it wrote into the 256 bytes.
pub klog_vprintf : ℤ → List ℕ → Klog → Klog
klog_vprintf (negsuc _) buffer k = k
klog_vprintf (pos len) buffer k = klog_write (take (if leb 256 len then 255 else len) buffer) k

pub klog_size : Klog → ℕ
klog_size k = k.used

pub klog_total_written : Klog → ℕ
klog_total_written k = k.total

pub klog_dropped : Klog → ℕ
klog_dropped k = if ltb k.used k.total then k.total - k.used else 0

-- The rounds left, `i`, `start` and `dest`.
copy_ring : ℕ → ℕ → ℕ → ℕ → Klog → Memory → Memory
copy_ring zero i start dest k m = m
copy_ring (suc n) i start dest k m =
    copy_ring n (i + 1) start dest k (store m (dest + i) (k.ring ((start + i) % klog_capacity)))

pub klog_copy_tail : ℕ → ℕ → Klog → Memory → ℕ × Memory
klog_copy_tail dest dest_size k m =
    let to_copy = if ltb k.used dest_size then k.used else dest_size in
    let oldest = (k.head + klog_capacity - k.used) % klog_capacity in
    let start = (oldest + k.used - to_copy) % klog_capacity in
    if dest_size == 0 || k.used == 0 then (0, m) else (to_copy, copy_ring to_copy 0 start dest k m)
