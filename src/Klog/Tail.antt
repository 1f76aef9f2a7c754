-- ===== src/Klog/Tail.antt =====
-- klog_copy_tail of kernel/klog.c.
use Prim.Native.Nat.{min}
use whirliscope.Prelude.{
  ℕ, zero, suc, ◌+◌, ◌-◌, ◌%◌, ◌≤◌, ◌<◌, ◌≡◌, sym, ap, ◌∙◌, List, ◌||◌, length, get_or, ltb, true,
  false, ◌==◌, if◌then◌else◌, arith, Bool-cases, inl, inr,
}
use whirliscope.Libc.Memory.{Memory, store, within}
use whirliscope.Klog.{klog_capacity, Klog, copy_ring, klog_copy_tail}
use whirliscope.Klog.Ring.{IsLog}

copy_ring_lem :
    (n i start dest : ℕ) (k : Klog) (m : Memory) (a : ℕ)
    → copy_ring n i start dest k m a
      ≡ (if within (dest + i) n a then k.ring ((start + (a - dest)) % klog_capacity) else m a)
unfolding copy_ring
copy_ring_lem zero i start dest k m a = ground arith
copy_ring_lem (suc n) i start dest k m a = ground (
  arith,
  copy_ring_lem n (i + 1) start dest k (store m (dest + i) (k.ring ((start + i) % klog_capacity)))
      a,
)

-- The place that the copy reads for the character number `i` of `count`.
slot :
    (n count i : ℕ)
    → i < count
    → count ≤ min n klog_capacity
    → (((n % klog_capacity + klog_capacity - min n klog_capacity) % klog_capacity
              + min n klog_capacity
              - count)
            % klog_capacity
          + i)
        % klog_capacity
      ≡ (n - count + i) % klog_capacity
slot n count i lt le = omega arith

inside :
    (dest count a x y z : ℕ)
    → within dest count a ≡ true
    → x ≡ y
    → (if within (dest + 0) count a then x else z) ≡ (if within dest count a then y else z)
inside dest count a x y z e e' = ground arith

outside :
    (dest count a x y z : ℕ)
    → within dest count a ≡ false
    → (if within (dest + 0) count a then x else z) ≡ (if within dest count a then y else z)
outside dest count a x y z e = ground arith

-- The last `count` characters of the text, at `dest`, and nothing else changed.
abbrev pub tail_at : List ℕ → ℕ → ℕ → Memory → Memory
tail_at text count dest m a =
    if within dest count a then get_or text (length text - count + (a - dest)) 0 else m a

abbrev first_slot : ℕ → ℕ → ℕ → ℕ
first_slot head used count =
    ((head + klog_capacity - used) % klog_capacity + used - count) % klog_capacity

first_slot_lem :
    (h u n count : ℕ)
    → h ≡ n % klog_capacity
    → u ≡ min n klog_capacity
    → first_slot h u count ≡ first_slot (n % klog_capacity) (min n klog_capacity) count
first_slot_lem h u n count e e' = rw (e, e')

-- With room for `count` of the characters in the log, the loop copies from the right place.
copied_tail :
    (text : List ℕ) (k : Klog) (dest count : ℕ) (m : Memory) (a : ℕ)
    → IsLog text k
    → count ≤ min (length text) klog_capacity
    → copy_ring count 0 (first_slot k.head k.used count) dest k m a ≡ tail_at text count dest m a
copied_tail text k dest count m a v le = elim (Bool-cases (within dest count a)) [
  | inl e ↦
      let i = a - dest in
      let n = length text in
      let lt : i < count = ground arith in
      let at =
        ap (λ s. (s + i) % klog_capacity) (first_slot_lem k.head k.used n count v.head v.used)
        ∙ slot n count i lt le in
      let read = ap k.ring at ∙ v.holds (n - count + i) (omega arith) (omega arith) in
      copy_ring_lem count 0 _ dest k m a ∙ inside dest count a _ _ _ e read
  | inr e ↦ copy_ring_lem count 0 _ dest k m a ∙ outside dest count a _ _ _ e
]

copy_nothing :
    (dest dest_size : ℕ) (k : Klog) (m : Memory)
    → (dest_size == 0 || k.used == 0) ≡ true
    → klog_copy_tail dest dest_size k m ≡ (0, m)
unfolding klog_copy_tail
copy_nothing dest dest_size k m e = rw e

copy_some :
    (dest dest_size : ℕ) (k : Klog) (m : Memory) (count : ℕ)
    → (dest_size == 0 || k.used == 0) ≡ false
    → (if ltb k.used dest_size then k.used else dest_size) ≡ count
    → klog_copy_tail dest dest_size k m
      ≡ (count, copy_ring count 0 (first_slot k.head k.used count) dest k m)
unfolding klog_copy_tail
copy_some dest dest_size k m count e e' =
    rw e (ap (λ c. (c, copy_ring c 0 (first_slot k.head k.used c) dest k m)) e')

tail_none :
    (text : List ℕ) (dest count : ℕ) (m : Memory) (a : ℕ)
    → count ≡ 0
    → m a ≡ tail_at text count dest m a
tail_none text dest count m a e = ground arith

-- klog_copy_tail reports how many characters fit, and copies that many of the last ones, in the
-- order in which they were written, to `dest`; the rest of memory stays as it was.
pub klog_copy_tail-tail_at :
    (text : List ℕ) (k : Klog) (dest dest_size : ℕ) (m : Memory)
    → IsLog text k
    → let count = min (min (length text) klog_capacity) dest_size in
      ((klog_copy_tail dest dest_size k m).0 ≡ count)
      × ((a : ℕ) → (klog_copy_tail dest dest_size k m).1 a ≡ tail_at text count dest m a)
klog_copy_tail-tail_at text k dest dest_size m v =
    let count = min (min (length text) klog_capacity) dest_size in
    elim (Bool-cases (dest_size == 0 || k.used == 0)) [
      | inl e ↦
          let none : count ≡ 0 = ground (arith, v.used) in
          let run = copy_nothing dest dest_size k m e in
          (
            ap (λ r. r.0) run ∙ sym none,
            λ a. ap (λ r. r.1 a) run ∙ tail_none text dest count m a none,
          )
      | inr e ↦
          let run = copy_some dest dest_size k m count e (ground (arith, v.used)) in
          (
            ap (λ r. r.0) run,
            λ a. ap (λ r. r.1 a) run ∙ copied_tail text k dest count m a v (omega arith),
          )
    ]
