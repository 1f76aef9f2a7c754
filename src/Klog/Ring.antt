-- ===== src/Klog/Ring.antt =====
-- The log of kernel/klog.c as the sequence of the characters written to it.
use Prim.Native.Nat.{min}
use mathlib.Core.List.{append_assoc, append-nil}
use whirliscope.Prelude.{
  ℕ, zero, suc, ◌+◌, ◌-◌, ◌%◌, ◌^◌, ◌≤◌, ◌<◌, ◌≡◌, refl, sym, ap, ◌∙◌, subst, false, List, [], ◌∷◌,
  ◌++◌, length, length-append, get_or, ◌==◌, if◌then◌else◌, arith, Bool-cases, inl, inr,
}
use whirliscope.Klog.{
  klog_capacity, Klog, klog_putchar, klog_write, klog_size, klog_total_written, klog_dropped,
}

-- Of the characters `text`, oldest first, the log holds the last ones that its ring has room for.
pub record IsLog (text : List ℕ) (k : Klog) : Type 0 where
  pub head : k.head ≡ length text % klog_capacity
  pub used : k.used ≡ min (length text) klog_capacity
  pub total : k.total ≡ length text % 2 ^ 64
  pub holds :
      (j : ℕ)
      → j < length text
      → length text ≤ j + klog_capacity
      → k.ring (j % klog_capacity) ≡ get_or text j 0

get_or-append : (xs ys : List ℕ) (j : ℕ) → j < length xs → get_or (xs ++ ys) j 0 ≡ get_or xs j 0
get_or-append [] ys j h = elim h [ ]
get_or-append (x ∷ xs) ys zero h = refl
get_or-append (x ∷ xs) ys (suc j) h = get_or-append xs ys j (omega arith)

get_or-length : (xs : List ℕ) (c : ℕ) → get_or (xs ++ c ∷ []) (length xs) 0 ≡ c
get_or-length [] c = refl
get_or-length (x ∷ xs) c = get_or-length xs c

-- Two of the last 8192 numbers share their place in the ring only if they are the same.
same_slot :
    (n j : ℕ) → j < n → n < j + klog_capacity → (j % klog_capacity == n % klog_capacity) ≡ false
same_slot n j lo hi = ground arith

put_ring : (r : ℕ → ℕ) (h c i v : ℕ) → (i == h) ≡ false → r i ≡ v → (if i == h then c else r i) ≡ v
put_ring r h c i v e e' = ground arith

putchar-IsLog :
    (text : List ℕ) (c : ℕ) (k : Klog) → IsLog text k → IsLog (text ++ c ∷ []) (klog_putchar c k)
unfolding klog_putchar
putchar-IsLog text c k v =
    let n = length-append text (c ∷ []) in
    record {
      head = omega (arith, v.head, n);
      used = ground (arith, v.used, n);
      total = omega (arith, v.total, n);
      holds = λ j lo hi. elim (Bool-cases (j == length text)) [
        | inl last ↦
            let e : j ≡ length text = ground arith in
            subst
              (λ i.
                (if i % klog_capacity == k.head then c else k.ring (i % klog_capacity))
                ≡ get_or (text ++ c ∷ []) i 0)
              (sym e) (ground (arith, v.head, get_or-length text c))
        | inr earlier ↦
            let lt : j < length text = ground (arith, n) in
            let s : (j % klog_capacity == k.head) ≡ false =
              ap (λ h. j % klog_capacity == h) v.head
              ∙ same_slot (length text) j lt (omega (arith, n, hi)) in
            put_ring k.ring k.head c (j % klog_capacity) _ s
              (v.holds j lt (omega (arith, n, hi)) ∙ sym (get_or-append text (c ∷ []) j lt))
      ];
    }

-- klog_write of a string appends it to the text of the log: the ring holds the last 8192 characters
-- of the text, its count of them is right, and so is the total modulo 2 ^ 64.
pub klog_write-IsLog :
    (text s : List ℕ) (k : Klog) → IsLog text k → IsLog (text ++ s) (klog_write s k)
unfolding klog_write
klog_write-IsLog text [] k v = subst (λ t. IsLog t k) (sym (append-nil text)) v
klog_write-IsLog text (c ∷ s) k v =
    subst (λ t. IsLog t (klog_write s (klog_putchar c k))) (append_assoc text (c ∷ []) s)
      (klog_write-IsLog (text ++ c ∷ []) s (klog_putchar c k) (putchar-IsLog text c k v))

-- The counters: klog_size is the number of characters held, klog_total_written that of all
-- written, and klog_dropped that of those overwritten, as long as the total has not wrapped.
pub klog_counters :
    (text : List ℕ) (k : Klog)
    → IsLog text k
    → length text < 2 ^ 64
    → (klog_size k ≡ min (length text) klog_capacity)
      × (klog_total_written k ≡ length text)
      × (klog_dropped k ≡ length text - klog_capacity)
unfolding klog_size klog_total_written klog_dropped
klog_counters text k v small = ground (arith, v.used, v.total)
