-- ===== src/Kheap/Blocks.antt =====
-- memory/heap.c: the doubly linked list of block headers. A header is read and written through its
-- address.
pub mod Layout
pub mod Split
pub mod Coalesce
pub mod Find
pub mod Append
pub mod Mark
use whirliscope.Prelude.{
  ℕ, zero, suc, ◌+◌, ◌-◌, ◌*◌, ◌/◌, Bool, true, not, ◌&&◌, ◌||◌, ltb, leb, ◌==◌, if◌then◌else◌,
  add64, sub64, align_up,
}

abbrev pub kheap_base : ℕ
kheap_base = 0xffff_c000_0000_0000

abbrev pub kheap_max_size : ℕ
kheap_max_size = 64 * 1024 * 1024

abbrev pub kheap_chunk_size : ℕ
kheap_chunk_size = 64 * 1024

abbrev pub vmm_page_size : ℕ
vmm_page_size = 4096

abbrev pub vmm_writable : ℕ
vmm_writable = 2

abbrev pub heap_align : ℕ
heap_align = 16

abbrev pub heap_magic : ℕ
heap_magic = 0x4845_4150

abbrev pub null : ℕ
null = 0

pub record HeapBlock : Type 0 where
  pub magic : ℕ
  pub free : Bool
  pub size : ℕ
  pub prev : ℕ
  pub next : ℕ

-- The headers by address.
abbrev pub Headers : Type 0
Headers = ℕ → HeapBlock

abbrev pub put : Headers → ℕ → HeapBlock → Headers
put b p v q = if q == p then v else b q

-- The list itself: `first_block`, `last_block` and the headers.
pub record Links : Type 0 where
  pub first_block : ℕ
  pub last_block : ℕ
  pub block : Headers

-- How a call ends: by a return, by a failed assertion, or (with too little fuel) not at all.
pub data Outcome (A : Type 0) : Type 0 where
  returned : A → Outcome A
  panicked : Outcome A
  out_of_fuel : Outcome A

infixl 5 ◌>>=◌
abbrev pub ◌>>=◌ : {A B : Type 0} → Outcome A → (A → Outcome B) → Outcome B
returned a >>= f = f a
panicked >>= f = panicked
out_of_fuel >>= f = out_of_fuel

-- sizeof(struct heap_block) is 32 with the padding behind `free`.
abbrev pub block_overhead : ℕ
block_overhead = align_up 32 heap_align

abbrev pub block_payload : ℕ → ℕ
block_payload p = p + block_overhead

abbrev pub payload_block : ℕ → ℕ
payload_block ptr = ptr - block_overhead

-- More rounds than there can be blocks in KHEAP_MAX_SIZE bytes.
abbrev pub max_blocks : ℕ
max_blocks = kheap_max_size / block_overhead + 1

abbrev set_next : ℕ → ℕ → Headers → Headers
set_next p q b = put b p (record (b p) { next = q })

abbrev set_prev : ℕ → ℕ → Headers → Headers
set_prev p q b = put b p (record (b p) { prev = q })

pub append_block : ℕ → Links → Links
append_block p l =
    let b = put l.block p (record (l.block p) { prev = l.last_block; next = null }) in
    if l.last_block == null
    then record { first_block = p; last_block = p; block = b }
    else record { first_block = l.first_block; last_block = p; block = set_next l.last_block p b }

pub split_block : ℕ → ℕ → Links → Links
split_block p size l =
    if ltb (l.block p).size (add64 (add64 size block_overhead) heap_align)
    then l
    else let q = block_payload p + size in
      let after = (l.block p).next in
      let remainder : HeapBlock = record {
        magic = heap_magic;
        free = true;
        size = sub64 (sub64 (l.block p).size size) block_overhead;
        prev = p;
        next = after;
      } in
      let b = put l.block q remainder in
      let b' = if after == null then b else set_prev after q b in
      record {
        first_block = l.first_block;
        last_block = if after == null then q else l.last_block;
        block = put b' p (record (b' p) { size = size; next = q });
      }

pub coalesce_with_next : ℕ → Links → Links
coalesce_with_next p l =
    let next = (l.block p).next in
    if next == null || not (l.block next).free
    then l
    else let after = (l.block next).next in
      let grown = add64 (l.block p).size (add64 block_overhead (l.block next).size) in
      let b = put l.block p (record (l.block p) { size = grown; next = after }) in
      record {
        first_block = l.first_block;
        last_block = if after == null then p else l.last_block;
        block = if after == null then b else set_prev after p b;
      }

-- The loop of find_free_block; NULL stands for "none found".
find_from : ℕ → ℕ → ℕ → Headers → Outcome ℕ
find_from zero p size b = out_of_fuel
find_from (suc fuel) p size b =
    let rest = find_from fuel (b p).next size b in
    if p == null
    then returned null
    else if (b p).free && leb size (b p).size
    then returned p
    else rest

pub find_free_block : ℕ → Links → Outcome ℕ
find_free_block size l = find_from max_blocks l.first_block size l.block
