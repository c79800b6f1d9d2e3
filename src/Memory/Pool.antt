-- ===== src/Memory/Pool.antt =====
-- include/memory/pool.h and src/memory/pool.c: blocks of one size, the free ones linked through
-- their first words. Pointers are addresses of 8 bytes, 0 is NULL; memory gives the pointer that is
-- read at an address, and writing one changes what is read up to 7 bytes before and behind it.
-- `malloc` is a parameter: the address of a block of the given size, or NULL.
pub mod Chain
pub mod Ops
pub mod Safe
pub mod Live
mod Tests
use c_comprehensive_template.Prelude.{
  ℕ, zero, suc, ◌+◌, ◌-◌, ◌*◌, ◌/◌, ◌%◌, ◌^◌, Bool, true, false, not, ◌&&◌, ◌||◌, Option, none,
  some, ltb, leb, ◌==◌, if◌then◌else◌, size_max, size_mod,
}
use c_comprehensive_template.Core.Error.{ErrorCode, ok, nomem, invalid_arg, overflow}

abbrev pub Ptr : Type 0
Ptr = ℕ

-- *(void **)p
abbrev pub Memory : Type 0
Memory = Ptr → Ptr

-- *(void **)p = v, the lowest byte first: at an address inside those bytes the pointer read is made of
-- bytes of v and of what was there.
unfoldable pub store : Memory → Ptr → Ptr → Memory
store mem p v a =
    if a == p
    then v
    else if leb (p + 8) a || leb (a + 8) p
    then mem a
    else if ltb a p
    then (mem a % 256 ^ (p - a)) + (v % 256 ^ (8 - (p - a))) * 256 ^ (p - a)
    else (v / 256 ^ (a - p)) + (mem a / 256 ^ (8 - (a - p))) * 256 ^ (8 - (a - p))

pub record Pool : Type 0 where
  pub buf : Ptr
  pub block_size : ℕ
  pub block_count : ℕ
  pub free_list : Ptr

abbrev pub pointer_size : ℕ
pointer_size = 8

-- The loop of pool_init from block i - 1 down; memory and the head of the free list.
unfoldable pub link : ℕ → Ptr → ℕ → Memory → Ptr → Memory × Ptr
link zero buf size mem head = (mem, head)
link (suc i) buf size mem head = link i buf size (store mem (buf + i * size) head) (buf + i * size)

-- The size of a block, which has to hold a pointer.
abbrev pub padded : ℕ → ℕ
padded size = if ltb size pointer_size then pointer_size else size

unfoldable pub init : (ℕ → Ptr) → Option Pool → ℕ → ℕ → Memory → ErrorCode × Option Pool × Memory
init malloc none size count mem = (invalid_arg, none, mem)
init malloc (some p) size count mem =
    if count == 0
    then (invalid_arg, some p, mem)
    else if ltb (size_max / padded size) count
    then (overflow, some p, mem)
    else let sized = record p { block_size = padded size; block_count = count } in
      let buf = malloc (padded size * count) in
      if buf == 0
      then (nomem, some (record sized { buf = 0 }), mem)
      else let (mem', head) = link count buf (padded size) mem 0 in
        (ok, some (record sized { buf = buf; free_list = head }), mem')

unfoldable pub alloc : Option Pool → Memory → Ptr × Option Pool
alloc none mem = (0, none)
alloc (some p) mem =
    if p.free_list == 0
    then (0, some p)
    else (p.free_list, some (record p { free_list = mem p.free_list }))

-- Whether `ptr` is refused: outside the buffer, or not at the start of a block.
abbrev pub is_foreign : Pool → Ptr → Bool
is_foreign p ptr =
    ltb ptr p.buf
    || leb (p.buf + p.block_size * p.block_count % size_mod) ptr
    || not ((ptr - p.buf) % p.block_size == 0)

unfoldable pub free : Option Pool → Ptr → Memory → Option Pool × Memory
free none ptr mem = (none, mem)
free (some p) ptr mem =
    if ptr == 0 || p.buf == 0
    then (some p, mem)
    else if is_foreign p ptr
    then (some p, mem)
    else (some (record p { free_list = ptr }), store mem ptr p.free_list)

pub destroy : Option Pool → Option Pool
destroy none = none
destroy (some p) = some (record p { buf = 0; free_list = 0 })
