-- ===== src/Networking/EventLoop.antt =====
-- include/networking/event_loop.h and src/networking/event_loop.c: callbacks for file descriptors.
-- `entries` holds the first `len` registrations, `pollfds` the structs of the last poll; a removed
-- registration is a tombstone with the descriptor -1 while callbacks run. The blocks
-- behind `entries` and `pollfds` hold `entries_room` and `pollfds_room` elements, and `overrun` is
-- whether an element past the end of its block has been written. The bits of poll(2) are
-- records of Booleans. `poll` and the callbacks are parameters; a callback reaches the loop by the
-- functions of this file only, and calls neither event_loop_poll_once nor event_loop_run.
pub mod Poll
pub mod Table
mod Tests
pub mod Bounds
pub mod Round
pub mod Registry
pub mod Dispatch
pub mod Unique
use Prim.Native.Nat.{bit_and}
use c_comprehensive_template.Prelude.{
  ℕ, zero, suc, ◌+◌, ◌-◌, ◌*◌, ◌/◌, ◌%◌, Bool, true, false, not, ◌&&◌, ◌||◌, Option, none, some,
  List, [], ◌∷◌, ◌++◌, length, get_elem?, set, take, map, ltb, leb, ◌==◌, if◌then◌else◌, size_max,
  size_mod, ℤ, pos, negsuc, is_negative, same_int,
}
use c_comprehensive_template.Core.Error.{ErrorCode, ok, nomem, io, invalid_arg, overflow, not_found}

pub record EventEntry : Type 0 where
  pub fd : ℤ
  pub events : ℕ
  pub cb : ℕ
  pub user_data : ℕ

pub record Bits : Type 0 where
  pub pollin : Bool
  pub pollout : Bool
  pub pollerr : Bool
  pub pollhup : Bool

pub record PollFd : Type 0 where
  pub fd : ℤ
  pub events : Bits
  pub revents : Bits

pub record EventLoop : Type 0 where
  pub entries : List EventEntry
  pub pollfds : List PollFd
  pub capacity : ℕ
  pub running : Bool
  pub dispatching : Bool
  pub entries_room : ℕ
  pub pollfds_room : ℕ
  pub overrun : Bool

abbrev pub ev_read : ℕ
ev_read = 1

abbrev pub ev_write : ℕ
ev_write = 2

-- Sizes on the 64-bit target.
abbrev pub entry_size : ℕ
entry_size = 24

abbrev pub pollfd_size : ℕ
pollfd_size = 8

abbrev pub no_bits : Bits
no_bits = record { pollin = false; pollout = false; pollerr = false; pollhup = false }

unfoldable pub interest_to_poll : ℕ → Bits
interest_to_poll events = record no_bits {
  pollin = not (bit_and events ev_read == 0);
  pollout = not (bit_and events ev_write == 0);
}

unfoldable pub poll_to_ready : Bits → ℕ
poll_to_ready revents =
    (if revents.pollin || revents.pollhup || revents.pollerr then ev_read else 0)
    + (if revents.pollout then ev_write else 0)

unfoldable pub find_index : List EventEntry → ℤ → Option ℕ
find_index [] fd = none
find_index (e ∷ es) fd =
    if same_int e.fd fd
    then some 0
    else elim (find_index es fd) [ none ↦ none | some i ↦ some (suc i) ]

-- calloc gives the struct, or NULL.
unfoldable pub create : Bool → ErrorCode × Option EventLoop
create false = (nomem, none)
create true = (
  ok,
  some (record {
    entries = [];
    pollfds = [];
    capacity = 0;
    running = false;
    dispatching = false;
    entries_room = 0;
    pollfds_room = 0;
    overrun = false;
  }),
)

-- The growth in event_loop_add; `realloc` tells whether it gives a block of so many bytes.
unfoldable pub make_room : (ℕ → Bool) → EventLoop → ErrorCode × EventLoop
make_room realloc l =
    if not (length l.entries == l.capacity)
    then (ok, l)
    else if ltb (size_max / 2) l.capacity
    then (overflow, l)
    else let new_cap = if l.capacity == 0 then 8 else l.capacity * 2 % size_mod in
      if ltb (size_max / entry_size) new_cap || ltb (size_max / pollfd_size) new_cap
      then (overflow, l)
      else let entry_bytes = new_cap * entry_size % size_mod in
        let pollfd_bytes = new_cap * pollfd_size % size_mod in
        if not (realloc entry_bytes)
        then (nomem, l)
        else let grown = record l { entries_room = entry_bytes / entry_size } in
          if not (realloc pollfd_bytes)
          then (nomem, grown)
          else (ok, record grown { capacity = new_cap; pollfds_room = pollfd_bytes / pollfd_size })

-- loop->entries[loop->len] = e; loop->len++;
abbrev pub registered : EventLoop → EventEntry → EventLoop
registered l e = record l {
  entries = l.entries ++ e ∷ [];
  overrun = l.overrun || leb l.entries_room (length l.entries);
}

unfoldable pub add_loop : (ℕ → Bool) → EventLoop → ℤ → ℕ → ℕ → ℕ → ErrorCode × EventLoop
add_loop realloc l fd events cb user_data =
    if is_negative fd || cb == 0 || events == 0
    then (invalid_arg, l)
    else elim (find_index l.entries fd) [
      | some i ↦ (invalid_arg, l)
      | none ↦
          let (err, l') = make_room realloc l in
          elim err [
            | ok ↦ (
              ok,
              registered l' (record { fd = fd; events = events; cb = cb; user_data = user_data }),
            )
            | other ↦ (other, l')
          ]
    ]

abbrev change_events : EventEntry → ℕ → EventEntry
change_events e events = record e { events = events }

-- loop->entries[i] = f (loop->entries[i])
abbrev pub update : List EventEntry → ℕ → (EventEntry → EventEntry) → List EventEntry
update [] i f = []
update (e ∷ es) zero f = f e ∷ es
update (e ∷ es) (suc i) f = e ∷ update es i f

unfoldable pub mod_loop : EventLoop → ℤ → ℕ → ErrorCode × EventLoop
mod_loop l fd events =
    if is_negative fd || events == 0 then (invalid_arg, l) else elim (find_index l.entries fd) [
      | none ↦ (not_found, l)
      | some i ↦ (ok, record l { entries = update l.entries i (λ e. change_events e events) })
    ]

abbrev pub tombstone : EventEntry → EventEntry
tombstone e = record e { fd = negsuc 0 }

-- loop->entries[i] = loop->entries[loop->len - 1]; loop->len--;
unfoldable pub swap_remove : List EventEntry → ℕ → List EventEntry
swap_remove es i = elim (get_elem? es (length es - 1)) [
  | none ↦ es
  | some e ↦ take (length es - 1) (set es i e)
]

unfoldable pub remove_loop : EventLoop → ℤ → ErrorCode × EventLoop
remove_loop l fd = if is_negative fd then (invalid_arg, l) else elim (find_index l.entries fd) [
  | none ↦ (not_found, l)
  | some i ↦
      if l.dispatching
      then (ok, record l { entries = update l.entries i tombstone })
      else (ok, record l { entries = swap_remove l.entries i })
]

unfoldable pub compact : List EventEntry → List EventEntry
compact [] = []
compact (e ∷ es) = if is_negative e.fd then compact es else e ∷ compact es

unfoldable pub stop : EventLoop → EventLoop
stop l = record l { running = false }

unfoldable pub count : Option EventLoop → ℕ
count none = 0
count (some l) = length l.entries
