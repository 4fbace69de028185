-- ===== src/Memory/Socket.antt =====
-- python/rsyscall/memory/socket_transport.py: spans of an allocation, and the transport of bytes
-- through a pair of connected sockets.
use rsyscall.Base.{
  ℕ, zero, suc, ◌+◌, ◌-◌, Bool, true, false, List, [], ◌∷◌, ◌++◌, Option, none, some, if◌then◌else◌,
  ltb, leb, ◌==◌, length, take, drop,
}
pub mod Span
pub mod Carried
mod Examples

-- The allocation below a span, with its identity, its offset and its size.
pub record Underlying : Type 0 where
  pub ident : ℕ
  pub start : ℕ
  pub length_of : ℕ

pub record SpanAllocation : Type 0 where
  pub alloc : Underlying
  pub span_offset : ℕ
  pub span_size : ℕ

pub data Fault : Type 0 where
  falls_off too_large not_a_span not_adjacent two_allocations : Fault
  mismatched failed partial_write partial_read hangs : Fault

pub data Answer (A : Type 0) : Type 0 where
  done : A → Answer A
  fault : Fault → Answer A

-- The constructor, with its `__post_init__`.
unfoldable pub new_span : Underlying → ℕ → ℕ → Answer SpanAllocation
new_span alloc offset size =
    if ltb alloc.length_of (offset + size)
    then fault falls_off
    else done (record { alloc = alloc; span_offset = offset; span_size = size })

unfoldable pub offset_span : SpanAllocation → ℕ
offset_span s = s.alloc.start + s.span_offset

abbrev pub pair_span :
    Answer SpanAllocation → Answer SpanAllocation → Answer (SpanAllocation × SpanAllocation)
pair_span (fault e) b = fault e
pair_span (done a) (fault e) = fault e
pair_span (done a) (done b) = done (a, b)

unfoldable pub split_span : SpanAllocation → ℕ → Answer (SpanAllocation × SpanAllocation)
unfolding new_span
split_span s size =
    if ltb s.span_size size
    then fault too_large
    else pair_span (new_span s.alloc s.span_offset size)
        (new_span s.alloc (s.span_offset + size) (s.span_size - size))

-- An allocation of another class is `none`.
unfoldable pub merge_span : SpanAllocation → Option SpanAllocation → Answer SpanAllocation
unfolding new_span
merge_span s none = fault not_a_span
merge_span s (some other) =
    if s.alloc.ident == other.alloc.ident
    then (if s.span_offset + s.span_size == other.span_offset
        then new_span s.alloc s.span_offset (s.span_size + other.span_size)
        else fault not_adjacent)
    else fault two_allocations

unfoldable pub to_span : Underlying → Answer SpanAllocation
unfolding new_span
to_span alloc = new_span alloc 0 alloc.length_of

-- The memory of the remote address space by its bytes, and the bytes under way in each direction.
pub record Wire : Type 0 where
  pub memory : ℕ → ℕ
  pub outgoing : List ℕ
  pub incoming : List ℕ

abbrev pub store_at : ℕ → List ℕ → (ℕ → ℕ) → ℕ → ℕ
store_at a [] memory i = memory i
store_at a (b ∷ l) memory i = if i == a then b else store_at (a + 1) l memory i

abbrev pub load_from : ℕ → ℕ → (ℕ → ℕ) → List ℕ
load_from a zero memory = []
load_from a (suc n) memory = memory a ∷ load_from (a + 1) n memory

-- `remote.recv` with MSG.WAITALL: it takes as many bytes as its buffer has, or waits for more.
unfoldable pub recv_all : SpanAllocation → Wire → Answer (Unit {0}) × Wire
recv_all dest w = if ltb (length w.outgoing) dest.span_size then (fault hangs, w) else (
  done tt,
  record w {
    outgoing = drop dest.span_size w.outgoing;
    memory = store_at (offset_span dest) (take dest.span_size w.outgoing) w.memory;
  },
)

-- `do_write` after the local write, which has sent some of the bytes.
abbrev pub write_end : Answer (SpanAllocation × SpanAllocation) → Wire → Answer (Unit {0}) × Wire
write_end (fault e) w = (fault e, w)
write_end (done (dest, dest_rest)) w =
    if dest_rest.span_size == 0 then recv_all dest w else (fault partial_write, w)

-- The local write raises (`none`), or sends the first bytes of the data.
abbrev pub send_local : SpanAllocation → List ℕ → Option ℕ → Wire → Answer (Unit {0}) × Wire
send_local dest src none w = (fault failed, w)
send_local dest src (some sent) w =
    write_end (split_span dest (length (take sent src)))
      (record w { outgoing = w.outgoing ++ take sent src })

unfoldable pub do_write : SpanAllocation → List ℕ → Option ℕ → Wire → Answer (Unit {0}) × Wire
unfolding split_span recv_all
do_write dest src sent w = if dest.span_size == 0 then (done tt, w) else send_local dest src sent w

abbrev pub write_span : Answer SpanAllocation → List ℕ → Option ℕ → Wire → Answer (Unit {0}) × Wire
write_span (fault e) src sent w = (fault e, w)
write_span (done dest) src sent w = do_write dest src sent w

unfoldable pub write_socket : Underlying → List ℕ → Option ℕ → Wire → Answer (Unit {0}) × Wire
unfolding to_span do_write
write_socket dest src sent w =
    if dest.length_of == length src
    then write_span (to_span dest) src sent w
    else (fault mismatched, w)

-- `do_read` after the remote write: the buffer, of the size that was asked for, is split, and the local
-- read takes some of the bytes that have come.
abbrev pub read_local : ℕ → Option ℕ → Wire → Answer (List ℕ) × Wire
read_local size none w = (fault failed, w)
read_local size (some got) w =
    let bytes = take size (take got w.incoming) in
    let w' : Wire = record w { incoming = drop (length bytes) w.incoming } in
    if length bytes == size then (done bytes, w') else (fault partial_read, w')

abbrev pub send_remote : ℕ → SpanAllocation → Option ℕ → Option ℕ → Wire → Answer (List ℕ) × Wire
send_remote size src none got w = (fault failed, w)
send_remote size src (some sent) got w =
    let bytes = take sent (load_from (offset_span src) src.span_size w.memory) in
    let w' : Wire = record w { incoming = w.incoming ++ bytes } in
    if length bytes == size then read_local size got w' else (fault partial_write, w')

unfoldable pub do_read : ℕ → SpanAllocation → Option ℕ → Option ℕ → Wire → Answer (List ℕ) × Wire
do_read size src sent got w = if size == 0 then (done [], w) else send_remote size src sent got w

abbrev pub read_span :
    Answer SpanAllocation → ℕ → Option ℕ → Option ℕ → Wire → Answer (List ℕ) × Wire
read_span (fault e) size sent got w = (fault e, w)
read_span (done src) size sent got w = do_read size src sent got w

unfoldable pub read_socket : Underlying → Option ℕ → Option ℕ → Wire → Answer (List ℕ) × Wire
unfolding to_span do_read
read_socket src sent got w = read_span (to_span src) src.length_of sent got w
