-- ===== src/Memory/Socket/Examples.antt =====
-- Spans and transports at concrete values.
use rsyscall.Base.{ℕ, ◌+◌, ◌≡◌, refl, List, [], ◌∷◌, some, if◌then◌else◌, leb, ltb, ◌&&◌, arith}
use rsyscall.Memory.Socket.{
  Underlying, SpanAllocation, done, offset_span, split_span, merge_span, Wire, store_at,
  write_socket, read_socket,
}
use rsyscall.Memory.Socket.Span.{Within, merge_span-split_span}
use rsyscall.Memory.Socket.Carried.{read_socket-write_socket}

abbrev buffer : Underlying
buffer = record { ident = 1; start = 100; length_of = 3 }

abbrev middle : SpanAllocation
middle = record { alloc = buffer; span_offset = 1; span_size = 2 }

merge_span-split_span_example :
    (a : SpanAllocation) × (b : SpanAllocation) × (split_span middle 1 ≡ done (a, b))
    × Within a
    × Within b
    × (offset_span a ≡ offset_span middle)
    × (offset_span b ≡ offset_span a + a.span_size)
    × (a.span_size ≡ 1)
    × (a.span_size + b.span_size ≡ 2)
    × (merge_span a (some b) ≡ done middle)
merge_span-split_span_example = merge_span-split_span middle 1 (omega arith) (omega arith)

abbrev empty_wire : Wire
empty_wire = record { memory = λ i. 0; outgoing = []; incoming = [] }

abbrev text : List ℕ
text = 7 ∷ 8 ∷ 9 ∷ []

read_socket-write_socket_example :
    let after : Wire = (write_socket buffer text (some 3) empty_wire).1 in
    let end : Wire = (read_socket buffer (some 3) (some 3) after).1 in
    ((write_socket buffer text (some 3) empty_wire).0 ≡ done tt)
    × ((read_socket buffer (some 3) (some 3) after).0 ≡ done text)
    × ((i : ℕ)
        → end.memory i ≡ (if leb 100 i && ltb i 103 then store_at 100 text (λ j. 0) i else 0))
    × (end.memory ≡ after.memory)
    × (end.outgoing ≡ [])
    × (end.incoming ≡ [])
read_socket-write_socket_example =
    read_socket-write_socket buffer text 3 empty_wire refl (omega arith) (omega arith) refl refl
