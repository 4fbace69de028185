-- ===== src/Memory/Socket/Span.antt =====
-- python/rsyscall/memory/socket_transport.py: SpanAllocation stays within its allocation.
use rsyscall.Base.{ℕ, ◌+◌, ◌-◌, ◌≤◌, ◌<◌, ◌≡◌, refl, some, arith}
use rsyscall.Memory.Socket.{
  SpanAllocation, too_large, done, fault, offset_span, split_span, merge_span,
}

-- The span lies within its allocation.
abbrev pub Within : SpanAllocation → Type 0
Within s = s.span_offset + s.span_size ≤ s.alloc.length_of

-- The split of a span that lies within its allocation succeeds for every size up to its own. The parts
-- lie within the allocation too, the second one starts where the first one ends, their sizes are the
-- one asked for and the rest, and their merge is the span again.
pub merge_span-split_span :
    (s : SpanAllocation) (size : ℕ)
    → Within s
    → size ≤ s.span_size
    → (a : SpanAllocation) × (b : SpanAllocation) × (split_span s size ≡ done (a, b))
      × Within a
      × Within b
      × (offset_span a ≡ offset_span s)
      × (offset_span b ≡ offset_span a + a.span_size)
      × (a.span_size ≡ size)
      × (a.span_size + b.span_size ≡ s.span_size)
      × (merge_span a (some b) ≡ done s)
unfolding split_span offset_span merge_span
merge_span-split_span s size h k = (
  record s { span_size = size },
  record s { span_offset = s.span_offset + size; span_size = s.span_size - size },
  ground arith,
  omega arith,
  omega arith,
  refl,
  omega arith,
  refl,
  omega arith,
  ground arith,
)

split_span_refuses :
    (s : SpanAllocation) (size : ℕ) → s.span_size < size → split_span s size ≡ fault too_large
unfolding split_span
split_span_refuses s size h = ground arith
