-- ===== src/Memory/Arena/Examples.antt =====
-- The arena at work: one page, two allocations, a split and a merge.
use rsyscall.Base.{◌+◌, ◌%◌, ◌≤◌, ◌≡◌, ◌⊎◌, refl, true, false, [], ◌∷◌, arith, if◌then◌else◌, ◌==◌}
use rsyscall.Memory.Arena.{
  Arena, Allocation, ok, err, out_of_space, align, round_up, place, allocate, split,
}
use rsyscall.Memory.Arena.Tracking.{find}
use rsyscall.Memory.Arena.Layout.{AllApart, Apart}
use rsyscall.Memory.Arena.Invariant.{WellFormed, Owned}
use rsyscall.Memory.Arena.Merge.{Merges, Refuses, merge_lem}
use rsyscall.Memory.Arena.History.{ArenaReach, here, next, allocates, ArenaReach-Apart}
use rsyscall.Memory.Arena.Fit.{allocate_sound}

abbrev page : Arena
page = record {
  ident = 0;
  mapping_length = 4096;
  allocations = [];
  valid = λ i. false;
  next = 0;
  foreign = λ a i. false;
}

abbrev header : Allocation
header = record { ident = 0; arena = 0; start = 0; stop = 5 }

abbrev body : Allocation
body = record { ident = 1; arena = 0; start = 8; stop = 24 }

abbrev used : Arena
used = record page {
  allocations = header ∷ body ∷ [];
  valid = λ i. if i == 0 then true else i == 1;
  next = 2;
}

page-WellFormed : WellFormed page
page-WellFormed = record {
  tracks = record { distinct = tt; live = tt; tracked = λ i h. cc };
  layout = omega arith;
}

two_allocations :
    ((allocate 5 1 page).0 ≡ ok header) × ((allocate 16 8 (allocate 5 1 page).1).0 ≡ ok body)
unfolding allocate place align round_up
two_allocations = (refl, refl)

used-WellFormed : WellFormed used
used-WellFormed = record {
  tracks = record {
    distinct = omega arith;
    live = (refl, omega arith, refl, (refl, omega arith, refl, tt));
    tracked = λ i h. ground arith;
  };
  layout = omega arith;
}

own_header : Owned header used
unfolding find
own_header = refl

own_body : Owned body used
unfolding find
own_body = refl

abbrev body_split : Arena
body_split = (split body 4 used).1

merge_lem_example : Refuses header body used ⊎ Merges header body used
merge_lem_example = merge_lem header body used used-WellFormed own_header own_body

abbrev third : Allocation
third = record { ident = 2; arena = 0; start = 24; stop = 40 }

third_placed : (allocate 16 8 used).0 ≡ ok third
unfolding allocate place align round_up
third_placed = refl

allocate_sound_example :
    (24 % 8 ≡ 0)
    × (40 ≡ 24 + 16)
    × (40 ≤ 4096)
    × AllApart 24 40 used.allocations
    × Owned third (allocate 16 8 used).1
allocate_sound_example = allocate_sound 16 8 used (omega arith) third used-WellFormed third_placed

page_full : (allocate 4097 1 page).0 ≡ err out_of_space
unfolding allocate place
page_full = refl

abbrev twice : Arena
twice = (allocate 16 8 (allocate 5 1 page).1).1

twice-Reach : ArenaReach page twice
twice-Reach =
    next (next here (allocates 5 1 page (omega arith)))
      (allocates 16 8 (allocate 5 1 page).1 (omega arith))

header-Owned : Owned header twice
unfolding allocate place align round_up find
header-Owned = refl

body-Owned : Owned body twice
unfolding allocate place align round_up find
body-Owned = refl

ArenaReach-Apart_example : WellFormed twice × (0 ≤ 5) × (5 ≤ twice.mapping_length) × Apart 0 5 body
ArenaReach-Apart_example =
    ArenaReach-Apart 0 4096 page.foreign twice header body twice-Reach header-Owned body-Owned
      (omega arith)
