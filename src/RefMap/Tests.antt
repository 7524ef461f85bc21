-- ===== src/RefMap/Tests.antt =====
-- Concrete runs of luv_lob.hpp's `OrderRefMap`, and its theorems at concrete tables.
use luv_flicker.Base.{ℕ, ◌≡◌, pos, true, false, none, some, refl, ◌==◌, if◌then◌else◌}
use luv_flicker.RefMap.{
  OrderRefMap, OrderLocation, init, insert, remove, can_insert, location, valid_place, hash,
  insert_probed, refuses, probe, can_probe, clear,
}
use luv_flicker.RefMap.Laws.{IsValid, init_once}
use luv_flicker.RefMap.Insert.{location-insert, can_insert_sound}
use luv_flicker.RefMap.Remove.{location-remove}

abbrev place : OrderLocation
place = record { symbol_idx = 3; side = 1; level_idx = 2; slot_idx = pos 4 }

abbrev unmapped : OrderRefMap
unmapped = record {
  mapped = false;
  keys = λ i. 0;
  values = λ i. record { symbol_idx = 0; side = 0; level_idx = 0; slot_idx = pos 0 };
  count = 0;
}

abbrev mapped : OrderRefMap
mapped = (init unmapped true).0

mapped-IsValid : IsValid mapped
mapped-IsValid = (init_once unmapped refl).2

-- Reference 7 goes in, and a second insert of it is refused.
abbrev holding : OrderRefMap
holding = (insert mapped 7 place).0

location-insert_example :
    ((q : ℕ) → location holding q ≡ (if q == 7 then some place else location mapped q))
    × IsValid holding
unfolding insert insert_probed probe init clear hash refuses valid_place
location-insert_example = location-insert mapped 7 place mapped-IsValid refl

location-remove_example :
    ((q : ℕ) → location (remove holding 7) q ≡ (if q == 7 then none else location holding q))
    × IsValid (remove holding 7)
location-remove_example = location-remove holding 7 location-insert_example.1

can_insert_sound_example : (location mapped 7 ≡ none) × ((insert mapped 7 place).1 ≡ true)
unfolding can_insert can_probe init clear hash valid_place refuses
can_insert_sound_example = can_insert_sound mapped 7 place mapped-IsValid refl refl
