-- ===== src/Device/Heap.antt =====
-- Device objects behind shared pointers: an address for each, and the object.
pub mod Laws
use libnitrokey.Prelude.{ℕ, List, [], ◌∷◌, Option, none, some, ◌==◌, if◌then◌else◌}
use libnitrokey.Device.State.{Device}

abbrev pub Heap : Type 0
Heap = List (ℕ × Device)

unfoldable pub find : ℕ → Heap → Option Device
find p [] = none
find p ((q, d) ∷ rest) = let later = find p rest in if p == q then some d else later

-- The object at an address is changed, or goes away.
unfoldable pub store : ℕ → Device → Heap → Heap
store p e [] = []
store p e ((q, d) ∷ rest) =
    let later = store p e rest in if p == q then (q, e) ∷ rest else (q, d) ∷ later

unfoldable pub free : ℕ → Heap → Heap
free p [] = []
free p ((q, d) ∷ rest) = let later = free p rest in if p == q then rest else (q, d) ∷ later
