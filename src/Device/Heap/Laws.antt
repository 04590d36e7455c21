-- ===== src/Device/Heap/Laws.antt =====
-- Reading, changing and freeing an object.
use libnitrokey.Prelude.{
  ℕ, suc, ◌≡◌, ◌≢◌, refl, [], ◌∷◌, Option, none, some, length, arith, Bool, true, false, ◌≤◌, ◌<◌,
}
use libnitrokey.Device.State.{Device}
use libnitrokey.Device.Heap.{Heap, find, store, free}

pub find-store :
    (p : ℕ) (e d : Device) (heap : Heap) → find p heap ≡ some d → find p (store p e heap) ≡ some e
unfolding find store
find-store p e d [] h = ground arith
find-store p e d ((q, c) ∷ rest) h = ground (arith, find-store p e d rest)

pub find-store_ne :
    (p q : ℕ) (e : Device) (heap : Heap) → p ≢ q → find q (store p e heap) ≡ find q heap
unfolding find store
find-store_ne p q e [] h = refl
find-store_ne p q e ((r, d) ∷ rest) h = ground (arith, find-store_ne p q e rest h)

pub find-free_ne : (p q : ℕ) (heap : Heap) → p ≢ q → find q (free p heap) ≡ find q heap
unfolding find free
find-free_ne p q [] h = refl
find-free_ne p q ((r, d) ∷ rest) h = ground (arith, find-free_ne p q rest h)

pub length-store : (p : ℕ) (e : Device) (heap : Heap) → length (store p e heap) ≡ length heap
unfolding store
length-store p e [] = refl
length-store p e ((q, c) ∷ rest) = ground (arith, length-store p e rest)

pub length-free :
    (p : ℕ) (d : Device) (heap : Heap)
    → find p heap ≡ some d
    → suc (length (free p heap)) ≡ length heap
unfolding find free
length-free p d [] h = ground arith
length-free p d ((q, c) ∷ rest) h = ground (arith, length-free p d rest)

abbrev pub is_found : Option Device → Bool
is_found none = false
is_found (some d) = true

-- Addresses are below the next one, and each object's is below those that were made later.
abbrev pub AreBelow : ℕ → Heap → Type 0
AreBelow next [] = Unit
AreBelow next ((q, d) ∷ rest) = (q < next) × AreBelow q rest

pub AreBelow-le : (m n : ℕ) (heap : Heap) → AreBelow m heap → m ≤ n → AreBelow n heap
AreBelow-le m n [] h l = tt
AreBelow-le m n ((q, d) ∷ rest) h l = (omega arith, h.1)

pub find-AreBelow :
    (next p : ℕ) (heap : Heap) → AreBelow next heap → next ≤ p → is_found (find p heap) ≡ false
unfolding find
find-AreBelow next p [] h l = refl
find-AreBelow next p ((q, d) ∷ rest) h l =
    ground (arith, find-AreBelow q p rest (h.1) (omega arith))

pub is_found-store :
    (p q : ℕ) (e : Device) (heap : Heap)
    → is_found (find q (store p e heap)) ≡ is_found (find q heap)
unfolding find store
is_found-store p q e [] = refl
is_found-store p q e ((r, d) ∷ rest) = ground (arith, is_found-store p q e rest)

pub store-AreBelow :
    (next p : ℕ) (e : Device) (heap : Heap) → AreBelow next heap → AreBelow next (store p e heap)
unfolding store
store-AreBelow next p e [] h = tt
store-AreBelow next p e ((r, d) ∷ rest) h = ground (arith, store-AreBelow r p e rest (h.1))

pub free-AreBelow : (next p : ℕ) (heap : Heap) → AreBelow next heap → AreBelow next (free p heap)
unfolding free
free-AreBelow next p [] h = tt
free-AreBelow next p ((r, d) ∷ rest) h =
    ground (arith, free-AreBelow r p rest (h.1), AreBelow-le r next rest (h.1) (omega arith))

pub is_found-free :
    (next p : ℕ) (heap : Heap) → AreBelow next heap → is_found (find p (free p heap)) ≡ false
unfolding find free
is_found-free next p [] h = refl
is_found-free next p ((r, d) ∷ rest) h =
    ground (arith, is_found-free r p rest (h.1), find-AreBelow r r rest (h.1) (omega arith))

pub is_found-free_ne :
    (p q : ℕ) (heap : Heap) → p ≢ q → is_found (find q (free p heap)) ≡ is_found (find q heap)
unfolding find free
is_found-free_ne p q [] h = refl
is_found-free_ne p q ((r, d) ∷ rest) h = ground (arith, is_found-free_ne p q rest h)
