-- ===== src/Manager/State/Pointers.antt =====
-- The ownership of objects through assignments to the pointers of the manager and to its map.
use libnitrokey.Prelude.{ℕ, ◌≡◌, refl, List, [], ◌∷◌, Option, none, some, true, false, ◌||◌, arith}
use libnitrokey.Prelude.Bytes.{Bytes}
use libnitrokey.Device.Hid.{Hid}
use libnitrokey.Device.State.{Session}
use libnitrokey.Device.Link.{disconnect}
use libnitrokey.Manager.State.{
  Manager, at_key, value_of, set_key, erase_key, points_to, among, among_locals, on_pointer,
  disconnect_device, destroy, release, release_pointer, set_by_id, erase_by_id, clear_all,
  clear_by_id, set_device,
}
use libnitrokey.Manager.State.Laws.{IsOwned, release-IsOwned}

module _ {W : Type 0} where
  -- Whether a pointer is to an object that the map or a local variable holds.
  unfoldable pub IsHeld : List ℕ → Option ℕ → Manager W → Type 0
  IsHeld locals d m =
      (q : ℕ)
      → points_to q d ≡ true
      → (among q m.connected_devices_by_id || among_locals q locals) ≡ true

-- What replaces or drops one entry of the map, with the pointer that it held put beside it.
among-set_key :
    (q : ℕ) (key : Bytes) (d : Option ℕ) (entries : List (Bytes × Option ℕ))
    → (points_to q (value_of (at_key key entries)) || among q (set_key key d entries))
      ≡ (points_to q d || among q entries)
unfolding among at_key set_key
among-set_key q key d [] = ground arith
among-set_key q key d ((k, p) ∷ rest) = ground (arith, among-set_key q key d rest)

among-erase_key :
    (q : ℕ) (key : Bytes) (entries : List (Bytes × Option ℕ))
    → (points_to q (value_of (at_key key entries)) || among q (erase_key key entries))
      ≡ among q entries
unfolding among at_key erase_key
among-erase_key q key [] = refl
among-erase_key q key ((k, p) ∷ rest) = ground (arith, among-erase_key q key rest)

module _ {W : Type 0} (hid : Hid W) where
  beside : Option ℕ → List ℕ → List ℕ
  beside none locals = locals
  beside (some p) locals = p ∷ locals

  among_locals-beside :
      (q : ℕ) (p : Option ℕ) (locals : List ℕ)
      → among_locals q (beside p locals) ≡ (points_to q p || among_locals q locals)
  unfolding beside among_locals
  among_locals-beside q none locals = refl
  among_locals-beside q (some p) locals = refl

  release_pointer-IsOwned :
      (locals : List ℕ) (p : Option ℕ) (m : Manager W)
      → IsOwned (beside p locals) m
      → IsOwned locals (release_pointer hid locals p m)
  unfolding beside release_pointer
  release_pointer-IsOwned locals none m h = h
  release_pointer-IsOwned locals (some p) m h = release-IsOwned hid locals p m h

  pub set_device-IsOwned :
      (locals : List ℕ) (d : Option ℕ) (m : Manager W)
      → IsHeld locals d m
      → IsOwned locals m
      → IsOwned locals (set_device hid locals d m)
  unfolding set_device IsHeld
  set_device-IsOwned locals d m held h =
      release_pointer-IsOwned locals m.device (record m { device = d })
        (record {
          below = h.below;
          counted = h.counted;
          referenced =
              λ q. ground (arith, h.referenced q, held q, among_locals-beside q m.device locals);
        })

  pub set_by_id-IsOwned :
      (locals : List ℕ) (id : Bytes) (d : Option ℕ) (m : Manager W)
      → ((q : ℕ) → points_to q d ≡ true → among_locals q locals ≡ true)
      → IsOwned locals m
      → IsOwned locals (set_by_id hid locals id d m)
  unfolding set_by_id
  set_by_id-IsOwned locals id d m held h =
      let old = value_of (at_key id m.connected_devices_by_id) in
      release_pointer-IsOwned locals old
        (record m { connected_devices_by_id = set_key id d m.connected_devices_by_id })
        (record {
          below = h.below;
          counted = h.counted;
          referenced = λ q. ground (
            arith,
            h.referenced q,
            held q,
            among_locals-beside q old locals,
            among-set_key q id d m.connected_devices_by_id,
          );
        })

  pub erase_by_id-IsOwned :
      (locals : List ℕ) (id : Bytes) (m : Manager W)
      → IsOwned locals m
      → IsOwned locals (erase_by_id hid locals id m)
  unfolding erase_by_id
  erase_by_id-IsOwned locals id m h =
      let old = value_of (at_key id m.connected_devices_by_id) in
      release_pointer-IsOwned locals old
        (record m { connected_devices_by_id = erase_key id m.connected_devices_by_id })
        (record {
          below = h.below;
          counted = h.counted;
          referenced = λ q. ground (
            arith,
            h.referenced q,
            among_locals-beside q old locals,
            among-erase_key q id m.connected_devices_by_id,
          );
        })

  on_pointer-entries :
      {B : Type 0} (missing : B) (p : ℕ) (f : Session W → B × Session W) (m : Manager W)
      → (on_pointer missing p f m).1.connected_devices_by_id ≡ m.connected_devices_by_id
  unfolding on_pointer
  on_pointer-entries missing p f m = ground arith

  release-entries :
      (locals : List ℕ) (p : ℕ) (m : Manager W)
      → (release hid locals p m).connected_devices_by_id ≡ m.connected_devices_by_id
  unfolding release destroy disconnect_device
  release-entries locals p m = ground (arith, on_pointer-entries false p (disconnect hid) m)

  release_pointer-entries :
      (locals : List ℕ) (p : Option ℕ) (m : Manager W)
      → (release_pointer hid locals p m).connected_devices_by_id ≡ m.connected_devices_by_id
  unfolding release_pointer
  release_pointer-entries locals none m = refl
  release_pointer-entries locals (some p) m = release-entries locals p m

  clear_all-IsOwned :
      (entries : List (Bytes × Option ℕ)) (m : Manager W)
      → m.connected_devices_by_id ≡ entries
      → IsOwned [] m
      → IsOwned [] (clear_all hid entries m)
  unfolding clear_all
  clear_all-IsOwned [] m e h = h
  clear_all-IsOwned ((k, p) ∷ rest) m e h =
      let m1 = record m { connected_devices_by_id = rest } in
      clear_all-IsOwned rest (release_pointer hid [] p m1) (release_pointer-entries [] p m1) (
        release_pointer-IsOwned [] p m1 (record {
          below = h.below;
          counted = h.counted;
          referenced =
              λ q. unfold among in ground (arith, h.referenced q, e, among_locals-beside q p []);
        }))

  pub clear_by_id-IsOwned : (m : Manager W) → IsOwned [] m → IsOwned [] (clear_by_id hid m)
  unfolding clear_by_id
  clear_by_id-IsOwned m h = clear_all-IsOwned m.connected_devices_by_id m refl h
