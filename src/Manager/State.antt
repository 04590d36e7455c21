-- ===== src/Manager/State.antt =====
-- The fields of `NitrokeyManager`, and its shared pointers to devices. A null pointer is `none`. The
-- map `connected_devices` is left out: with `cache_connections` false nothing is put into it.
pub mod Laws
pub mod Pointers
pub mod Shown
pub mod Untouched
use libnitrokey.Prelude.{
  ℕ, ◌+◌, ◌-◌, List, [], ◌∷◌, Option, none, some, Bool, true, false, ◌||◌, ◌==◌, if◌then◌else◌,
}
use libnitrokey.Prelude.Bytes.{Bytes, bytes_eq}
use libnitrokey.Exceptions.{Result, ok, err}
use libnitrokey.Device.Model.{DeviceModel}
use libnitrokey.Device.Hid.{Hid}
use libnitrokey.Device.State.{Device, Session, create}
use libnitrokey.Device.Heap.{Heap, find, store, free}
use libnitrokey.Device.Link.{disconnect}

pub record Manager (W : Type 0) : Type 0 where
  pub heap : Heap
  -- the address of the next object
  pub next : ℕ
  pub device : Option ℕ
  pub connected_devices_by_id : List (Bytes × Option ℕ)
  pub current_device_id : Bytes
  -- the static members of `Device`
  pub default_delay : ℕ
  pub instances_count : ℕ
  pub world : W

-- The `std::unordered_map` with its keys in the order of their insertion.
unfoldable pub at_key : Bytes → List (Bytes × Option ℕ) → Option (Option ℕ)
at_key key [] = none
at_key key ((k, p) ∷ rest) = let later = at_key key rest in if bytes_eq key k then some p else later

unfoldable pub set_key : Bytes → Option ℕ → List (Bytes × Option ℕ) → List (Bytes × Option ℕ)
set_key key p [] = (key, p) ∷ []
set_key key p ((k, q) ∷ rest) =
    let later = set_key key p rest in if bytes_eq key k then (k, p) ∷ rest else (k, q) ∷ later

unfoldable pub erase_key : Bytes → List (Bytes × Option ℕ) → List (Bytes × Option ℕ)
erase_key key [] = []
erase_key key ((k, q) ∷ rest) =
    let later = erase_key key rest in if bytes_eq key k then rest else (k, q) ∷ later

-- Whether a pointer, or one of a map, is to the object.
-- The value at a key, where a missing one is a null pointer, as `operator[]` makes it.
abbrev pub value_of : Option (Option ℕ) → Option ℕ
value_of none = none
value_of (some p) = p

abbrev pub points_to : ℕ → Option ℕ → Bool
points_to p none = false
points_to p (some q) = p == q

unfoldable pub among : ℕ → List (Bytes × Option ℕ) → Bool
among p [] = false
among p ((k, q) ∷ rest) = points_to p q || among p rest

unfoldable pub among_locals : ℕ → List ℕ → Bool
among_locals p [] = false
among_locals p (q ∷ rest) = (p == q) || among_locals p rest

-- Whether the object is held by `device`, by the map or by a local variable.
abbrev pub is_referenced : {W : Type 0} → List ℕ → ℕ → Manager W → Bool
is_referenced locals p m =
    points_to p m.device || (among p m.connected_devices_by_id || among_locals p locals)

module _ {W : Type 0} where
  abbrev pub session : Manager W → Device → Session W
  session m d = record { device = d; world = m.world; instances_count = m.instances_count }

  -- A session's changes are the manager's.
  abbrev pub returned : ℕ → Manager W → Session W → Manager W
  returned p m s = record m {
    heap = store p s.device m.heap;
    world = s.world;
    instances_count = s.instances_count;
  }

  abbrev pub run_at : {B : Type 0} → ℕ → Manager W → B × Session W → B × Manager W
  run_at p m (b, s) = (b, returned p m s)

  -- A member function of the object that is found, if any. A shared pointer always finds one.
  abbrev pub on_found :
      {B : Type 0} → Option Device → B → ℕ → (Session W → B × Session W) → Manager W → B × Manager W
  on_found none missing p f m = (missing, m)
  on_found (some d) missing p f m = run_at p m (f (session m d))

  unfoldable pub on_pointer :
      {B : Type 0} → B → ℕ → (Session W → B × Session W) → Manager W → B × Manager W
  on_pointer missing p f m = on_found (find p m.heap) missing p f m

  -- `std::make_shared`, with the constructor's count of instances.
  unfoldable pub make_shared : DeviceModel → Manager W → ℕ × Manager W
  make_shared model m = (
    m.next,
    record m {
      heap = (m.next, create m.default_delay model) ∷ m.heap;
      next = m.next + 1;
      instances_count = m.instances_count + 1;
    },
  )

  -- `Device::set_path` and the other setters.
  pub update_device : ℕ → (Device → Device) → Manager W → Manager W
  update_device p f m = (on_pointer tt p (λ s. (tt, record s { device = f s.device })) m).1

module _ {W : Type 0} (hid : Hid W) where
  pub disconnect_device : ℕ → Manager W → Bool × Manager W
  disconnect_device p = on_pointer false p (disconnect hid)

  -- `Device::~Device`
  abbrev pub destroy_found : Option Device → ℕ → Manager W → Manager W
  destroy_found none p m = m
  destroy_found (some d) p m =
      let closed = (disconnect_device p m).1 in
      record closed { heap = free p closed.heap; instances_count = closed.instances_count - 1 }

  pub destroy : ℕ → Manager W → Manager W
  destroy p m = destroy_found (find p m.heap) p m

  -- A shared pointer to the object goes away, while the local variables hold those in the list.
  pub release : List ℕ → ℕ → Manager W → Manager W
  release locals p m = if is_referenced locals p m then m else destroy p m

  pub release_pointer : List ℕ → Option ℕ → Manager W → Manager W
  release_pointer locals none m = m
  release_pointer locals (some p) m = release locals p m

  -- `connected_devices_byID[id] = d;`
  pub set_by_id : List ℕ → Bytes → Option ℕ → Manager W → Manager W
  set_by_id locals id d m =
      release_pointer locals (value_of (at_key id m.connected_devices_by_id))
        (record m { connected_devices_by_id = set_key id d m.connected_devices_by_id })

  pub erase_by_id : List ℕ → Bytes → Manager W → Manager W
  erase_by_id locals id m =
      release_pointer locals (value_of (at_key id m.connected_devices_by_id))
        (record m { connected_devices_by_id = erase_key id m.connected_devices_by_id })

  -- `connected_devices_byID.clear()`, from the first entry to the last.
  clear_all : List (Bytes × Option ℕ) → Manager W → Manager W
  clear_all [] m = m
  clear_all ((k, p) ∷ rest) m =
      clear_all rest (release_pointer [] p (record m { connected_devices_by_id = rest }))

  pub clear_by_id : Manager W → Manager W
  clear_by_id m = clear_all m.connected_devices_by_id m

  -- `device = d;`
  pub set_device : List ℕ → Option ℕ → Manager W → Manager W
  set_device locals d m = release_pointer locals m.device (record m { device = d })
