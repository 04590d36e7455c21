-- ===== src/Manager/Connecting/Last.antt =====
-- Which of the devices that it makes `connect()` leaves the manager with.
use mathlib.Core.Path.{subst}
use libnitrokey.Prelude.{
  ℕ, ◌≡◌, ◌≢◌, refl, ap, ◌∙◌, List, [], ◌∷◌, Option, some, Bool, true, false, ◌||◌, ◌==◌,
  if◌then◌else◌, arith,
}
use libnitrokey.Device.Model.{
  DeviceModel, pro, storage, librem, nitrokey_vid, purism_vid, nitrokey_pro_pid,
  nitrokey_storage_pid, librem_key_pid,
}
use libnitrokey.Device.Hid.{Hid}
use libnitrokey.Device.State.{create, init_device, set_default_delay}
use libnitrokey.Device.Heap.{find}
use libnitrokey.Device.Link.{is_connected as is_connected_handle, connect as connect_handle}
use libnitrokey.Manager.State.{Manager, make_shared, set_device, among_locals, on_pointer, session}
use libnitrokey.Manager.State.Shown.{make_shared-shown, set_device-shown}
use libnitrokey.Manager.State.Untouched.{on_pointer-find, set_device-find}
use libnitrokey.Manager.Connecting.{connect_device, connect_each, connect}
use libnitrokey.Manager.Connecting.Laws.{connect_device-shown}
use libnitrokey.Manager.Connecting.Chosen.{release_all-shown}

-- hidapi opens a device by its identifiers or not, through the whole of a call.
abbrev pub IsSettled : {W : Type 0} → Hid W → (ℕ → ℕ → Bool) → Type 0
IsSettled {W} hid opens =
    (vid pid : ℕ) (w : W) → is_connected_handle (hid.hid_open vid pid w).0 ≡ opens vid pid

abbrev pub opened : (ℕ → ℕ → Bool) → DeviceModel → Bool
opened opens pro = opens nitrokey_vid nitrokey_pro_pid
opened opens storage = opens nitrokey_vid nitrokey_storage_pid
opened opens librem = opens purism_vid librem_key_pid

-- Whether one of the devices opens, or there was one before, and the last one that opens.
abbrev pub any_opened : (ℕ → ℕ → Bool) → Bool → List (ℕ × DeviceModel) → Bool
any_opened opens before [] = before
any_opened opens before ((q, model) ∷ rest) = any_opened opens (opened opens model || before) rest

abbrev pub last_opened : (ℕ → ℕ → Bool) → Option ℕ → List (ℕ × DeviceModel) → Option ℕ
last_opened opens device [] = device
last_opened opens device ((q, model) ∷ rest) =
    last_opened opens (if opened opens model then some q else device) rest

-- The devices that `connect()` makes, in the order in which it tries them.
abbrev pub three_devices : ℕ → ℕ → ℕ → List (ℕ × DeviceModel)
three_devices p s l = (p, pro) ∷ (s, storage) ∷ (l, librem) ∷ []

abbrev addresses : List (ℕ × DeviceModel) → List ℕ
addresses [] = []
addresses ((q, model) ∷ rest) = q ∷ addresses rest

abbrev AreOther : ℕ → List (ℕ × DeviceModel) → Type 0
AreOther q [] = Unit
AreOther q ((r, model) ∷ rest) = (q ≢ r) × AreOther q rest

module _ {W : Type 0} (hid : Hid W) (opens : ℕ → ℕ → Bool) (settled : IsSettled hid opens)
    (delay : ℕ) (devices : List ℕ) where
  -- The devices that are still to try are held by local variables, are as they were made, and are
  -- different objects.
  abbrev AreReady : List (ℕ × DeviceModel) → Manager W → Type 0
  AreReady [] m = Unit
  AreReady ((q, model) ∷ rest) m =
      (among_locals q devices ≡ true)
      × (find q m.heap ≡ some (create delay model))
      × AreOther q rest
      × AreReady rest m

  delayed-opened :
      (vid pid : ℕ) (model : DeviceModel) (x y z : ℕ) (m : Manager W) (b : Bool)
      → let d = init_device vid pid model x y z in
        let delayed = record d { retry_timeout = delay; send_receive_delay = delay } in
        (connect_handle hid (session m (if b then d else delayed))).0 ≡ opens vid pid
  unfolding connect_handle init_device
  delayed-opened vid pid model x y z m true = settled vid pid m.world
  delayed-opened vid pid model x y z m false = settled vid pid m.world

  connect_device-opened :
      (q : ℕ) (model : DeviceModel) (m : Manager W)
      → find q m.heap ≡ some (create delay model)
      → (connect_device hid q m).0 ≡ opened opens model
  unfolding connect_device on_pointer create set_default_delay
  connect_device-opened q pro m found =
      rw found (delayed-opened nitrokey_vid nitrokey_pro_pid pro 100 15 100 m (delay == 0))
  connect_device-opened q storage m found =
      rw found (delayed-opened nitrokey_vid nitrokey_storage_pid storage 40 55 40 m (delay == 0))
  connect_device-opened q librem m found =
      rw found (delayed-opened purism_vid librem_key_pid librem 100 15 100 m (delay == 0))

  tried-AreReady :
      (q : ℕ) (rest : List (ℕ × DeviceModel)) (m : Manager W)
      → AreOther q rest
      → AreReady rest m
      → AreReady rest (connect_device hid q m).1
  unfolding connect_device
  tried-AreReady q [] m other h = tt
  tried-AreReady q ((r, model) ∷ rest) m other h = (
    h.0,
    on_pointer-find false q r (connect_handle hid) m (other.0) ∙ h.1,
    h.2,
    tried-AreReady q rest m (other.1) (h.3),
  )

  taken-AreReady :
      (d : Option ℕ) (rest : List (ℕ × DeviceModel)) (m : Manager W)
      → AreReady rest m
      → AreReady rest (set_device hid devices d m)
  taken-AreReady d [] m h = tt
  taken-AreReady d ((r, model) ∷ rest) m h =
      (h.0, set_device-find hid devices d r m (h.0) ∙ h.1, h.2, taken-AreReady d rest m (h.3))

  connect_each-last :
      (rest : List (ℕ × DeviceModel)) (connected : Bool) (m : Manager W)
      → AreReady rest m
      → let r = connect_each hid devices (addresses rest) connected m in
        (r.0 ≡ any_opened opens connected rest) × (r.1.device ≡ last_opened opens m.device rest)
  unfolding connect_each
  connect_each-last [] connected m h = (refl, refl)
  connect_each-last ((q, model) ∷ rest) connected m h =
      let m1 = (connect_device hid q m).1 in
      let ready : AreReady rest m1 = tried-AreReady q rest m (h.2) (h.3) in
      let (any, last) =
        connect_each-last rest true (set_device hid devices (some q) m1)
          (taken-AreReady (some q) rest m1 ready) in
      let (any_passed, last_passed) = connect_each-last rest connected m1 ready in
      let same : m1.device ≡ m.device = ap (λ t. t.device) (connect_device-shown hid q m) in
      let set = ap (λ t. t.device) (set_device-shown hid devices (some q) m1) in
      subst
        (λ o.
          let r : Bool × Manager W =
            if (connect_device hid q m).0
            then connect_each hid devices (addresses rest) true (set_device hid devices (some q) m1)
            else connect_each hid devices (addresses rest) connected m1 in
          (r.0 ≡ any_opened opens (o || connected) rest)
          × (r.1.device ≡ last_opened opens (if o then some q else m.device) rest))
        (connect_device-opened q model m (h.1))
        (elim ((connect_device hid q m).0)
          as (λ b.
            let r : Bool × Manager W =
              if b
              then connect_each hid devices (addresses rest) true
                  (set_device hid devices (some q) m1)
              else connect_each hid devices (addresses rest) connected m1 in
            (r.0 ≡ any_opened opens (b || connected) rest)
            × (r.1.device ≡ last_opened opens (if b then some q else m.device) rest)) [
              | true ↦ (any, last ∙ ap (λ d. last_opened opens d rest) set)
              | false ↦ (any_passed, last_passed ∙ ap (λ d. last_opened opens d rest) same)
            ])

made-AreReady :
    {W : Type 0} (hid : Hid W) (opens : ℕ → ℕ → Bool) (settled : IsSettled hid opens)
    (m : Manager W)
    → let (p, m1) = make_shared pro m in
      let (s, m2) = make_shared storage m1 in
      let (l, m3) = make_shared librem m2 in
      AreReady hid opens settled m.default_delay (p ∷ s ∷ l ∷ []) (three_devices p s l) m3
unfolding make_shared find among_locals
made-AreReady hid opens settled m = (
  ground arith,
  ground arith,
  ((λ e. ground arith), ((λ e. ground arith), tt)),
  (ground arith, ground arith, ((λ e. ground arith), tt), (ground arith, ground arith, tt, tt)),
)

-- Where hidapi opens a device by its identifiers or not, the same through the whole call, `connect()`
-- tries a Pro, a Storage and a Librem Key in this order. It returns true exactly when one of the three
-- opens, and the manager's device is then the last one that opens; otherwise it is the one from before.
pub connect-last :
    {W : Type 0} (hid : Hid W) (opens : ℕ → ℕ → Bool)
    → IsSettled hid opens
    → (m : Manager W)
    → let (p, m1) = make_shared pro m in
      let (s, m2) = make_shared storage m1 in
      let (l, m3) = make_shared librem m2 in
      let made = three_devices p s l in
      let (connected, m') = connect hid m in
      (connected ≡ any_opened opens false made) × (m'.device ≡ last_opened opens m.device made)
unfolding connect
connect-last hid opens settled m =
    let (p, m1) = make_shared pro m in
    let (s, m2) = make_shared storage m1 in
    let (l, m3) = make_shared librem m2 in
    let devices = p ∷ s ∷ l ∷ [] in
    let made = three_devices p s l in
    let (any, last) =
      connect_each-last hid opens settled m.default_delay devices made false m3
        (made-AreReady hid opens settled m) in
    (
      any,
      ap (λ t. t.device)
            (release_all-shown hid devices (connect_each hid devices devices false m3).1)
          ∙ last
          ∙ ap (λ t. last_opened opens t.device made)
              (make_shared-shown librem m2
                ∙ make_shared-shown storage m1
                ∙ make_shared-shown pro m),
    )
