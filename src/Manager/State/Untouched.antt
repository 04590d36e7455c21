-- ===== src/Manager/State/Untouched.antt =====
-- The objects that a step on another pointer leaves as they are.
use libnitrokey.Prelude.{
  ℕ, ◌≡◌, ◌≢◌, refl, ap, ◌∙◌, List, Option, none, some, Bool, true, false, if◌then◌else◌, arith,
}
use libnitrokey.Device.Hid.{Hid}
use libnitrokey.Device.State.{Device, Session}
use libnitrokey.Device.Heap.{find}
use libnitrokey.Device.Heap.Laws.{find-store_ne, find-free_ne}
use libnitrokey.Manager.State.{
  Manager, among_locals, is_referenced, session, on_found, on_pointer, disconnect_device, destroy,
  destroy_found, release, release_pointer, set_device,
}

module _ {W : Type 0} where
  pub on_pointer-find :
      {B : Type 0} (missing : B) (p r : ℕ) (f : Session W → B × Session W) (m : Manager W)
      → p ≢ r
      → find r (on_pointer missing p f m).1.heap ≡ find r m.heap
  unfolding on_pointer
  on_pointer-find {B} missing p r f m other = go (find p m.heap)
    where
      go : (o : Option Device) → find r (on_found {B = B} o missing p f m).1.heap ≡ find r m.heap
      go none = refl
      go (some d) = find-store_ne p r ((f (session m d)).1.device) m.heap other

module _ {W : Type 0} (hid : Hid W) where
  destroy-find : (p r : ℕ) (m : Manager W) → p ≢ r → find r (destroy hid p m).heap ≡ find r m.heap
  unfolding destroy disconnect_device
  destroy-find p r m other = go (find p m.heap)
    where
      go : (o : Option Device) → find r (destroy_found hid o p m).heap ≡ find r m.heap
      go none = refl
      go (some d) =
          find-free_ne p r ((disconnect_device hid p m).1.heap) other
          ∙ on_pointer-find false p r _ m other

  release-find :
      (locals : List ℕ) (p r : ℕ) (m : Manager W)
      → among_locals r locals ≡ true
      → find r (release hid locals p m).heap ≡ find r m.heap
  unfolding release
  release-find locals p r m held = go (is_referenced locals p m) refl
    where
      go :
          (b : Bool)
          → is_referenced locals p m ≡ b
          → find r (if b then m else destroy hid p m).heap ≡ find r m.heap
      go true e = refl
      go false e = destroy-find p r m λ same.
          let local : among_locals p locals ≡ true = ap (λ q. among_locals q locals) same ∙ held in
          ground arith

  -- An assignment to `device` leaves the objects of local variables alone.
  pub set_device-find :
      (locals : List ℕ) (d : Option ℕ) (r : ℕ) (m : Manager W)
      → among_locals r locals ≡ true
      → find r (set_device hid locals d m).heap ≡ find r m.heap
  unfolding set_device release_pointer
  set_device-find locals d r m held = go m.device
    where
      go :
          (o : Option ℕ)
          → find r (release_pointer hid locals o (record m { device = d })).heap ≡ find r m.heap
      go none = refl
      go (some p) = release-find locals p r (record m { device = d }) held
