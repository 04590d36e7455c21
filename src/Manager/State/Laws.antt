-- ===== src/Manager/State/Laws.antt =====
-- The ownership of objects by shared pointers, through the steps of the operations.
use libnitrokey.Prelude.{
  ℕ, ◌-◌, ◌≡◌, refl, sym, ◌∙◌, List, ◌∷◌, Option, none, some, true, false, length, arith,
  Bool-cases, Option-cases, inl, inr,
}
use libnitrokey.Device.Model.{DeviceModel}
use libnitrokey.Device.Hid.{Hid}
use libnitrokey.Device.State.{Device, Session}
use libnitrokey.Device.Heap.{find, free}
use libnitrokey.Device.Heap.Laws.{
  is_found, AreBelow, is_found-store, store-AreBelow, free-AreBelow, is_found-free,
  is_found-free_ne, length-free, length-store,
}
use libnitrokey.Device.Link.{disconnect}
use libnitrokey.Device.Link.Laws.{disconnect-instances_count}
use libnitrokey.Manager.State.{
  Manager, among_locals, is_referenced, session, returned, run_at, on_found, on_pointer,
  make_shared, update_device, disconnect_device, destroy_found, destroy, release,
}

-- Every object is counted, and there is one at an address exactly when it is held: nothing dangles
-- and nothing leaks.
pub record IsOwned {W : Type 0} (locals : List ℕ) (m : Manager W) : Type 0 where
  pub below : AreBelow m.next m.heap
  pub counted : m.instances_count ≡ length m.heap
  pub referenced : (p : ℕ) → is_found (find p m.heap) ≡ is_referenced locals p m

abbrev pub KeepsCount : {W B : Type 0} → (Session W → B × Session W) → Type 0
KeepsCount f = (s : Session _) → (f s).1.instances_count ≡ s.instances_count

module _ {W : Type 0} where
  returned-IsOwned :
      (locals : List ℕ) (p : ℕ) (m : Manager W) (s : Session W)
      → s.instances_count ≡ m.instances_count
      → IsOwned locals m
      → IsOwned locals (returned p m s)
  returned-IsOwned locals p m s e h = record {
    below = store-AreBelow m.next p s.device m.heap h.below;
    counted = e ∙ h.counted ∙ sym (length-store p s.device m.heap);
    referenced = λ q. is_found-store p q s.device m.heap ∙ h.referenced q;
  }

  -- A member function that is called on an object leaves the ownership alone.
  pub on_found-IsOwned :
      {B : Type 0} (locals : List ℕ) (missing : B) (o : Option Device) (p : ℕ)
      (f : Session W → B × Session W) (m : Manager W)
      → KeepsCount f
      → IsOwned locals m
      → IsOwned locals (on_found o missing p f m).1
  on_found-IsOwned {B} locals missing none p f m k h = h
  on_found-IsOwned {B} locals missing (some d) p f m k h = go (f (session m d)) (k (session m d))
    where
      go :
          (r : B × Session W)
          → r.1.instances_count ≡ m.instances_count
          → IsOwned locals (run_at p m r).1
      go (b, s) e = returned-IsOwned locals p m s e h

  pub on_pointer-IsOwned :
      {B : Type 0} (locals : List ℕ) (missing : B) (p : ℕ) (f : Session W → B × Session W)
      (m : Manager W)
      → KeepsCount f
      → IsOwned locals m
      → IsOwned locals (on_pointer missing p f m).1
  unfolding on_pointer
  on_pointer-IsOwned locals missing p f m k h =
      on_found-IsOwned locals missing (find p m.heap) p f m k h

  pub update_device-IsOwned :
      (locals : List ℕ) (p : ℕ) (f : Device → Device) (m : Manager W)
      → IsOwned locals m
      → IsOwned locals (update_device p f m)
  unfolding update_device
  update_device-IsOwned locals p f m h = on_pointer-IsOwned locals tt p _ m (λ s. refl) h

  pub make_shared-IsOwned :
      (locals : List ℕ) (model : DeviceModel) (m : Manager W)
      → IsOwned locals m
      → IsOwned ((make_shared model m).0 ∷ locals) (make_shared model m).1
  unfolding make_shared find among_locals
  make_shared-IsOwned locals model m h = record {
    below = (omega arith, h.below);
    counted = omega (arith, h.counted);
    referenced = λ q. ground (arith, h.referenced q);
  }

  free-IsOwned :
      (locals : List ℕ) (p : ℕ) (m : Manager W)
      → is_referenced locals p m ≡ false
      → IsOwned (p ∷ locals) m
      → IsOwned locals (record m { heap = free p m.heap; instances_count = m.instances_count - 1 })
  unfolding among_locals
  free-IsOwned locals p m unreferenced h = record {
    below = free-AreBelow m.next p m.heap h.below;
    counted = elim (Option-cases (find p m.heap)) [
      | inl e ↦ absurd (ground (arith, h.referenced p, e))
      | inr (d, e) ↦ omega (arith, h.counted, length-free p d m.heap e)
    ];
    referenced = λ q. ground (
      arith,
      h.referenced q,
      is_found-free m.next p m.heap h.below,
      is_found-free_ne p q m.heap,
      unreferenced,
    );
  }

  on_pointer-is_referenced :
      {B : Type 0} (locals : List ℕ) (q : ℕ) (missing : B) (p : ℕ) (f : Session W → B × Session W)
      (m : Manager W)
      → is_referenced locals q (on_pointer missing p f m).1 ≡ is_referenced locals q m
  unfolding on_pointer
  on_pointer-is_referenced locals q missing p f m = ground arith

module _ {W : Type 0} (hid : Hid W) where
  pub disconnect_device-IsOwned :
      (locals : List ℕ) (p : ℕ) (m : Manager W)
      → IsOwned locals m
      → IsOwned locals (disconnect_device hid p m).1
  unfolding disconnect_device
  disconnect_device-IsOwned locals p m h =
      on_pointer-IsOwned locals false p (disconnect hid) m (disconnect-instances_count hid) h

  -- An object that only the pointer in question still holds is destroyed, and no other.
  destroy-IsOwned :
      (locals : List ℕ) (p : ℕ) (m : Manager W)
      → is_referenced locals p m ≡ false
      → IsOwned (p ∷ locals) m
      → IsOwned locals (destroy hid p m)
  unfolding destroy
  destroy-IsOwned locals p m e h = go (find p m.heap) refl
    where
      go : (o : Option Device) → find p m.heap ≡ o → IsOwned locals (destroy_found hid o p m)
      go none found = absurd (unfold among_locals in ground (arith, h.referenced p, found))
      go (some d) found =
          free-IsOwned locals p (disconnect_device hid p m).1
            (unfold disconnect_device in
              on_pointer-is_referenced locals p false p (disconnect hid) m ∙ e)
            (disconnect_device-IsOwned (p ∷ locals) p m h)

  held :
      (locals : List ℕ) (p : ℕ) (m : Manager W)
      → is_referenced locals p m ≡ true
      → IsOwned (p ∷ locals) m
      → IsOwned locals m
  unfolding among_locals
  held locals p m e h = record {
    below = h.below;
    counted = h.counted;
    referenced = λ q. ground (arith, h.referenced q, e);
  }

  pub release-IsOwned :
      (locals : List ℕ) (p : ℕ) (m : Manager W)
      → IsOwned (p ∷ locals) m
      → IsOwned locals (release hid locals p m)
  unfolding release
  release-IsOwned locals p m h = elim (Bool-cases (is_referenced locals p m)) [
    | inl e ↦ rw e (held locals p m e h)
    | inr e ↦ rw e (destroy-IsOwned locals p m e h)
  ]
