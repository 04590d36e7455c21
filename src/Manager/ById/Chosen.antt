-- ===== src/Manager/ById/Chosen.antt =====
-- What `connect_with_ID` makes of the answers of the device.
use libnitrokey.Prelude.{
  ℕ, ◌≡◌, refl, ap, ◌∙◌, List, [], ◌∷◌, Option, none, some, Bool, true, false, arith,
}
use libnitrokey.Prelude.Bytes.{Bytes}
use libnitrokey.Exceptions.{
  Result, ok, err, Yields, Throws, long_operation_in_progress, device_not_connected,
  device_sending_failure, device_receiving_failure, invalid_crc_received,
}
use libnitrokey.Device.Hid.{Hid}
use libnitrokey.Commands.Command.{Command, stick10}
use libnitrokey.Commands.Stick10.{Stick10}
use libnitrokey.Manager.Status.{get_status}
use libnitrokey.Manager.State.{Manager, at_key, set_key, erase_key, release, set_device, set_by_id}
use libnitrokey.Manager.State.Shown.{
  shown, disconnect_device-shown, release-shown, set_device-shown, set_by_id-shown,
  erase_by_id-shown,
}
use libnitrokey.Manager.Connection.{device_link}
use libnitrokey.Manager.ById.{
  is_communication, disconnect_local, locals_of, drop_entry, validated, leave_local,
  connect_with_id,
}

erase_key-set_key :
    (key : Bytes) (d : Option ℕ) (entries : List (Bytes × Option ℕ)) (e : Option ℕ)
    → at_key key entries ≡ some e
    → erase_key key (set_key key d entries) ≡ erase_key key entries
unfolding at_key set_key erase_key
erase_key-set_key key d [] e h = ground arith
erase_key-set_key key d ((k, p) ∷ rest) e h = ground (arith, erase_key-set_key key d rest e)

-- What a call of `connect_with_ID` for an entry leaves, where it returns: on `true` the entry's
-- device is chosen under the identifier; on `false` the entry is gone, and no identifier is current.
pub IsChosen : {W : Type 0} → Bytes → Option ℕ → Manager W → Bool → Manager W → Type 0
IsChosen id d m true m' =
    (m'.device ≡ d)
    × (m'.current_device_id ≡ id)
    × (m'.connected_devices_by_id ≡ m.connected_devices_by_id)
IsChosen id d m false m' =
    (m'.device ≡ d)
    × (m'.current_device_id ≡ [])
    × (m'.connected_devices_by_id ≡ erase_key id m.connected_devices_by_id)

module _ {W : Type 0} (hid : Hid W) where
  pub transact-shown :
      (c : Command) (m : Manager W) → shown ((device_link hid).transact c m).1 ≡ shown m
  unfolding device_link
  transact-shown c m = ground arith

  disconnect_local-shown :
      (d : Option ℕ) (m : Manager W) → shown (disconnect_local hid d m) ≡ shown m
  disconnect_local-shown none m = refl
  disconnect_local-shown (some p) m = disconnect_device-shown hid p m

  -- What the handler leaves, where the entry was there.
  drop_entry-entries :
      (d : Option ℕ) (id : Bytes) (m : Manager W) (e : Option ℕ)
      → at_key id m.connected_devices_by_id ≡ some e
      → ((drop_entry hid d id m).device ≡ m.device)
        × ((drop_entry hid d id m).current_device_id ≡ [])
        × ((drop_entry hid d id m).connected_devices_by_id ≡ erase_key id m.connected_devices_by_id)
  unfolding drop_entry
  drop_entry-entries d id m e h =
      let locals = locals_of hid d in
      let m1 = record (disconnect_local hid d m) { current_device_id = [] } in
      let m2 = set_by_id hid locals id none m1 in
      let erased = erase_by_id-shown hid locals id m2 in
      let nulled = set_by_id-shown hid locals id none m1 in
      let closed = disconnect_local-shown d m in
      let entries : m1.connected_devices_by_id ≡ m.connected_devices_by_id =
        ap (λ t. t.connected_devices_by_id) closed in
      (
        ap (λ t. t.device) erased ∙ ap (λ t. t.device) nulled ∙ ap (λ t. t.device) closed,
        ap (λ t. t.current_device_id) erased ∙ ap (λ t. t.current_device_id) nulled,
        ap (λ t. t.connected_devices_by_id) erased
            ∙ ap (λ t. erase_key id (t.connected_devices_by_id)) nulled
            ∙ ap (λ l. erase_key id (set_key id none l)) entries
            ∙ erase_key-set_key id none m.connected_devices_by_id e h,
      )

  dropped-IsChosen :
      (d : Option ℕ) (id : Bytes) (m m' : Manager W)
      → at_key id m.connected_devices_by_id ≡ some d
      → m'.device ≡ d
      → m'.connected_devices_by_id ≡ m.connected_devices_by_id
      → IsChosen id d m false (drop_entry hid d id m')
  unfolding IsChosen
  dropped-IsChosen d id m m' e hd hm =
      let (device, current, entries) = drop_entry-entries d id m' d (ap (at_key id) hm ∙ e) in
      (device ∙ hd, current, entries ∙ ap (erase_key id) hm)

  validated-IsChosen :
      (d : Option ℕ) (id : Bytes) (m : Manager W) (r : Result Bytes × Manager W)
      → at_key id m.connected_devices_by_id ≡ some d
      → r.1.device ≡ d
      → r.1.current_device_id ≡ id
      → r.1.connected_devices_by_id ≡ m.connected_devices_by_id
      → Yields (IsChosen id d m) (validated hid d id r)
  unfolding validated is_communication
  validated-IsChosen d id m (ok status, m') e hd hc hm = unfold IsChosen in (hd, hc, hm)
  validated-IsChosen d id m (err x, m') e hd hc hm =
      let dropped = dropped-IsChosen d id m m' e hd hm in
      elim x as (λ x. Yields (IsChosen id d m) (validated hid d id (err x, m'))) [
        | long_operation_in_progress command status progress ↦ unfold IsChosen in (hd, hc, hm)
        | device_not_connected ↦ dropped
        | device_sending_failure sent ↦ dropped
        | device_receiving_failure ↦ dropped
        | invalid_crc_received ↦ dropped
        | _ ↦ tt
      ]

  validated-Throws :
      (d : Option ℕ) (id : Bytes) (r : Result Bytes × Manager W)
      → Throws (λ x. is_communication x ≡ false) (validated hid d id r)
  unfolding validated is_communication
  validated-Throws d id (ok status, m) = tt
  validated-Throws d id (err x, m) =
      elim x as (λ x. Throws (λ x. is_communication x ≡ false) (validated hid d id (err x, m))) [
        | long_operation_in_progress command status progress ↦ tt
        | device_not_connected ↦ tt
        | device_sending_failure sent ↦ tt
        | device_receiving_failure ↦ tt
        | invalid_crc_received ↦ tt
        | _ ↦ refl
      ]

  release-IsChosen :
      (p : ℕ) (id : Bytes) (d : Option ℕ) (m m' : Manager W) (b : Bool)
      → IsChosen id d m b m'
      → IsChosen id d m b (release hid [] p m')
  unfolding IsChosen
  release-IsChosen p id d m m' true (hd, hc, hm) =
      let e = release-shown hid [] p m' in
      (
        ap (λ t. t.device) e ∙ hd,
        ap (λ t. t.current_device_id) e ∙ hc,
        ap (λ t. t.connected_devices_by_id) e ∙ hm,
      )
  release-IsChosen p id d m m' false (hd, hc, hm) =
      let e = release-shown hid [] p m' in
      (
        ap (λ t. t.device) e ∙ hd,
        ap (λ t. t.current_device_id) e ∙ hc,
        ap (λ t. t.connected_devices_by_id) e ∙ hm,
      )

  leave_local-IsChosen :
      (o : Option ℕ) (id : Bytes) (d : Option ℕ) (m : Manager W) (r : Result Bool × Manager W)
      → Yields (IsChosen id d m) r
      → Throws (λ x. is_communication x ≡ false) r
      → Yields (IsChosen id d m) (leave_local hid o r)
        × Throws (λ x. is_communication x ≡ false) (leave_local hid o r)
  leave_local-IsChosen none id d m (ok b, m') y t = (y, tt)
  leave_local-IsChosen none id d m (err x, m') y t = (tt, t)
  leave_local-IsChosen (some p) id d m (ok b, m') y t = (release-IsChosen p id d m m' b y, tt)
  leave_local-IsChosen (some p) id d m (err x, m') y t = (tt, t)

  -- `connect_with_ID` for an identifier of the map. Where it returns true, the device of the entry
  -- has become the manager's under that identifier, with the map unchanged; where it returns false,
  -- no identifier is current and the entry is erased. What it throws is no failure of communication.
  pub connect_with_id-IsChosen :
      (id : Bytes) (d : Option ℕ) (m : Manager W)
      → at_key id m.connected_devices_by_id ≡ some d
      → Yields (IsChosen id d m) (connect_with_id hid id m)
        × Throws (λ x. is_communication x ≡ false) (connect_with_id hid id m)
  unfolding connect_with_id get_status
  connect_with_id-IsChosen id d m e =
      let chosen = record (set_device hid (locals_of hid d) d m) { current_device_id = id } in
      let r = (device_link hid).transact (stick10 Stick10.get_status) chosen in
      let set = set_device-shown hid (locals_of hid d) d m in
      let ran = transact-shown (stick10 Stick10.get_status) chosen in
      let y : Yields (IsChosen id d m) (validated hid d id r) =
        validated-IsChosen d id m r e (ap (λ t. t.device) ran ∙ ap (λ t. t.device) set)
          (ap (λ t. t.current_device_id) ran)
          (ap (λ t. t.connected_devices_by_id) ran ∙ ap (λ t. t.connected_devices_by_id) set) in
      rw e (leave_local-IsChosen d id d m (validated hid d id r) y (validated-Throws d id r))
