-- ===== src/Device/Enumeration/Listed.antt =====
-- Which devices `enumerate` lists.
use mathlib.Core.List.{Memᴰ}
use mathlib.Core.List.Memᴰ
use mathlib.Core.Logic.{⊎_elim}
use mathlib.Core.Path.{subst}
use libnitrokey.Prelude.{
  ℕ, ◌≡◌, refl, sym, ap, ◌∙◌, ◌↔◌, ◌⊎◌, inl, inr, Option, none, some, List, [], ◌∷◌, ◌++◌, arith,
}
use libnitrokey.Prelude.Bytes.{Bytes}
use libnitrokey.Exceptions.{Result, ok, err, then_call}
use libnitrokey.Device.Model.{DeviceModel, product_id_to_model, nitrokey_vid, purism_vid}
use libnitrokey.Device.Hid.{Hid, HidDeviceInfo}
use libnitrokey.Device.Enumeration.{
  DeviceInfo, entry, read_entry, read_entries, add_vendor_devices, enumerate,
}

module _ {W : Type 0} (hid : Hid W) where
  -- The entry has a path, a serial number that converts and a product of a known model, and the
  -- device is made of them.
  abbrev pub IsOf : ℕ → HidDeviceInfo → DeviceInfo → Type 0
  IsOf vendor_id info d =
      (info.path ≡ some (d.path))
      × (product_id_to_model vendor_id (info.product_id) ≡ some (d.device_model))
      × (wide : List ℕ) × (info.serial_number ≡ some wide)
      × (hid.to_bytes wide ≡ some (d.serial_number))

  abbrev pub IsListed : ℕ → List HidDeviceInfo → DeviceInfo → Type 0
  IsListed vendor_id infos d = (info : HidDeviceInfo) × Memᴰ info infos × IsOf vendor_id info d

  -- The same with what stands in the entry.
  IsMade : Option Bytes → Option (List ℕ) → Option DeviceModel → DeviceInfo → Type 0
  IsMade path serial model d =
      (path ≡ some (d.path))
      × (model ≡ some (d.device_model))
      × (wide : List ℕ) × (serial ≡ some wide)
      × (hid.to_bytes wide ≡ some (d.serial_number))

  none-Mem :
      {found : List DeviceInfo}
      → ok [] ≡ ok found
      → (P : Type 0) → (P → ⊥)
      → (d : DeviceInfo) → Memᴰ d found ↔ P
  none-Mem {found} e P empty d =
      let nothing : [] ≡ found = ground arith in
      (λ m. absurd (Memᴰ.not-nil (subst (λ l. Memᴰ d l) (sym nothing) m)), λ p. absurd (empty p))

  entry-Mem :
      (path : Bytes) (wide : List ℕ) (model : Option DeviceModel) (text : Option Bytes)
      {found : List DeviceInfo}
      → hid.to_bytes wide ≡ text
      → entry model path text ≡ ok found
      → (d : DeviceInfo) → Memᴰ d found ↔ IsMade (some path) (some wide) model d
  unfolding IsMade
  entry-Mem path wide none text t e d =
      none-Mem e (IsMade (some path) (some wide) none d) (λ p. ground arith) d
  entry-Mem path wide (some model) none t e d = absurd (ground arith)
  entry-Mem path wide (some model) (some serial) {found} t e d =
      let one : DeviceInfo = record { device_model = model; path = path; serial_number = serial } in
      let single : one ∷ [] ≡ found = ground arith in
      (
        λ m.
            let same : d ≡ one = Memᴰ.eq_of_singleton (subst (λ l. Memᴰ d l) (sym single) m) in
            (
              ap (λ x. some (x.path)) (sym same),
              ap (λ x. some (x.device_model)) (sym same),
              wide,
              refl,
              t ∙ ap (λ x. some (x.serial_number)) (sym same),
            ),
        λ (p, m, wide', w, s).
            let path_eq : d.path ≡ path = ground arith in
            let model_eq : d.device_model ≡ model = ground arith in
            let wide_eq : wide' ≡ wide = ground arith in
            let serial_eq : d.serial_number ≡ serial = ground arith in
            subst (λ l. Memᴰ d l) single
              (Memᴰ.head (λ i. record {
                device_model = model_eq i;
                path = path_eq i;
                serial_number = serial_eq i;
              })),
      )

  read_entry-Mem :
      (vendor_id : ℕ) (path : Option Bytes) (serial : Option (List ℕ)) (vendor product : ℕ)
      {found : List DeviceInfo}
      → read_entry hid vendor_id
          (record { path = path; serial_number = serial; vendor_id = vendor; product_id = product })
        ≡ ok found
      → (d : DeviceInfo)
      → Memᴰ d found ↔ IsMade path serial (product_id_to_model vendor_id product) d
  unfolding read_entry IsMade
  read_entry-Mem v none serial vendor product e d =
      none-Mem e (IsMade none serial (product_id_to_model v product) d) (λ p. ground arith) d
  read_entry-Mem v (some path) none vendor product e d =
      none-Mem e (IsMade (some path) none (product_id_to_model v product) d) (λ p. ground arith) d
  read_entry-Mem v (some path) (some wide) vendor product e d =
      entry-Mem path wide (product_id_to_model v product) (hid.to_bytes wide) refl e d

  IsListed-cons :
      (v : ℕ) (info : HidDeviceInfo) (infos : List HidDeviceInfo) (d : DeviceInfo)
      → IsListed v (info ∷ infos) d ↔ (IsOf v info d ⊎ IsListed v infos d)
  IsListed-cons v info infos d = (
    λ (i, m, p).
        ⊎_elim (λ e. inl (subst (λ j. IsOf v j d) e p)) (λ m'. inr (i, m', p)) (Memᴰ.cases_cons m),
    ⊎_elim (λ p. (info, Memᴰ.head refl, p)) (λ (i, m, p). (i, Memᴰ.tail m, p)),
  )

  read_entries-Mem :
      (v : ℕ) (infos : List HidDeviceInfo) (res : List DeviceInfo) {out : List DeviceInfo}
      → read_entries hid v infos res ≡ ok out
      → (d : DeviceInfo) → Memᴰ d out ↔ (Memᴰ d res ⊎ IsListed v infos d)
  unfolding read_entries
  read_entries-Mem v [] res {out} e d =
      let same : res ≡ out = ground arith in
      (
        λ m. inl (subst (λ l. Memᴰ d l) (sym same) m),
        ⊎_elim (λ m. subst (λ l. Memᴰ d l) same m) (λ (i, m, p). absurd (Memᴰ.not-nil m)),
      )
  read_entries-Mem v (info ∷ infos) res {out} e d =
      go (λ found e'. read_entries-Mem v infos (res ++ found) e' d) (read_entry hid v info) refl e
    where
      go :
          ((found : List DeviceInfo)
            → read_entries hid v infos (res ++ found) ≡ ok out
            → Memᴰ d out ↔ (Memᴰ d (res ++ found) ⊎ IsListed v infos d))
          → (r : Result (List DeviceInfo)) → read_entry hid v info ≡ r
          → elim r [ ok found ↦ read_entries hid v infos (res ++ found) | err x ↦ err x ] ≡ ok out
          → Memᴰ d out ↔ (Memᴰ d res ⊎ IsListed v (info ∷ infos) d)
      go below (err x) h e' = absurd (ground arith)
      go below (ok found) h e' =
          let rest = below found e' in
          let first : Memᴰ d found ↔ IsOf v info d =
            unfold IsMade in
            read_entry-Mem v (info.path) (info.serial_number) (info.vendor_id) (info.product_id) h
              d in
          let listed = IsListed-cons v info infos d in
          (
            λ m.
                ⊎_elim
                  (λ a.
                    ⊎_elim inl (λ f. inr (listed.1 (inl (first.0 f)))) (Memᴰ.append_cases res a))
                  (λ l. inr (listed.1 (inr l))) (rest.0 m),
            ⊎_elim (λ m. rest.1 (inl (Memᴰ.append_left found m)))
                (λ l.
                  ⊎_elim (λ p. rest.1 (inl (Memᴰ.append_right res (first.1 p))))
                    (λ q. rest.1 (inr q)) (listed.0 l)),
          )

  -- Where `enumerate` returns, it lists exactly the devices of the entries that hidapi gives for the two
  -- vendors and that have a path, a serial number and a product of a known model.
  pub enumerate-AreListed :
      (w : W) {res : List DeviceInfo} {w' : W}
      → enumerate hid w ≡ (ok res, w')
      → (d : DeviceInfo)
      → let (nitrokeys, w1) = hid.hid_enumerate nitrokey_vid 0 w in
        let (librems, w2) = hid.hid_enumerate purism_vid 0 w1 in
        Memᴰ d res ↔ (IsListed nitrokey_vid nitrokeys d ⊎ IsListed purism_vid librems d)
  unfolding enumerate add_vendor_devices
  enumerate-AreListed w {res} {w'} e d =
      let (nitrokeys, w1) = hid.hid_enumerate nitrokey_vid 0 w in
      let (librems, w2) = hid.hid_enumerate purism_vid 0 w1 in
      go (read_entries hid nitrokey_vid nitrokeys []) refl e
    where
      nks : List HidDeviceInfo
      nks = (hid.hid_enumerate nitrokey_vid 0 w).0

      w1 : W
      w1 = (hid.hid_enumerate nitrokey_vid 0 w).1

      lks : List HidDeviceInfo
      lks = (hid.hid_enumerate purism_vid 0 w1).0

      go :
          (r : Result (List DeviceInfo))
          → read_entries hid nitrokey_vid nks [] ≡ r
          → then_call (λ found. add_vendor_devices hid found purism_vid) (r, w1) ≡ (ok res, w')
          → Memᴰ d res ↔ (IsListed nitrokey_vid nks d ⊎ IsListed purism_vid lks d)
      go (err x) h e' = absurd (ground arith)
      go (ok found) h e' =
          let first = read_entries-Mem nitrokey_vid nks [] h d in
          let rest = read_entries-Mem purism_vid lks found (ap (λ p. p.0) e') d in
          (
            λ m. ⊎_elim (λ f. ⊎_elim (λ n. absurd (Memᴰ.not-nil n)) inl (first.0 f)) inr (rest.0 m),
            ⊎_elim (λ l. rest.1 (inl (first.1 (inr l)))) (λ l. rest.1 (inr l)),
          )
