-- ===== src/CApi/Login/Laws.antt =====
-- Logging in, and the text in which identifiers are listed.
use libnitrokey.Prelude.{
  ℕ, ◌-◌, ◌≤◌, ◌≡◌, ◌≢◌, ◌↔◌, refl, sym, ap, ◌∙◌, arith, Bool, true, false, Option, none, some,
  List, [], ◌∷◌, ◌++◌, length, length-append, take-append_exact, append_assoc, append-nil, ◌==◌,
  if◌then◌else◌,
}
use libnitrokey.Prelude.Bytes.{Bytes}
use libnitrokey.Exceptions.{Result, ok, err}
use libnitrokey.Device.Model.{DeviceModel, pro, storage, librem}
use libnitrokey.Device.Hid.{Hid}
use libnitrokey.Manager.State.{Manager}
use libnitrokey.Manager.Connecting.{
  connect_letter, connect_model, connect_known, connect_new, model_of_letter, letter_of_model,
}
use libnitrokey.CApi.Status.{Api}
use libnitrokey.CApi.Structs.{model_of}
use libnitrokey.CApi.Login.{
  handle_login, nk_login, nk_login_enum, letter_of, with_delimiters, join_ids,
}

-- What a call for a model or a letter, and the C function around it, have to do with each other.
pub IsLogin : {S : Type 0} → Result Bool × S → Result ℕ × Api S → Type 0
IsLogin r (ok code, a) =
    (a ≡ record { manager = r.1; nk_last_command_status = 0 })
    × ((code ≡ 1) ↔ (r.0 ≡ ok true))
    × (code ≤ 1)
IsLogin r (err e, a) = ⊥

opened-IsLogin :
    {S : Type 0} (opened : Bool) (s : S) → IsLogin (ok opened, s) (handle_login (ok opened, s))
unfolding IsLogin handle_login
opened-IsLogin true s = (refl, (λ h. refl, λ h. refl), omega arith)
opened-IsLogin false s = (refl, (λ h. absurd (omega arith), λ h. ground arith), omega arith)

module _ {W : Type 0} (hid : Hid W) where
  known-IsLogin :
      (model : Option DeviceModel) (m : Manager W)
      → IsLogin (connect_known hid model m) (handle_login (connect_known hid model m))
  unfolding IsLogin handle_login
  known-IsLogin none m = (refl, (λ h. ground arith, λ h. ground arith), omega arith)
  known-IsLogin (some model) m =
      opened-IsLogin ((connect_new hid model m).0) (connect_new hid model m).1

  -- `NK_login` with any letter, and `NK_login_enum` with the model of a device, return a number that is
  -- 1 exactly when the manager connected the device and else 0, record no error, and let no exception
  -- through.
  pub nk_login-IsLogin :
      (device_model : Bytes) (model : DeviceModel) (a : Api (Manager W))
      → IsLogin (connect_letter hid device_model a.manager) (nk_login hid device_model a)
        × IsLogin (connect_model hid model a.manager) (nk_login_enum hid (model_of model) a)
  unfolding nk_login nk_login_enum connect_letter connect_model model_of letter_of letter_of_model
  nk_login-IsLogin device_model model a =
      (known-IsLogin (model_of_letter device_model) a.manager, go model)
    where
      go :
          (model : DeviceModel)
          → IsLogin (connect_model hid model a.manager) (nk_login_enum hid (model_of model) a)
      go pro = known-IsLogin (model_of_letter (letter_of_model pro)) a.manager
      go storage = known-IsLogin (model_of_letter (letter_of_model storage)) a.manager
      go librem = known-IsLogin (model_of_letter (letter_of_model librem)) a.manager

-- A text is cut at every delimiter.
pub cut : Bytes → Bytes → List Bytes
cut current [] = current ∷ []
cut current (c ∷ rest) =
    let here = current ∷ cut [] rest in
    let later = cut (current ++ (c ∷ [])) rest in if c == b';' then here else later

-- No identifier contains a delimiter.
abbrev pub HasNone : Bytes → Type 0
HasNone [] = Unit
HasNone (c ∷ rest) = (c ≢ b';') × HasNone rest

abbrev pub AreIds : List Bytes → Type 0
AreIds [] = Unit
AreIds (id ∷ ids) = HasNone id × AreIds ids

between : Bytes → List Bytes → Bytes
between id [] = id
between id (next ∷ rest) = id ++ (b';' ∷ between next rest)

with_delimiters-between :
    (id : Bytes) (rest : List Bytes) → with_delimiters (id ∷ rest) ≡ between id rest ++ (b';' ∷ [])
unfolding with_delimiters between
with_delimiters-between id [] = append-nil (id ++ (b';' ∷ []))
with_delimiters-between id (next ∷ rest) =
    let longer = b';' ∷ between next rest in
    rw (with_delimiters-between next rest)
      (append_assoc id (b';' ∷ []) _ ∙ sym (append_assoc id longer (b';' ∷ [])))

join_ids-between : (id : Bytes) (rest : List Bytes) → join_ids (id ∷ rest) ≡ between id rest
unfolding join_ids
join_ids-between id rest =
    let xs = between id rest in
    let e : length (xs ++ (b';' ∷ [])) - 1 ≡ length xs =
      omega (arith, length-append {0} xs (b';' ∷ [])) in
    rw (with_delimiters-between id rest, e) (take-append_exact (length xs) xs (b';' ∷ []) refl)

cut-append :
    (current id rest : Bytes) → HasNone id → cut current (id ++ rest) ≡ cut (current ++ id) rest
unfolding cut
cut-append current [] rest h = ap (λ t. cut t rest) (sym (append-nil current))
cut-append current (c ∷ id) rest h =
    let other : (c == b';') ≡ false = ground (arith, h.0) in
    rw other (
      cut-append (current ++ (c ∷ [])) id rest (h.1)
      ∙ ap (λ t. cut t rest) (append_assoc current (c ∷ []) id))

cut-between :
    (id : Bytes) (rest : List Bytes)
    → HasNone id
    → AreIds rest
    → cut [] (between id rest) ≡ id ∷ rest
unfolding between cut
cut-between id [] h k = ap (cut []) (sym (append-nil id)) ∙ cut-append [] id [] h
cut-between id (next ∷ rest) h k =
    cut-append [] id (b';' ∷ between next rest) h
    ∙ ap (λ t. id ∷ t) (cut-between next rest (k.0) (k.1))

-- The text of at least one identifier, none of them with a semicolon, cut at its semicolons gives
-- the identifiers.
pub cut-join_ids :
    (id : Bytes) (rest : List Bytes)
    → HasNone id
    → AreIds rest
    → cut [] (join_ids (id ∷ rest)) ≡ id ∷ rest
cut-join_ids id rest h k = rw (join_ids-between id rest) (cut-between id rest h k)
