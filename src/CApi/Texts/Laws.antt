-- ===== src/CApi/Texts/Laws.antt =====
-- The texts of responses as a client gets them.
use libnitrokey.Prelude.{ℕ, ◌≡◌, refl, ap, Option, none, some, List, [], arith}
use libnitrokey.Prelude.Bytes.{Bytes}
use libnitrokey.Exceptions.{Result, ok, err, Exception, then_call, pure}
use libnitrokey.Misc.Fields.{strndup, strndup_all}
use libnitrokey.Misc.Stream.{Item, str}
use libnitrokey.Manager.Interface.{Link}
use libnitrokey.Manager.Texts.{
  get_status_as_string, get_status_storage_as_string, get_sd_usage_data_as_string,
}
use libnitrokey.Commands.Command.{stick10, stick20}
use libnitrokey.Commands.Stick10.{Stick10}
use libnitrokey.Commands.Stick20.{Stick20}
use libnitrokey.Commands.Dissect.Responses.{
  dissect_get_status, dissect_device_configuration, dissect_get_sd_card_occupancy,
}
use libnitrokey.Commands.Dissect.Whole.{texts-ArePrinted}
use libnitrokey.CApi.Status.{Api, status_of, get_with_status, handle_status, get_with_string_result}
use libnitrokey.CApi.Texts.{
  nk_get_status_as_string, nk_get_status_storage_as_string, nk_get_sd_usage_data_as_string,
}

module _ {S : Type 0} where
  -- What a client gets for the outcome of a command: the text of the answer, or the empty text and
  -- the status of the exception, if a handler has one for it.
  abbrev refused : Exception → Option ℕ → S → Result Bytes × Api S
  refused e (some status) s = (ok [], record { manager = s; nk_last_command_status = status })
  refused e none s = (err e, record { manager = s; nk_last_command_status = 0 })

  abbrev pub told : (Bytes → List Item) → Result Bytes × S → Result Bytes × Api S
  told dissect (ok payload, s) =
      (ok (str (dissect payload)), record { manager = s; nk_last_command_status = 0 })
  told dissect (err e, s) = refused e (status_of e) s

  -- A call that makes the text of the answer out of the outcome of the command.
  string-told :
      (dissect : Bytes → List Item) (func : Result Bytes × S → Result Bytes × S)
      → ((payload : Bytes) (s : S) → func (ok payload, s) ≡ (ok (str (dissect payload)), s))
      → ((e : Exception) (s : S) → func (err e, s) ≡ (err e, s))
      → (r : Result Bytes × S) (a : Api S) → get_with_string_result (λ _. func r) a ≡ told dissect r
  unfolding get_with_string_result get_with_status handle_status
  string-told dissect func good bad (ok payload, s) a = rw (good payload s) refl
  string-told dissect func good bad (err e, s) a = rw (bad e s) (ground arith)

-- The three functions of the C interface that return the text of a response send its command and return
-- the whole text of the answer; where the command throws they return the empty text and the status
-- of the exception, or let out an exception that has none.
pub nk_texts_lem :
    {S : Type 0} (link : Link S) (a : Api S)
    → (nk_get_status_as_string link a
        ≡ told dissect_get_status (link.transact (stick10 Stick10.get_status) (a.manager)))
      × (nk_get_status_storage_as_string link a
          ≡ told dissect_device_configuration
              (link.transact (stick20 Stick20.get_device_status) (a.manager)))
      × (nk_get_sd_usage_data_as_string link a
          ≡ told dissect_get_sd_card_occupancy
              (link.transact (stick20 Stick20.get_sd_card_occupancy) (a.manager)))
unfolding nk_get_status_as_string nk_get_status_storage_as_string nk_get_sd_usage_data_as_string
    get_status_as_string get_status_storage_as_string get_sd_usage_data_as_string
    get_with_string_result get_with_status
nk_texts_lem link a = (
  string-told dissect_get_status
      (λ r.
        then_call (λ s. pure (strndup 8192 s))
          (then_call (λ p. pure (str (dissect_get_status p))) r))
      (λ p s.
        let whole = (texts-ArePrinted p).0 in
        ap (λ t. (ok t, s))
          (strndup_all 8192 (str (dissect_get_status p)) whole.1 (omega (arith, whole.0))))
      (λ e s. refl) (link.transact (stick10 Stick10.get_status) (a.manager)) a,
  string-told dissect_device_configuration
      (then_call (λ p. pure (strndup 2048 (str (dissect_device_configuration p)))))
      (λ p s.
        let whole = (texts-ArePrinted p).1 in
        ap (λ t. (ok t, s))
          (strndup_all 2048 (str (dissect_device_configuration p)) whole.1 whole.0))
      (λ e s. refl) (link.transact (stick20 Stick20.get_device_status) (a.manager)) a,
  string-told dissect_get_sd_card_occupancy
      (then_call (λ p. pure (strndup 2048 (str (dissect_get_sd_card_occupancy p)))))
      (λ p s.
        let whole = (texts-ArePrinted p).2 in
        ap (λ t. (ok t, s))
          (strndup_all 2048 (str (dissect_get_sd_card_occupancy p)) whole.1 whole.0))
      (λ e s. refl) (link.transact (stick20 Stick20.get_sd_card_occupancy) (a.manager)) a,
)
