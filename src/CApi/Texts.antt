-- ===== src/CApi/Texts.antt =====
-- The functions of NK_C_API.cc that return the text of a response.
-- Clearing a string that is dropped is left out.
pub mod Laws
use libnitrokey.Prelude.{ℕ}
use libnitrokey.Prelude.Bytes.{Bytes}
use libnitrokey.Exceptions.{Action, pure, ◌>>=◌}
use libnitrokey.Misc.Fields.{strndup}
use libnitrokey.Manager.Interface.{Link}
use libnitrokey.Manager.Texts.{
  get_status_as_string, get_status_storage_as_string, get_sd_usage_data_as_string,
}
use libnitrokey.CApi.Status.{Api, get_with_string_result}
use libnitrokey.CApi.Login.{maximum_str_reply_length}

module _ {S : Type 0} (link : Link S) where
  unfoldable pub nk_get_status_as_string : Action (Api S) Bytes
  nk_get_status_as_string =
      get_with_string_result
        (do s ← get_status_as_string link; pure (strndup maximum_str_reply_length s))

  unfoldable pub nk_status : Action (Api S) Bytes
  nk_status = nk_get_status_as_string

  unfoldable pub nk_get_status_storage_as_string : Action (Api S) Bytes
  nk_get_status_storage_as_string = get_with_string_result (get_status_storage_as_string link)

  unfoldable pub nk_get_sd_usage_data_as_string : Action (Api S) Bytes
  nk_get_sd_usage_data_as_string = get_with_string_result (get_sd_usage_data_as_string link)
