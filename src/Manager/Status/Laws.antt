-- ===== src/Manager/Status/Laws.antt =====
-- The two questions for the version agree.
use libnitrokey.Prelude.{ℕ, ◌≡◌, refl, ap, Bool, not, leb, arith}
use libnitrokey.Exceptions.{Action, Result, ok, err, then_call}
use libnitrokey.Device.Model.{DeviceModel, pro, storage, librem}
use libnitrokey.Manager.Interface.{Link, connected_model}
use libnitrokey.Manager.Status.{
  get_minor_firmware_version, is_authorization_command_supported, is_320_otp_secret_supported,
  last_authorizing, first_320,
}

abbrev pub negated : {S : Type 0} → Result Bool × S → Result Bool × S
negated (ok b, s) = (ok (not b), s)
negated (err e, s) = (err e, s)

versions :
    (model : DeviceModel) (minor : ℕ)
    → leb (first_320 model) minor ≡ not (leb minor (last_authorizing model))
unfolding first_320 last_authorizing
versions pro minor = grind arith
versions storage minor = grind arith
versions librem minor = grind arith

then_call-negated :
    {S A : Type 0} (r : Result A × S) (f g : A → Action S Bool)
    → ((a : A) (s : S) → f a s ≡ negated (g a s))
    → then_call f r ≡ negated (then_call g r)
then_call-negated (ok a, s) f g h = h a s
then_call-negated (err e, s) f g h = refl

-- In every state, and whatever the device answers, long secrets are supported exactly where
-- commands need no authorization: the two tests return opposite answers, throw the same exceptions
-- and leave the same state.
pub is_320_otp_secret_supported_lem :
    {S : Type 0} (link : Link S) (s : S)
    → is_320_otp_secret_supported link s ≡ negated (is_authorization_command_supported link s)
unfolding is_320_otp_secret_supported is_authorization_command_supported
is_320_otp_secret_supported_lem link s = then_call-negated (connected_model link s) _ _ λ model s'.
    then_call-negated (get_minor_firmware_version link s') _ _
      λ minor s''. ap (λ b. (ok b, s'')) (versions model minor)
