-- ===== src/Device/State/Laws.antt =====
-- What a newly made device is.
use libnitrokey.Prelude.{ℕ, ◌≡◌, some, arith, ◌↔◌}
use libnitrokey.Device.Model.{DeviceModel, pro, storage, librem, product_id_to_model}
use libnitrokey.Device.State.{create}

-- An enumerated product is taken for a model exactly when it carries the two identifiers that a
-- device made for that model opens.
pub product_id_to_model-create :
    (default_delay vendor_id product_id : ℕ) (m : DeviceModel)
    → (product_id_to_model vendor_id product_id ≡ some m)
      ↔ ((vendor_id ≡ (create default_delay m).vid) × (product_id ≡ (create default_delay m).pid))
unfolding product_id_to_model create
product_id_to_model-create d v p pro = (ground arith, ground arith)
product_id_to_model-create d v p storage = (ground arith, ground arith)
product_id_to_model-create d v p librem = (ground arith, ground arith)
