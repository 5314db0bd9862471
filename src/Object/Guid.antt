-- ===== src/Object/Guid.antt =====
-- src/util/guid/SmartGUID.cpp: a GUID as a mask of its bytes that are not zero, and these bytes.
pub mod Packed
pub mod Places
use whoa.Base.{ℕ, zero, suc, ◌+◌, ◌*◌, ◌%◌, ◌^◌, ◌==◌, bit_and, bit_or, if◌then◌else◌, Bool}
use whoa.Object.DataStore.{DataStore, pure, ◌>>=◌, ◌>>◌}

module _ (d : DataStore) where
  -- The body of the loop at byte i.
  unfoldable pub guid_byte : ℕ → ℕ → ℕ → d.Store → ℕ × d.Store
  guid_byte mask i guid s =
      if bit_and mask (1 * 2 ^ i) == 0
      then (guid, s)
      else let (byte, s') = d.get 1 s in (bit_or guid (byte * 2 ^ (i * 8) % 2 ^ 64), s')

  -- The loop from byte i, with n bytes to go.
  unfoldable pub guid_bytes : ℕ → ℕ → ℕ → ℕ → d.Store → ℕ × d.Store
  guid_bytes zero mask i guid s = (guid, s)
  guid_bytes (suc n) mask i guid s =
      guid_bytes n mask (suc i) (guid_byte mask i guid s).0 (guid_byte mask i guid s).1

  -- `operator>>(CDataStore&, SmartGUID&)`
  unfoldable pub get_guid : d.Store → ℕ × d.Store
  unfolding guid_bytes
  get_guid = do mask ← d.get 1; guid_bytes 8 mask 0 0
