-- ===== src/Kernel/Noble.antt =====
-- What the kernel takes from @noble/hashes, which is not part of the repository: SHA-256 on bytes
-- and the hex conversions, as parameters, and the documented behaviour that the code relies on.
pub mod Checksum
use verity_os_v.Base.{
  ℕ, Str, List, Bool, true, Option, some, ◌≡◌, ◌≢◌, ◌&&◌, ◌||◌, leb, length, ◌==◌, all,
}

abbrev pub Bytes : Type 0
Bytes = List ℕ

pub record Noble : Type 0 where
  pub sha256 : Bytes → Bytes
  pub bytes_to_hex : Bytes → Str
  -- `none` where the library throws
  pub hex_to_bytes : Str → Option Bytes

-- /^[0-9a-f]{64}$/
unfoldable pub is_lower_hex : ℕ → Bool
is_lower_hex c = (leb b'0' c && leb c b'9') || (leb b'a' c && leb c b'f')

-- isSha256Hex of hashing/evidence.ts
unfoldable pub is_sha256_hex : Str → Bool
unfolding is_lower_hex
is_sha256_hex s = length s == 64 && all is_lower_hex s

abbrev pub IsHash : Str → Type 0
IsHash s = is_sha256_hex s ≡ true

-- A digest has 32 bytes, its hex has 64 lower-case digits and is read back, and every such text is
-- the hex of the bytes that it is read as.
pub record Lawful (n : Noble) : Type 0 where
  pub digest_IsHash : (b : Bytes) → IsHash (n.bytes_to_hex (n.sha256 b))
  pub digest_round : (b : Bytes) → n.hex_to_bytes (n.bytes_to_hex (n.sha256 b)) ≡ some (n.sha256 b)
  pub hash_decodes :
      (s : Str)
      → IsHash s
      → (b : Bytes) × (n.hex_to_bytes s ≡ some b) × (length b ≡ 32) × (n.bytes_to_hex b ≡ s)

-- The two inputs are different and have one digest.
abbrev pub Collides : Noble → Bytes → Bytes → Type 0
Collides n a b = (a ≢ b) × (n.sha256 a ≡ n.sha256 b)
