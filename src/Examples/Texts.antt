-- ===== src/Examples/Texts.antt =====
-- Canonical texts, their bytes, and the hashes of payloads.
use verity_os_v.Base.{
  ℕ, Str, codes, List, [], ◌∷◌, none, some, ok, false, sort_by, str_lt, ◌≡◌, refl, arith, ◌⊎◌,
}
use mathlib.Core.List.{Permᴰ}
use verity_os_v.Contracts.{request_opened}
use verity_os_v.Kernel.Noble.Checksum.{checksum_noble, checksum-Lawful}
use verity_os_v.Kernel.Canonicalize.{
  Value, integer, string, object, canonicalize, encode, encode_fields, encode_entry, sequence, join,
  join_rest, quote, quote_units, escape, decimal, decimal_digits, stringify_integer,
}
use verity_os_v.Kernel.Canonicalize.Decode.{read_value}
use verity_os_v.Kernel.Canonicalize.Normal.{normal, to_fields}
use verity_os_v.Kernel.Canonicalize.Injective.{
  read-canonicalize, canonicalize-injective, DistinctKeys, canonicalize-Perm,
}
use verity_os_v.Kernel.Hash.{
  V2HashPayload, hash_format_version, default_kernel_version, compute_entry_hash, sha256_hex,
}
use verity_os_v.Kernel.Hash.Binding.{HasUnits, PayloadsCollide, entry_hash_binding}

abbrev entries : List (Str × Value)
entries = (codes "b", integer false 1) ∷ (codes "a", string (codes "x")) ∷ []

abbrev text : Str
text = codes "{\"a\":\"x\",\"b\":1}"

canonical : canonicalize (object (to_fields entries)) ≡ ok text
unfolding canonicalize encode encode_fields encode_entry sequence join join_rest quote quote_units
    escape decimal decimal_digits stringify_integer to_fields sort_by str_lt
canonical = refl

read-canonicalize_example :
    (fuel : ℕ) × (read_value fuel text ≡ some (normal (object (to_fields entries)), []))
read-canonicalize_example = read-canonicalize (object (to_fields entries)) text canonical

-- The same object with its keys in the other order.
abbrev swapped : List (Str × Value)
swapped = (codes "a", string (codes "x")) ∷ (codes "b", integer false 1) ∷ []

entries-DistinctKeys : DistinctKeys entries
entries-DistinctKeys = ((ground arith, tt), (tt, tt))

canonicalize-Perm_example :
    canonicalize (object (to_fields entries)) ≡ canonicalize (object (to_fields swapped))
canonicalize-Perm_example =
    canonicalize-Perm entries swapped entries-DistinctKeys (Permᴰ.swap refl refl)

canonical_swapped : canonicalize (object (to_fields swapped)) ≡ ok text
unfolding canonicalize encode encode_fields encode_entry sequence join join_rest quote quote_units
    escape decimal decimal_digits stringify_integer to_fields sort_by str_lt
canonical_swapped = refl

canonicalize-injective_example :
    normal (object (to_fields entries)) ≡ normal (object (to_fields swapped))
canonicalize-injective_example =
    canonicalize-injective (object (to_fields entries)) (object (to_fields swapped)) text canonical
      canonical_swapped

abbrev pub payload : V2HashPayload
payload = record {
  hash_format_version = hash_format_version;
  organization_id = codes "acme";
  ledger_sequence = 1;
  execution_id = codes "e1";
  entry_type = request_opened;
  request_hash = none;
  response_hash = none;
  execution_graph_hash = none;
  previous_entry_hash = none;
  kernel_version = default_kernel_version;
  created_at = codes "2026-01-01T00:00:00.000Z";
}

pub payload-HasUnits : HasUnits payload
payload-HasUnits = record {
  hash_format_version = omega arith;
  organization_id = omega arith;
  execution_id = omega arith;
  request_hash = tt;
  response_hash = tt;
  execution_graph_hash = tt;
  previous_entry_hash = tt;
  kernel_version = omega arith;
  created_at = omega arith;
}

pub payload_hash : (hash : Str) × (compute_entry_hash checksum_noble payload ≡ ok hash)
unfolding compute_entry_hash verity_os_v.Kernel.Hash.payload_fields verity_os_v.Kernel.Hash.nullable
    verity_os_v.Contracts.entry_type_text canonicalize encode encode_fields encode_entry sequence
    join join_rest quote quote_units escape decimal decimal_digits stringify_integer sort_by str_lt
payload_hash = (_, refl)

entry_hash_binding_example : (payload ≡ payload) ⊎ PayloadsCollide checksum_noble payload payload
entry_hash_binding_example =
    entry_hash_binding checksum_noble checksum-Lawful payload payload payload_hash.0
      payload-HasUnits payload-HasUnits payload_hash.1 payload_hash.1
