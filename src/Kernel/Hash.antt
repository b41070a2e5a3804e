-- ===== src/Kernel/Hash.antt =====
-- hashing/hash.ts: the payload of Hash Format V2 and the hash of an entry.
pub mod Wellformed
pub mod Binding
use verity_os_v.Base.{ℕ, Str, codes, false, Option, none, some, ok, ◌>>=◌}
use verity_os_v.Contracts.{LedgerEntryType, entry_type_text}
use verity_os_v.Kernel.Error.{Throws}
use verity_os_v.Kernel.Noble.{Noble}
use verity_os_v.Kernel.Canonicalize.{
  Value, null, integer, string, object, Fields, end, field, canonicalize,
}
use verity_os_v.Kernel.Utf8.{utf8}

abbrev pub hash_format_version : Str
hash_format_version = codes "2"

abbrev pub default_kernel_version : Str
default_kernel_version = codes "0.2.0"

unfoldable pub sha256_hex : Noble → Str → Str
sha256_hex n input = n.bytes_to_hex (n.sha256 (utf8 input))

pub record V2HashPayload : Type 0 where
  pub hash_format_version : Str
  pub organization_id : Str
  pub ledger_sequence : ℕ
  pub execution_id : Str
  pub entry_type : LedgerEntryType
  pub request_hash : Option Str
  pub response_hash : Option Str
  pub execution_graph_hash : Option Str
  pub previous_entry_hash : Option Str
  pub kernel_version : Str
  pub created_at : Str

pub record HashFieldInput : Type 0 where
  pub organization_id : Str
  pub ledger_sequence : ℕ
  pub execution_id : Str
  pub entry_type : LedgerEntryType
  pub request_hash : Option Str
  pub response_hash : Option Str
  pub execution_graph_hash : Option Str
  pub previous_entry_hash : Option Str
  pub kernel_version : Option Str
  pub created_at_canonical : Str

-- a ?? b
unfoldable pub or_default : Option Str → Str → Str
or_default none d = d
or_default (some s) d = s

unfoldable pub build_hash_payload : HashFieldInput → V2HashPayload
unfolding or_default
build_hash_payload input = record {
  hash_format_version = hash_format_version;
  organization_id = input.organization_id;
  ledger_sequence = input.ledger_sequence;
  execution_id = input.execution_id;
  entry_type = input.entry_type;
  request_hash = input.request_hash;
  response_hash = input.response_hash;
  execution_graph_hash = input.execution_graph_hash;
  previous_entry_hash = input.previous_entry_hash;
  kernel_version = or_default input.kernel_version default_kernel_version;
  created_at = input.created_at_canonical;
}

unfoldable pub nullable : Option Str → Value
nullable none = null
nullable (some s) = string s

-- The payload as the JavaScript object that `canonicalize` walks.
unfoldable pub payload_fields : V2HashPayload → Fields
payload_fields p = field (codes "hash_format_version") (string p.hash_format_version) (
    field (codes "organization_id") (string p.organization_id) (
      field (codes "ledger_sequence") (integer false p.ledger_sequence) (
        field (codes "execution_id") (string p.execution_id) (
          field (codes "entry_type") (string (entry_type_text p.entry_type)) (
            field (codes "request_hash") (nullable p.request_hash) (
              field (codes "response_hash") (nullable p.response_hash) (
                field (codes "execution_graph_hash") (nullable p.execution_graph_hash) (
                  field (codes "previous_entry_hash") (nullable p.previous_entry_hash) (
                    field (codes "kernel_version") (string p.kernel_version)
                      (field (codes "created_at") (string p.created_at) end))))))))))

unfoldable pub compute_entry_hash : Noble → V2HashPayload → Throws Str
compute_entry_hash n payload = do
  text ← canonicalize (object (payload_fields payload))
  ok (sha256_hex n text)
