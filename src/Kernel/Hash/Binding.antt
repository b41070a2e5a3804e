-- ===== src/Kernel/Hash/Binding.antt =====
-- computeEntryHash of hashing/hash.ts: what an entry hash says of the payload.
use verity_os_v.Base.{
  Str, codes, sort_by, str_lt, false, List, [], ◌∷◌, Option, none, some, ok, >>=-eq-ok, ◌≡◌, refl,
  sym, ap, ◌∙◌, arith, All, ◌⊎◌, inl, inr,
}
use verity_os_v.Contracts.{
  LedgerEntryType, entry_type_text, request_opened, approval_requested, action_completed, final,
  failure,
}
use verity_os_v.Kernel.Noble.{Noble, Lawful, Collides}
use verity_os_v.Kernel.Canonicalize.{integer, string, object, Fields, end, field, canonicalize}
use verity_os_v.Kernel.Canonicalize.Normal.{normal, normal_fields, to_fields}
use verity_os_v.Kernel.Canonicalize.Print.{encode-value}
use verity_os_v.Kernel.Canonicalize.Injective.{canonicalize-injective}
use verity_os_v.Kernel.Utf8.{utf8}
use verity_os_v.Kernel.Utf8.WellFormed.{WellFormed, utf8-injective}
use verity_os_v.Kernel.Hash.{
  V2HashPayload, payload_fields, nullable, sha256_hex, compute_entry_hash,
}
use verity_os_v.Kernel.Hash.Wellformed.{IsUnits, IsScalar, IsScalarField, object-WellFormed}
use verity_os_v.Kernel.Merkle.Binding.{digest_binding}

entry_type_text-injective : (a b : LedgerEntryType) → entry_type_text a ≡ entry_type_text b → a ≡ b
unfolding entry_type_text
entry_type_text-injective a b h = ground arith

nullable-injective : (a b : Option Str) → nullable a ≡ nullable b → a ≡ b
unfolding nullable
nullable-injective a b h = ground arith

-- The fields of a payload in the order of their keys.
sorted_fields : V2HashPayload → Fields
sorted_fields p = field (codes "created_at") (string p.created_at) (
    field (codes "entry_type") (string (entry_type_text p.entry_type)) (
      field (codes "execution_graph_hash") (nullable p.execution_graph_hash) (
        field (codes "execution_id") (string p.execution_id) (
          field (codes "hash_format_version") (string p.hash_format_version) (
            field (codes "kernel_version") (string p.kernel_version) (
              field (codes "ledger_sequence") (integer false p.ledger_sequence) (
                field (codes "organization_id") (string p.organization_id) (
                  field (codes "previous_entry_hash") (nullable p.previous_entry_hash) (
                    field (codes "request_hash") (nullable p.request_hash)
                      (field (codes "response_hash") (nullable p.response_hash) end))))))))))

normal-nullable : (a : Option Str) → normal (nullable a) ≡ nullable a
unfolding normal nullable
normal-nullable none = refl
normal-nullable (some s) = refl

normal-payload : (p : V2HashPayload) → normal (object (payload_fields p)) ≡ object (sorted_fields p)
unfolding normal payload_fields sorted_fields to_fields sort_by str_lt
normal-payload p = rw (
  normal-nullable p.request_hash,
  normal-nullable p.response_hash,
  normal-nullable p.execution_graph_hash,
  normal-nullable p.previous_entry_hash,
)

sorted_fields-injective : (p q : V2HashPayload) → sorted_fields p ≡ sorted_fields q → p ≡ q
unfolding sorted_fields
sorted_fields-injective p q e = ground (
  arith,
  entry_type_text-injective p.entry_type q.entry_type,
  nullable-injective p.request_hash q.request_hash,
  nullable-injective p.response_hash q.response_hash,
  nullable-injective p.execution_graph_hash q.execution_graph_hash,
  nullable-injective p.previous_entry_hash q.previous_entry_hash,
)

abbrev pub given : Option Str → List Str
given none = []
given (some s) = s ∷ []

-- The strings of a payload are JavaScript strings.
pub record HasUnits (p : V2HashPayload) : Type 0 where
  pub hash_format_version : IsUnits p.hash_format_version
  pub organization_id : IsUnits p.organization_id
  pub execution_id : IsUnits p.execution_id
  pub request_hash : All IsUnits (given p.request_hash)
  pub response_hash : All IsUnits (given p.response_hash)
  pub execution_graph_hash : All IsUnits (given p.execution_graph_hash)
  pub previous_entry_hash : All IsUnits (given p.previous_entry_hash)
  pub kernel_version : IsUnits p.kernel_version
  pub created_at : IsUnits p.created_at

nullable-IsScalar : (a : Option Str) → All IsUnits (given a) → IsScalar (normal (nullable a))
unfolding normal nullable
nullable-IsScalar none h = tt
nullable-IsScalar (some s) h = h.0

entry_type-IsUnits : (t : LedgerEntryType) → IsUnits (entry_type_text t)
unfolding entry_type_text
entry_type-IsUnits request_opened = omega arith
entry_type-IsUnits approval_requested = omega arith
entry_type-IsUnits action_completed = omega arith
entry_type-IsUnits final = omega arith
entry_type-IsUnits failure = omega arith

payload-IsScalar :
    (p : V2HashPayload) → HasUnits p → All IsScalarField (normal_fields (payload_fields p))
unfolding payload_fields normal
payload-IsScalar p h = (
  (omega arith, h.hash_format_version),
  (
    (omega arith, h.organization_id),
    (
      (omega arith, tt),
      (
        (omega arith, h.execution_id),
        (
          (omega arith, entry_type-IsUnits p.entry_type),
          (
            (omega arith, nullable-IsScalar p.request_hash h.request_hash),
            (
              (omega arith, nullable-IsScalar p.response_hash h.response_hash),
              (
                (omega arith, nullable-IsScalar p.execution_graph_hash h.execution_graph_hash),
                (
                  (omega arith, nullable-IsScalar p.previous_entry_hash h.previous_entry_hash),
                  ((omega arith, h.kernel_version), ((omega arith, h.created_at), tt)),
                ),
              ),
            ),
          ),
        ),
      ),
    ),
  ),
)

-- Canonical text of payloads is one to one.
payload_text-injective :
    (p q : V2HashPayload) (s : Str)
    → canonicalize (object (payload_fields p)) ≡ ok s
    → canonicalize (object (payload_fields q)) ≡ ok s
    → p ≡ q
payload_text-injective p q s ep eq =
    let same =
      canonicalize-injective (object (payload_fields p)) (object (payload_fields q)) s ep eq in
    let sorted : object (sorted_fields p) ≡ object (sorted_fields q) =
      sym (normal-payload p) ∙ same ∙ normal-payload q in
    sorted_fields-injective p q (cc)

payload_text-WellFormed :
    (p : V2HashPayload) (s : Str)
    → HasUnits p
    → canonicalize (object (payload_fields p)) ≡ ok s
    → WellFormed s
payload_text-WellFormed p s h e =
    let (es, _) = encode-value (object (payload_fields p)) s (unfold canonicalize in e) in
    rw es (object-WellFormed (payload_fields p) (payload-IsScalar p h))

-- The canonical texts of the two payloads are different in UTF-8 and have one digest.
pub record PayloadsCollide (n : Noble) (p q : V2HashPayload) : Type 0 where
  pub text : Str
  pub text' : Str
  pub is_text : canonicalize (object (payload_fields p)) ≡ ok text
  pub is_text' : canonicalize (object (payload_fields q)) ≡ ok text'
  pub collide : Collides n (utf8 text) (utf8 text')

-- With lawful hashing, two payloads of JavaScript strings with one entry hash are equal, or their
-- own canonical texts are different in UTF-8 and have one digest.
pub entry_hash_binding :
    (n : Noble) (w : Lawful n) (p q : V2HashPayload) (hash : Str)
    → HasUnits p
    → HasUnits q
    → compute_entry_hash n p ≡ ok hash
    → compute_entry_hash n q ≡ ok hash
    → (p ≡ q) ⊎ PayloadsCollide n p q
unfolding compute_entry_hash sha256_hex
entry_hash_binding n w p q hash hp hq ep eq =
    let (s, es, es') = >>=-eq-ok (canonicalize (object (payload_fields p))) _ ep in
    let (t, et, et') = >>=-eq-ok (canonicalize (object (payload_fields q))) _ eq in
    elim (digest_binding n w (utf8 s) (utf8 t) (cc)) [
      | inl same ↦
          let text =
            utf8-injective (payload_text-WellFormed p s hp es) (payload_text-WellFormed q t hq et)
              same in
          inl (payload_text-injective p q t (es ∙ ap ok text) et)
      | inr c ↦ inr (record { text = s; text' = t; is_text = es; is_text' = et; collide = c })
    ]
