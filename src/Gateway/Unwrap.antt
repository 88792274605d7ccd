-- ===== src/Gateway/Unwrap.antt =====
-- `unwrapE2E` of coordinator/internal/server/gateway.go: what a provider sends, to what the relay loops read.
use idlegrid.Prelude.{
  ◌≡◌, refl, ap, ◌∙◌, Option, none, some, List, [], ◌∷◌, String, ℤ, pos, length, lookup,
  string_discrete,
}
use idlegrid.Hub.{Run, returns, panics}
use idlegrid.E2e.{Bytes, Crypto, IsLawful, SealedPayload, seal, open_payload, derive_key}
use idlegrid.E2e.Sealing.{open_payload-seal}
use idlegrid.Gateway.Await.{Event, chunk, complete, failure}

-- A message that decodes: its own fields, and the sealed ones.
pub record Wire (A : Type 0) : Type 0 where
  pub plain : A
  pub encrypted : Option SealedPayload

-- A provider's envelope, `none` where its payload does not decode. The signature's test only writes to the log.
pub data Wrapped : Type 0 where
  chunk_message : Option (Wire Bytes) → Wrapped
  complete_message : Option (Wire (ℤ × ℤ)) → Wrapped
  error_message : Option (Wire String) → Wrapped
  other_message : Wrapped

-- A field of a JSON object that is decoded here: a whole number, a text, or an object of whole numbers.
pub data Field : Type 0 where
  number : ℤ → Field
  text : Bytes → Field
  object : List (String × ℤ) → Field

-- The fields of a JSON object, by their names; of other bytes, none.
abbrev pub Document : Type 0
Document = List (String × Field)

-- How bytes are read as JSON, and as a text of Go.
pub record InnerCodec : Type 0 where
  pub parse : Bytes → Document
  pub to_string : Bytes → String

abbrev text_or_empty : Option Field → Bytes
text_or_empty (some (text b)) = b
text_or_empty _ = []

abbrev pub number_or_zero : Option ℤ → ℤ
number_or_zero none = pos 0
number_or_zero (some n) = n

abbrev counts : Option Field → ℤ × ℤ
counts (some (object fs)) = (
  number_or_zero (lookup string_discrete "prompt_tokens" fs),
  number_or_zero (lookup string_discrete "completion_tokens" fs),
)
counts _ = (pos 0, pos 0)

-- The structs that a sealed body is unmarshalled into, by the names of their fields: Delta of `InferenceChunk`, Usage of
-- `InferenceComplete` and Error of `InferenceError`; a field that is missing, or of another kind, keeps its zero value.
unfoldable pub inner_delta : Document → Bytes
inner_delta doc = text_or_empty (lookup string_discrete "delta" doc)

unfoldable pub inner_usage : Document → ℤ × ℤ
inner_usage doc = counts (lookup string_discrete "usage" doc)

unfoldable pub inner_error : (Bytes → String) → Document → String
inner_error to_string doc = to_string (text_or_empty (lookup string_discrete "error" doc))

abbrev opened : {A : Type 0} → (Bytes → A) → A → Option Bytes → A
opened decode plain none = plain
opened decode plain (some inner) = decode inner

abbrev with_key : {A : Type 0} → Crypto → (Bytes → A) → A → SealedPayload → Option Bytes → Run A
with_key c decode plain s none = panics
with_key c decode plain s (some priv) = returns (opened decode plain (open_payload c s priv))

-- The fields of a message: its own where it is not sealed or cannot be opened, and else the sealed ones. Without
-- a response key, `&respKey.Priv` is a nil dereference.
unfoldable pub unsealed : {A : Type 0} → Crypto → (Bytes → A) → Option Bytes → Wire A → Run A
unfolding open_payload
unsealed c decode priv w = elim w.encrypted [
  | none ↦ returns w.plain
  | some s ↦ with_key c decode w.plain s priv
]

abbrev pub relay : {A : Type 0} → (A → Event) → Run A → Run Event
relay f panics = panics
relay f (returns a) = returns (f a)

-- `unwrapE2E`, and the decoding that follows it in the loops.
unfoldable pub unwrap_e2e : Crypto → InnerCodec → Option Bytes → Wrapped → Run Event
unfolding unsealed inner_delta inner_usage inner_error
unwrap_e2e c j priv (chunk_message none) = returns (chunk none)
unwrap_e2e c j priv (chunk_message (some w)) =
    relay (λ d. chunk (some d)) (unsealed c (λ b. inner_delta (j.parse b)) priv w)
unwrap_e2e c j priv (complete_message none) = returns (complete none)
unwrap_e2e c j priv (complete_message (some w)) =
    relay (λ u. complete (some u)) (unsealed c (λ b. inner_usage (j.parse b)) priv w)
unwrap_e2e c j priv (error_message none) = returns (failure "")
unwrap_e2e c j priv (error_message (some w)) =
    relay failure (unsealed c (λ b. inner_error j.to_string (j.parse b)) priv w)
unwrap_e2e c j priv other_message = returns Event.other

-- A message that the provider sealed to the response key reaches the relay loop as the fields that its struct decodes from
-- the sealed JSON: the text of a chunk, the counts of the usage object of a completion, and the text of an error.
pub unwrap_e2e-seal :
    (c : Crypto) (lawful : IsLawful c) (j : InnerCodec)
    (random secret recipient eph nonce key plaintext : Bytes)
    → c.x25519 secret c.basepoint ≡ some recipient
    → c.x25519 random c.basepoint ≡ some eph
    → length eph ≡ 32
    → length nonce ≡ 12
    → derive_key c random recipient nonce ≡ some key
    → (s : SealedPayload) × (seal c random nonce plaintext recipient ≡ some s)
      × ((d : Bytes)
          → unwrap_e2e c j
              (some secret)
              (chunk_message (some (record { plain = d; encrypted = some s })))
            ≡ returns (chunk (some (inner_delta (j.parse plaintext)))))
      × ((u : ℤ × ℤ)
          → unwrap_e2e c j
              (some secret)
              (complete_message (some (record { plain = u; encrypted = some s })))
            ≡ returns (complete (some (inner_usage (j.parse plaintext)))))
      × ((e : String)
          → unwrap_e2e c j
              (some secret)
              (error_message (some (record { plain = e; encrypted = some s })))
            ≡ returns (failure (inner_error j.to_string (j.parse plaintext))))
unfolding unwrap_e2e unsealed
unwrap_e2e-seal c lawful j random secret recipient eph nonce key plaintext mine fresh size32 size12
      derived =
    let (s, sealed, inner) =
      open_payload-seal c lawful random secret recipient eph nonce key plaintext mine fresh size32
        size12 derived in
    (s, sealed, λ d. rw inner refl, λ u. rw inner refl, λ e. rw inner refl)

-- The object that protocol/messages.go documents as the inner JSON of a completion.
abbrev pub flat_usage : ℤ → ℤ → Document
flat_usage prompt completion =
    ("prompt_tokens", number prompt) ∷ ("completion_tokens", number completion) ∷ []

inner_usage-flat :
    (prompt completion : ℤ) → inner_usage (flat_usage prompt completion) ≡ (pos 0, pos 0)
unfolding inner_usage lookup string_discrete
inner_usage-flat prompt completion = refl

-- A completion that is sealed in the form which protocol/messages.go documents and the Swift provider sends, two counts
-- without a usage object around them, reaches the relay loop with the counts 0 and 0, whatever the two counts are.
pub unwrap_e2e-flat :
    (c : Crypto) (lawful : IsLawful c) (j : InnerCodec)
    (random secret recipient eph nonce key plaintext : Bytes) (prompt completion : ℤ)
    → j.parse plaintext ≡ flat_usage prompt completion
    → c.x25519 secret c.basepoint ≡ some recipient
    → c.x25519 random c.basepoint ≡ some eph
    → length eph ≡ 32
    → length nonce ≡ 12
    → derive_key c random recipient nonce ≡ some key
    → (s : SealedPayload) × (seal c random nonce plaintext recipient ≡ some s)
      × ((u : ℤ × ℤ)
          → unwrap_e2e c j
              (some secret)
              (complete_message (some (record { plain = u; encrypted = some s })))
            ≡ returns (complete (some (pos 0, pos 0))))
unwrap_e2e-flat c lawful j random secret recipient eph nonce key plaintext prompt completion form
      mine fresh size32 size12 derived =
    let (s, sealed, _, arrives, _) =
      unwrap_e2e-seal c lawful j random secret recipient eph nonce key plaintext mine fresh size32
        size12 derived in
    (
      s,
      sealed,
      λ u.
          arrives u
          ∙ ap (λ (doc : Document). returns (complete (some (inner_usage doc)))) form
          ∙ ap (λ (n : ℤ × ℤ). returns (complete (some n))) (inner_usage-flat prompt completion),
    )
