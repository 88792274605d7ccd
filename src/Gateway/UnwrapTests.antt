-- ===== src/Gateway/UnwrapTests.antt =====
-- Sealed messages of a provider, under primitives that hide nothing.
use idlegrid.Prelude.{
  ◌==◌, if◌then◌else◌, ◌≡◌, refl, some, [], ◌∷◌, String, ℤ, pos, lookup, string_discrete, replicate,
}
use idlegrid.Hub.{returns}
use idlegrid.E2e.{Bytes, SealedPayload, seal, derive_key}
use idlegrid.E2e.Toy.{toy, toy-IsLawful}
use idlegrid.Gateway.Await.{chunk, complete, failure}
use idlegrid.Gateway.Unwrap.{
  chunk_message, complete_message, error_message, InnerCodec, unwrap_e2e, unwrap_e2e-seal,
  unwrap_e2e-flat, flat_usage, Document, text, object, inner_delta, inner_usage, inner_error,
}

-- Bytes as a document: a first byte 1 for a usage object, 2 for two counts, else a delta.
abbrev parse : Bytes → Document
parse (tag ∷ a ∷ b ∷ rest) =
    if tag == 1
    then ("usage", object (("prompt_tokens", pos a) ∷ ("completion_tokens", pos b) ∷ [])) ∷ []
    else if tag == 2
    then flat_usage (pos a) (pos b)
    else ("delta", text (tag ∷ a ∷ b ∷ rest)) ∷ []
parse bytes = ("delta", text bytes) ∷ []

abbrev codec : InnerCodec
codec = record { parse = parse; to_string = λ b. "" }

abbrev nested : Bytes
nested = 1 ∷ 40 ∷ 7 ∷ []

unwrap_e2e-seal_example :
    (s : SealedPayload) × (seal toy (5 ∷ []) (replicate 12 1) nested (replicate 32 7) ≡ some s)
    × ((d : Bytes)
        → unwrap_e2e toy codec
            (some (7 ∷ []))
            (chunk_message (some (record { plain = d; encrypted = some s })))
          ≡ returns (chunk (some [])))
    × ((u : ℤ × ℤ)
        → unwrap_e2e toy codec
            (some (7 ∷ []))
            (complete_message (some (record { plain = u; encrypted = some s })))
          ≡ returns (complete (some (pos 40, pos 7))))
    × ((e : String)
        → unwrap_e2e toy codec
            (some (7 ∷ []))
            (error_message (some (record { plain = e; encrypted = some s })))
          ≡ returns (failure ""))
unfolding derive_key inner_delta inner_usage inner_error lookup string_discrete
unwrap_e2e-seal_example =
    unwrap_e2e-seal toy toy-IsLawful codec (5 ∷ []) (7 ∷ []) (replicate 32 7) (replicate 32 5)
      (replicate 12 1) (replicate 32 12) nested refl refl refl refl refl

unwrap_e2e-flat_example :
    (s : SealedPayload) × (seal toy (5 ∷ []) (replicate 12 1) (2 ∷ 40 ∷ 7 ∷ []) (replicate 32 7)
      ≡ some s)
    × ((u : ℤ × ℤ)
        → unwrap_e2e toy codec
            (some (7 ∷ []))
            (complete_message (some (record { plain = u; encrypted = some s })))
          ≡ returns (complete (some (pos 0, pos 0))))
unfolding derive_key
unwrap_e2e-flat_example =
    unwrap_e2e-flat toy toy-IsLawful codec (5 ∷ []) (7 ∷ []) (replicate 32 7) (replicate 32 5)
      (replicate 12 1) (replicate 32 12) (2 ∷ 40 ∷ 7 ∷ []) (pos 40) (pos 7) refl refl refl refl refl
      refl
