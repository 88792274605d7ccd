-- ===== src/OpenRouter/Catalogue.antt =====
-- `HandleOpenRouterModels` of coordinator/internal/server/openrouter.go.
use text.Mathlib.Text.{find?}
use idlegrid.Prelude.{
  ℕ, Bool, true, false, Option, none, some, List, [], ◌∷◌, String, ℤ, if◌then◌else◌,
}
use idlegrid.Money.{price_for}
use idlegrid.Registry.{Registry, online_models}
use idlegrid.Store.Tx.{Tx, ◌>>=◌, pure}
use idlegrid.Gateway.Admit.{Config}
use idlegrid.Gateway.Usage.{model_price}
use idlegrid.Http.{Method, get, Reply, answers, refuses}
use idlegrid.OpenRouter.Cost.{micro_per_1m_to_cost_usd}

-- What a document says of a model beside its constants.
pub record ModelDoc : Type 0 where
  pub id : String
  pub created : ℕ
  pub prompt_cost_usd : String
  pub completion_cost_usd : String
  pub hugging_face_id : Option String

-- `strings.Contains(id, "/")`.
abbrev has_slash : String → Bool
has_slash id = elim (find? id "/") [ none ↦ false | some _ ↦ true ]

-- `openRouterModelDoc`, with the time in seconds.
unfoldable pub open_router_model_doc : ℕ → String → ℤ × ℤ → ModelDoc
unfolding micro_per_1m_to_cost_usd
open_router_model_doc now id (in_micro, out_micro) = record {
  id = id;
  created = now;
  prompt_cost_usd = micro_per_1m_to_cost_usd in_micro;
  completion_cost_usd = micro_per_1m_to_cost_usd out_micro;
  hugging_face_id = if has_slash id then some id else none;
}

-- `store.PriceFor`, of a store that may be nil: the defaults stand for every error.
unfoldable pub model_rates : Config → String → Tx (ℤ × ℤ)
unfolding model_price price_for pure ◌>>=◌
model_rates g model =
    (if g.billing then model_price model else pure none) >>= λ price. pure (price_for price)

unfoldable pub model_docs : Config → ℕ → List String → Tx (List ModelDoc)
unfolding model_rates open_router_model_doc pure ◌>>=◌
model_docs g now [] = pure []
model_docs g now (m ∷ ms) = do
  rates ← model_rates g m
  docs ← model_docs g now ms
  pure (open_router_model_doc now m rates ∷ docs)

-- `HandleOpenRouterModels`; `seconds` is the Unix time.
unfoldable pub handle_open_router_models :
    Config → ℕ → Registry → ℕ → Method → Tx (Reply (List ModelDoc))
unfolding model_docs pure ◌>>=◌
handle_open_router_models g now r seconds get =
    model_docs g seconds (online_models now r) >>= λ docs. pure (answers docs)
handle_open_router_models g now r seconds _ = pure (refuses 405 "GET only")
