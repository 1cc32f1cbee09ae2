-- ===== src/Store.antt =====
-- store.go: the type `Store`, and `ensureReady`.
use simplykb.Prelude.{◌≡◌, ap, Bool, true, false, Option, none, some}
use simplykb.External.{External}
use simplykb.Errors.{Result, ok, err, not_initialized}
use simplykb.Config.{Config}
use simplykb.QueryCache.{QueryEmbeddingCache}

-- `pool` says whether the pool is there; the database behind it is the world of an action.
pub record Store (x : External) : Type 0 where
  pub pool : Bool
  pub cfg : Config x
  pub query_cache : Option (QueryEmbeddingCache x.Float)

-- A nil `*Store` is `none`.
unfoldable pub ensure_ready : {x : External} → Option (Store x) → Result (Store x)
ensure_ready none = err not_initialized
ensure_ready (some s) = elim s.pool [ true ↦ ok s | false ↦ err not_initialized ]

pub ensure_ready-ready : {x : External} (s : Store x) → s.pool ≡ true → ensure_ready (some s) ≡ ok s
unfolding ensure_ready
ensure_ready-ready {x} s ready =
    ap
      (λ (p : Bool). elim p as (λ _. Result (Store x)) [
        | true ↦ ok s
        | false ↦ err not_initialized
      ])
      ready
