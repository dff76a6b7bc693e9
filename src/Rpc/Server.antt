-- ===== src/Rpc/Server.antt =====
-- Calls of two servers that remember what they were asked: the wallet and factomd. The answer of
-- each depends on all requests so far, in any way, so that any deterministic pair of servers is one
-- of these.
use factom.Base.{ℕ, List, ◌∷◌, Bytes, Result, ok, ◌>>=◌}
use factom.Rpc.Request.{Json2Request, Params, new_json2_request, api_counter}
use factom.Rpc.Client.{Json2Response, read_response}

pub data Event : Type 0 where
  to_wallet to_factomd : Json2Request → Event

-- `walletRequest` and `factomdRequest`, by the requests so far, the newest first.
pub record Servers : Type 0 where
  pub wallet : List Event → Json2Request → Result Json2Response
  pub factomd : List Event → Json2Request → Result Json2Response

-- The count of `APICounter`, and the requests so far.
pub record World : Type 0 where
  pub count : ℕ
  pub history : List Event

-- The world after a request with the next number.
unfoldable pub asked : Bytes → Params → World → World
asked method params w =
    let id = api_counter w.count in
    record { count = id; history = to_wallet (new_json2_request method id params) ∷ w.history }

unfoldable pub asked_factomd : Bytes → Params → World → World
asked_factomd method params w =
    let id = api_counter w.count in
    record { count = id; history = to_factomd (new_json2_request method id params) ∷ w.history }

module _ (servers : Servers) where
  -- What the calls of the wallet have in common: a request with the next number, its answer, and
  -- what is made of the result.
  unfoldable pub ask : {A : Type 0} → Bytes → Params → (Bytes → Result A) → World → Result A × World
  ask method params unmarshal w = (
    servers.wallet w.history (new_json2_request method (api_counter w.count) params)
        >>= read_response unmarshal,
    asked method params w,
  )

  unfoldable pub ask_factomd :
      {A : Type 0} → Bytes → Params → (Bytes → Result A) → World → Result A × World
  ask_factomd method params unmarshal w = (
    servers.factomd w.history (new_json2_request method (api_counter w.count) params)
        >>= read_response unmarshal,
    asked_factomd method params w,
  )

  -- A request that is not made by `NewJSON2Request` here.
  unfoldable pub forward : Json2Request → World → Result (Unit {0}) × World
  forward request w = (
    servers.factomd w.history request >>= read_response (λ _. ok tt),
    record w { history = to_factomd request ∷ w.history },
  )
