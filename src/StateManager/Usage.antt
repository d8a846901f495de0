-- ===== src/StateManager/Usage.antt =====
-- The usage of the customers: src/core/state-manager.ts, `customerUsage` and the methods that read and
-- write it. They touch no other field. The calendar month of a time is the parameter `period`. Costs
-- are whole numbers of 1/10^8 dollar.
use cam_protocol.Base.{
  ℕ, suc, ◌+◌, ◌≡◌, max, String, Option, none, some, List, [], ◌∷◌, arith, str_eq, if◌then◌else◌,
  eq_iff, Bool-cases, inl, inr,
}
use cam_protocol.JsMap
use cam_protocol.JsMap.{JsMap}

pub record CustomerUsage : Type 0 where
  pub customer_id : String
  pub requests : ℕ
  pub tokens : ℕ
  pub cost : ℕ
  pub agents : ℕ
  pub last_updated : ℕ
  pub period_start : ℕ
  pub period_end : ℕ

-- The calls that record usage, with the clock's reading last.
pub data Entry : Type 0 where
  request : String → ℕ → ℕ → ℕ → Entry
  agents : String → ℕ → ℕ → Entry

-- What the entries say of a customer.
unfoldable pub requests_of : String → List Entry → ℕ
requests_of id [] = 0
requests_of id (request c tokens cost now ∷ es) =
    let rest = requests_of id es in if str_eq c id then suc rest else rest
requests_of id (agents c n now ∷ es) = requests_of id es

unfoldable pub tokens_of : String → List Entry → ℕ
tokens_of id [] = 0
tokens_of id (request c tokens cost now ∷ es) =
    let rest = tokens_of id es in if str_eq c id then tokens + rest else rest
tokens_of id (agents c n now ∷ es) = tokens_of id es

unfoldable pub cost_of : String → List Entry → ℕ
cost_of id [] = 0
cost_of id (request c tokens cost now ∷ es) =
    let rest = cost_of id es in if str_eq c id then cost + rest else rest
cost_of id (agents c n now ∷ es) = cost_of id es

unfoldable pub most_agents : String → List Entry → ℕ
most_agents id [] = 0
most_agents id (request c tokens cost now ∷ es) = most_agents id es
most_agents id (agents c n now ∷ es) =
    let rest = most_agents id es in if str_eq c id then max n rest else rest

module _ (period : ℕ → ℕ × ℕ) where
  unfoldable pub new_usage : String → ℕ → CustomerUsage
  new_usage id now = record {
    customer_id = id;
    requests = 0;
    tokens = 0;
    cost = 0;
    agents = 0;
    last_updated = now;
    period_start = (period now).0;
    period_end = (period now).1;
  }

  abbrev pub usage_or_new : String → ℕ → Option CustomerUsage → CustomerUsage
  usage_or_new id now none = new_usage id now
  usage_or_new id now (some u) = u

  -- The entry of the customer, with the map that has it.
  unfoldable pub get_or_create_customer_usage :
      JsMap CustomerUsage → String → ℕ → JsMap CustomerUsage × CustomerUsage
  unfolding new_usage
  get_or_create_customer_usage m id now =
      let u = usage_or_new id now (JsMap.get id m) in (JsMap.set id u m, u)

  unfoldable pub record_customer_request :
      JsMap CustomerUsage → String → ℕ → ℕ → ℕ → JsMap CustomerUsage
  record_customer_request m id tokens cost now =
      let (m', u) = get_or_create_customer_usage m id now in
      JsMap.set id
        (record u {
          requests = u.requests + 1;
          tokens = u.tokens + tokens;
          cost = u.cost + cost;
          last_updated = now;
        })
        m'

  unfoldable pub record_agent_usage : JsMap CustomerUsage → String → ℕ → ℕ → JsMap CustomerUsage
  record_agent_usage m id agent_count now =
      let (m', u) = get_or_create_customer_usage m id now in
      JsMap.set id (record u { agents = max u.agents agent_count; last_updated = now }) m'

  unfoldable pub get_customer_usage :
      JsMap CustomerUsage → String → ℕ → JsMap CustomerUsage × CustomerUsage
  get_customer_usage m id now = get_or_create_customer_usage m id now

  unfoldable pub reset_customer_usage : JsMap CustomerUsage → String → ℕ → JsMap CustomerUsage
  unfolding new_usage
  reset_customer_usage m id now = JsMap.set id (new_usage id now) m

  unfoldable pub get_all_customer_usage : JsMap CustomerUsage → List CustomerUsage
  get_all_customer_usage m = JsMap.values m

  unfoldable pub apply : JsMap CustomerUsage → Entry → JsMap CustomerUsage
  apply m (request id tokens cost now) = record_customer_request m id tokens cost now
  apply m (agents id n now) = record_agent_usage m id n now

  unfoldable pub apply_all : JsMap CustomerUsage → List Entry → JsMap CustomerUsage
  apply_all m [] = m
  apply_all m (e ∷ es) = apply_all (apply m e) es

  get-record_customer_request :
      (m : JsMap CustomerUsage) (id c : String) (tokens cost now : ℕ) (u : CustomerUsage)
      → JsMap.get id m ≡ some u
      → JsMap.get id (record_customer_request m c tokens cost now) ≡ (
          if str_eq c id
          then some (record u {
            requests = u.requests + 1;
            tokens = u.tokens + tokens;
            cost = u.cost + cost;
            last_updated = now;
          })
          else some u)
  unfolding record_customer_request get_or_create_customer_usage
  get-record_customer_request m id c tokens cost now u h =
      let w = usage_or_new c now (JsMap.get c m) in
      let w' : CustomerUsage = record w {
        requests = w.requests + 1;
        tokens = w.tokens + tokens;
        cost = w.cost + cost;
        last_updated = now;
      } in
      elim (Bool-cases (str_eq c id)) [
        | inl same ↦
            let there : JsMap.get c m ≡ some u = rw ((eq_iff c id).0 same) h in
            ground (arith, JsMap.get-set c id w' (JsMap.set c w m), there)
        | inr other ↦
            ground (arith, JsMap.get-set c id w' (JsMap.set c w m), JsMap.get-set c id w m)
      ]

  get-record_agent_usage :
      (m : JsMap CustomerUsage) (id c : String) (n now : ℕ) (u : CustomerUsage)
      → JsMap.get id m ≡ some u
      → JsMap.get id (record_agent_usage m c n now) ≡ (
          if str_eq c id
          then some (record u { agents = max u.agents n; last_updated = now })
          else some u)
  unfolding record_agent_usage get_or_create_customer_usage
  get-record_agent_usage m id c n now u h =
      let w = usage_or_new c now (JsMap.get c m) in
      let w' : CustomerUsage = record w { agents = max w.agents n; last_updated = now } in
      elim (Bool-cases (str_eq c id)) [
        | inl same ↦
            let there : JsMap.get c m ≡ some u = rw ((eq_iff c id).0 same) h in
            ground (arith, JsMap.get-set c id w' (JsMap.set c w m), there)
        | inr other ↦
            ground (arith, JsMap.get-set c id w' (JsMap.set c w m), JsMap.get-set c id w m)
      ]

  -- Whatever is recorded, for whichever customers and in any order, the usage of a customer that has an
  -- entry has grown by the number of its requests and by their tokens and costs, and its agents are
  -- the largest number recorded for it.
  pub get-apply_all :
      (m : JsMap CustomerUsage) (id : String) (u : CustomerUsage) (es : List Entry)
      → JsMap.get id m ≡ some u
      → (v : CustomerUsage) × (JsMap.get id (apply_all m es) ≡ some v)
        × (v.requests ≡ u.requests + requests_of id es)
        × (v.tokens ≡ u.tokens + tokens_of id es)
        × (v.cost ≡ u.cost + cost_of id es)
        × (v.agents ≡ max u.agents (most_agents id es))
  unfolding apply apply_all requests_of tokens_of cost_of most_agents
  get-apply_all m id u [] h = (u, h, omega arith, omega arith, omega arith, omega arith)
  get-apply_all m id u (request c tokens cost now ∷ es) h =
      let here = get-record_customer_request m id c tokens cost now u h in
      elim (Bool-cases (str_eq c id)) [
        | inl same ↦
            let u' : CustomerUsage = record u {
              requests = u.requests + 1;
              tokens = u.tokens + tokens;
              cost = u.cost + cost;
              last_updated = now;
            } in
            let (v, e, r, t, k, n) =
              get-apply_all (record_customer_request m c tokens cost now) id u' es (ground arith) in
            (v, e, ground arith, ground arith, ground arith, ground arith)
        | inr other ↦
            let (v, e, r, t, k, n) =
              get-apply_all (record_customer_request m c tokens cost now) id u es (ground arith) in
            (v, e, ground arith, ground arith, ground arith, ground arith)
      ]
  get-apply_all m id u (agents c n now ∷ es) h =
      let here = get-record_agent_usage m id c n now u h in
      elim (Bool-cases (str_eq c id)) [
        | inl same ↦
            let (v, e, r, t, k, a) =
              get-apply_all (record_agent_usage m c n now) id
                (record u { agents = max u.agents n; last_updated = now }) es (ground arith) in
            (v, e, r, t, k, ground arith)
        | inr other ↦
            let (v, e, r, t, k, a) =
              get-apply_all (record_agent_usage m c n now) id u es (ground arith) in
            (v, e, r, t, k, ground arith)
      ]
