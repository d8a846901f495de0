-- ===== src/Mcp/Client.antt =====
-- The client of one MCP server: src/mcp/client.ts, class `MCPClient`. The MCP package is the
-- parameter `sdk`; what it answers may change with the clock, which is read at each call. A text that
-- has the timeout in milliseconds is left without that number.
use Prim.Native.String.{◌++◌ as str_append}
use Prim.Native.Char.{Char, code}
use cam_protocol.Base.{
  ℕ, String, Bool, true, false, ◌||◌, Option, none, some, List, [], ◌∷◌, ◌++◌, map, leb, ◌==◌,
  if◌then◌else◌,
}
use cam_protocol.JsMap
use cam_protocol.JsMap.{JsMap}
use cam_protocol.JsText.{codes, contains, includes, mentions, truthy}
use cam_protocol.CacheManager.{Value, given_or}
use cam_protocol.RateLimiter.{number_or}
use cam_protocol.Mcp.Types.{
  Outcome, returned, raised, stdio, sse, http, ServerConfig, Tool, Resource, Prompt, RegisteredTool,
  RegisteredResource, RegisteredPrompt, ServerConnection,
}

-- What becomes of a tool call that is not cut off: it settles after a time, or never.
pub data Pending : Type 0 where
  settles : ℕ → Outcome (JsMap Value) → Pending
  never : Pending

-- The package, by the configuration of the server. The lists are those that the server gives.
pub record McpSdk : Type 0 where
  pub connect : ServerConfig → ℕ → Outcome (Unit {0})
  pub list_tools : ServerConfig → ℕ → Outcome (List Tool)
  pub list_resources : ServerConfig → ℕ → Outcome (List Resource)
  pub list_prompts : ServerConfig → ℕ → Outcome (List Prompt)
  pub call_tool : ServerConfig → String → JsMap Value → ℕ → Pending

pub record McpClient : Type 0 where
  pub config : ServerConfig
  pub connected : Bool
  pub tools : JsMap Tool
  pub resources : JsMap Resource
  pub prompts : JsMap Prompt

unfoldable pub init : ServerConfig → McpClient
init config = record {
  config = config;
  connected = false;
  tools = [];
  resources = [];
  prompts = [];
}

abbrev pub require : Option String → String → Outcome (Unit {0})
require none message = raised message
require (some t) message = returned tt

-- Whether the transport can be made.
unfoldable pub create_transport : ServerConfig → Outcome (Unit {0})
create_transport c = elim c.transport [
  | stdio ↦ require (truthy c.command) "stdio transport requires command"
  | sse ↦ require (truthy c.endpoint) "SSE transport requires endpoint"
  | http ↦ require (truthy c.endpoint) "HTTP transport requires endpoint"
]

unfoldable pub index_by : {A : Type 0} → (A → String) → JsMap A → List A → JsMap A
index_by name m [] = m
index_by name m (x ∷ xs) = index_by name (JsMap.set (name x) x m) xs

-- The map of what was listed, under its names; where the listing fails, what was there stays.
unfoldable pub discovered : {A : Type 0} → (A → String) → JsMap A → Outcome (List A) → JsMap A
unfolding index_by
discovered name m (raised e) = m
discovered name m (returned xs) = index_by name [] xs

-- `clear` of the three maps.
unfoldable pub disconnect : McpClient → McpClient
disconnect c =
    if c.connected
    then record c { connected = false; tools = []; resources = []; prompts = [] }
    else c

abbrev pub prepend : Char → List String → List String
prepend c [] = []
prepend c (t ∷ ts) = String.◌∷◌ c t ∷ ts

-- `split(/[_-]/)`.
unfoldable pub split_name : String → List String
split_name String.[] = "" ∷ []
split_name (String.◌∷◌ c s) =
    let rest = split_name s in
    if code c == b'_' || code c == b'-' then "" ∷ rest else prepend c rest

-- `[...new Set(ts)]`, after those that are seen.
unfoldable pub distinct : List String → List String → List String
distinct seen [] = []
distinct seen (t ∷ ts) =
    let rest = distinct (t ∷ seen) ts in if contains t seen then rest else t ∷ rest

abbrev pub tag_if : Bool → String → List String
tag_if true tag = tag ∷ []
tag_if false tag = []

unfoldable pub extract_tags : Tool → List String
unfolding split_name distinct
extract_tags t =
    let has = mentions (given_or t.description "") in
    distinct [] (
      split_name t.name
      ++ tag_if (has "file") "file"
      ++ tag_if (has "database" || has "sql") "database"
      ++ tag_if (has "api" || has "http") "api"
      ++ tag_if (has "search") "search"
      ++ tag_if (has "code" || has "execute") "code")

abbrev pub id_of : ServerConfig → String → String
id_of c name = str_append c.id (str_append ":" name)

unfoldable pub registered_tool : ServerConfig → String × Tool → RegisteredTool
unfolding extract_tags
registered_tool c (name, t) = record {
  id = id_of c name;
  server_id = c.id;
  tool = t;
  trust_tier = c.trust_tier;
  data_classifications = given_or c.data_classifications [];
  cost_estimate = given_or c.cost_per_call 0;
  latency_p50 = none;
  latency_p95 = none;
  latency_p99 = none;
  latencies = none;
  success_rate = none;
  error_count = none;
  call_count = 0;
  last_used = none;
  last_error = none;
  last_error_time = none;
  tags = extract_tags t;
}

unfoldable pub get_registered_tools : McpClient → List RegisteredTool
get_registered_tools c = map (registered_tool c.config) c.tools

unfoldable pub get_registered_resources : McpClient → List RegisteredResource
get_registered_resources c =
    map
      (λ e. record {
        id = id_of c.config e.0;
        server_id = c.config.id;
        resource = e.1;
        data_classifications = given_or c.config.data_classifications [];
      })
      c.resources

unfoldable pub get_registered_prompts : McpClient → List RegisteredPrompt
get_registered_prompts c =
    map (λ e. record { id = id_of c.config e.0; server_id = c.config.id; prompt = e.1 }) c.prompts

unfoldable pub get_connection_status : McpClient → ServerConnection
get_connection_status c = record {
  config = c.config;
  is_connected = c.connected;
  tool_count = JsMap.size c.tools;
  resource_count = JsMap.size c.resources;
  prompt_count = JsMap.size c.prompts;
}

unfoldable pub is_timeout : String → Bool
is_timeout message = includes (codes "timed out") (codes message)

unfoldable pub is_connection_error : String → Bool
is_connection_error message =
    let text = codes message in
    includes (codes "ECONNREFUSED") text
    || includes (codes "ENOTFOUND") text
    || includes (codes "ETIMEDOUT") text

-- The error that the caller sees.
unfoldable pub wrap_error : ServerConfig → String → String
unfolding is_timeout is_connection_error
wrap_error c message =
    let server = str_append "MCP server '" c.name in
    if is_timeout message
    then str_append server (str_append "' timeout: " message)
    else if is_connection_error message
    then str_append server (str_append "' connection error: " message)
    else message

abbrev pub timeout_error : String → String
timeout_error name = str_append "Tool call '" (str_append name "' timed out")

-- The promise against the timer, with the time that passes. A promise that settles when the timer
-- ends is too late.
unfoldable pub with_timeout : Pending → ℕ → String → ℕ × Outcome (JsMap Value)
with_timeout never timeout message = (timeout, raised message)
with_timeout (settles after outcome) timeout message =
    if leb timeout after then (timeout, raised message) else (after, outcome)

abbrev pub wrapped : ServerConfig → ℕ × Outcome (JsMap Value) → ℕ × Outcome (JsMap Value)
wrapped c (passed, returned x) = (passed, returned x)
wrapped c (passed, raised e) = (passed, raised (wrap_error c e))

module _ (sdk : McpSdk) where
  unfoldable pub discover : McpClient → ℕ → McpClient
  unfolding discovered
  discover c now = record c {
    connected = true;
    tools = discovered (λ (t : Tool). t.name) c.tools (sdk.list_tools c.config now);
    resources = discovered (λ (t : Resource). t.uri) c.resources (sdk.list_resources c.config now);
    prompts = discovered (λ (t : Prompt). t.name) c.prompts (sdk.list_prompts c.config now);
  }

  -- The client, and whether it was thrown.
  unfoldable pub connect : McpClient → ℕ → McpClient × Outcome (Unit {0})
  unfolding discover create_transport
  connect c now = if c.connected then (c, returned tt) else elim (create_transport c.config) [
    | raised e ↦ (c, raised e)
    | returned u ↦ elim (sdk.connect c.config now) [
      | raised e ↦ (c, raised e)
      | returned v ↦ (discover c now, returned tt)
    ]
  ]

  -- The time that passes, and the result.
  unfoldable pub call_tool : McpClient → String → JsMap Value → ℕ → ℕ × Outcome (JsMap Value)
  unfolding with_timeout wrap_error
  call_tool c name arguments now =
      if c.connected
      then elim (JsMap.get name c.tools) [
        | none ↦ (0, raised (str_append "Tool not found: " name))
        | some t ↦ wrapped c.config (
            with_timeout (sdk.call_tool c.config name arguments now)
              (number_or (given_or c.config.timeout 0) 30000) (timeout_error name))
      ]
      else (0, raised (str_append "Not connected to MCP server: " c.config.name))
