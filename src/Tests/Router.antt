-- ===== src/Tests/Router.antt =====
-- src/router.rs over two backends that answer, and a local handler.
use rust_yamp.Prelude.{
  All, ℕ, ◌≡◌, refl, Bool, true, false, Option, none, some, List, [], ◌∷◌, ◌++◌, Text, Bytes, ascii,
  length, text_eq, text_lt, ok, unwrap_or, ◌>>=◌, split_once, arith,
}
use rust_yamp.Json.{
  Json, Map, null, string, object, empty, entry, json_object, insert, extend, lookup, get_str,
}
use rust_yamp.Json
use rust_yamp.Dict.{Dict, text_key}
use rust_yamp.Dict
use rust_yamp.JsonRpc.{method_of}
use rust_yamp.Namespace.{split}
use rust_yamp.Handler.{Handler, handler_for}
use rust_yamp.Tests.Clock.{seconds}
use rust_yamp.Router.{Backend, Sent, Reply, answered, Router, tools, put, resolve}
use rust_yamp.Router.Request.{outgoing, request}
use rust_yamp.Router.Request.Forwarded.{credential, own_credential, request-credential}
use rust_yamp.Router.Local.{named, dispatch_named, run_pooled}
use rust_yamp.Router.Reader.{to_client, awaited, client_id, deliver, route_client_reply}
use rust_yamp.Router.Reader.Correlation.{Keeps, deliver-route_client_reply, deliver-Keeps}
use rust_yamp.Router.Collect.{collect}
use rust_yamp.Router.Collect.Owned.{ListsOwned, collect-Owned}
use rust_yamp.Router.Call.{route_call, opts_of, plain_query}
use rust_yamp.Router.Call.Local.{run_pooled-route_call}
use rust_yamp.Router.Route.Answered.{Carries}
use rust_yamp.Router.Call.Reached.{route_call-WritesOwner}
use rust_yamp.Router.Route.Reached.{WritesOwner}
use rust_yamp.Router.Request.Prompt.{Prompt}
use rust_yamp.Router.Serve.{finish_pooled, finish_task}
use rust_yamp.Router.Serve.Finished.{finish_pooled-Carries, finish_task-done}
use rust_yamp.Router.Handshake.{handshake}
use rust_yamp.Router.Handshake.Admission.{Admits, handshake-Admits}
use rust_yamp.Router.Route.{route_subscription}
use rust_yamp.Router.Publisher.{publish, route_subscription-publish}
use rust_yamp.Subscriptions.{updated_notification}
use rust_yamp.Router.Request.{find_backend}
use rust_yamp.Router.{resources}
use rust_yamp.Namespace.{split_uri}
use rust_yamp.Tasks.{is_working}
use rust_yamp.Tasks
use rust_yamp.Prelude.Decimal.{decimal}

abbrev up : Text → Option Text → Backend ℕ
up id token = record {
  id = id;
  breaker = none;
  timeout = none;
  token = token;
  next_id = 0;
  pending = [];
  keywords = [];
  capabilities = object empty;
  server_info = none;
}

-- Backends that answer with an empty result.
abbrev wire : List Sent → Sent → Reply
wire sent message = answered (json_object ((ascii "result", object empty) ∷ []))

abbrev clock : List Sent → ℕ
clock sent = length sent

abbrev encode : Json → Bytes
encode v = unwrap_or (get_str v (ascii "method")) []

abbrev decode : Bytes → Option Json
decode raw = none

abbrev validates : Json → Json → Option Bool
validates schema value = some true

abbrev render : List Text → Text
render names = []

abbrev same : Text → Text
same t = t

abbrev id_key : Json → Text
id_key id = unwrap_or (Json.as_str id) []

-- A handler that gives back its arguments.
abbrev local : Handler
local = record { id = ascii "here"; list_tools = []; call_tool = λ name arguments. arguments }

abbrev router : Bool → Router ℕ
router pool_enabled = record {
  backends = up (ascii "one") (some (ascii "own")) ∷ up (ascii "two") none ∷ [];
  resilient = true;
  single = false;
  trace = false;
  disclose = false;
  disclose_threshold = 0;
  cache = none;
  principal = none;
  server_requests = [];
  server_req_seq = 0;
  reverse = [];
  audit = none;
  namespacing = record { strategy = ascii "prefix"; overrides = []; priority = [] };
  registry = record { handlers = local ∷ [] };
  issuer = none;
  audience = none;
  variants = [];
  filter_chain = none;
  list_directives = none;
  validate_schemas = false;
  pool_enabled = pool_enabled;
  pool_idle_ms = 0;
  pool_cap = none;
  inflight = record { deadlines = [] };
  pool_tasks = [];
  pool_tokens = [];
  server_tasks = false;
  tasks_store = record { tasks = []; seq = 0 };
  task_handles = [];
  subscriptions_enabled = false;
  subscriptions = record { uris = [] };
  output_limit = 0;
  drain_ms = 0;
  counter = 1;
  sent = [];
}

abbrev two : Router ℕ
two = router true

-- What a client asks, its own credential with it.
abbrev credentials : Map
credentials =
    entry (ascii "_meta")
      (object (entry (ascii "authorization") (string (ascii "Bearer client")) empty)) empty

abbrev one : Backend ℕ
one = up (ascii "one") (some (ascii "own"))

request-credential_example :
    ((request seconds wire clock one [] (ascii "tools/call") (object credentials)).1
      ≡ [] ++ outgoing seconds wire clock one (ascii "tools/call") (object credentials) ∷ [])
    × ((outgoing seconds wire clock one (ascii "tools/call") (object credentials)).backend
        ≡ ascii "one")
    × ((Json.get
            (outgoing seconds wire clock one (ascii "tools/call") (object credentials)).message
            (ascii "params")
          >>= credential)
        ≡ own_credential (some (ascii "own")))
request-credential_example =
    request-credential seconds wire clock one [] (ascii "tools/call") credentials

-- A backend asks, and the client replies.
abbrev sampling : Json
sampling = json_object (
    (ascii "id", string (ascii "s1"))
    ∷ (ascii "method", string (ascii "sampling/createMessage"))
    ∷ [])

abbrev reply : Json
reply = json_object ((ascii "id", string (ascii "srv-1")) ∷ (ascii "result", null) ∷ [])

deliver-route_client_reply_example :
    ((deliver seconds two (ascii "one") [] sampling).2
      ≡ to_client (put sampling (ascii "id") (string (client_id 1))))
    × ((route_client_reply seconds (deliver seconds two (ascii "one") [] sampling).0 reply).sent
        ≡ []
          ++ record {
            backend = ascii "one";
            message = put reply (ascii "id") (string (ascii "s1"));
          }
            ∷ [])
    × (Dict.get
          (route_client_reply seconds
            (deliver seconds two (ascii "one") [] sampling).0
            reply).server_requests
          (client_id 1)
        ≡ none)
unfolding awaited get_str Json.get insert extend lookup text_eq text_lt method_of client_id decimal
    Dict.get
deliver-route_client_reply_example =
    deliver-route_client_reply seconds two (ascii "one") [] sampling reply (string (ascii "s1"))
      refl refl refl refl refl

deliver-Keeps_example : Keeps seconds two (deliver seconds two (ascii "one") [] sampling).0
unfolding Dict.get
deliver-Keeps_example =
    deliver-Keeps seconds two (ascii "one") [] sampling (λ k h. absurd (cc)) (omega arith)

abbrev call_of : Text → Json
call_of name = json_object (
    (ascii "id", string (ascii "c1"))
    ∷ (ascii "method", string (ascii "tools/call"))
    ∷ (ascii "params", json_object ((ascii "name", string name) ∷ []))
    ∷ [])

run_pooled-route_call_example :
    route_call seconds wire clock encode decode validates render same two
      (call_of (ascii "here__echo"))
      (string (ascii "c1"))
      tools
    ≡ (
      two,
      ok (
          dispatch_named encode validates two.registry
            (opts_of seconds wire clock encode decode validates render same two)
            (call_of (ascii "here__echo"))
            (string (ascii "c1"))),
    )
unfolding named split run_pooled get_str Json.get insert extend lookup text_eq text_lt handler_for
    split_once
run_pooled-route_call_example =
    run_pooled-route_call seconds wire clock encode decode validates render same two
      (string (ascii "c1")) (ascii "here") (ascii "echo") (call_of (ascii "here__echo")) refl refl
      refl

route_call-WritesOwner_example :
    WritesOwner []
      (route_call seconds wire clock encode decode validates render same two
        (call_of (ascii "two__echo"))
        (string (ascii "c1"))
        tools).0.sent
      (resolve tools.kind (named (call_of (ascii "two__echo")) tools.field))
unfolding tools text_eq
route_call-WritesOwner_example =
    route_call-WritesOwner seconds wire clock encode decode validates render same two
      (call_of (ascii "two__echo")) (string (ascii "c1")) tools
      (record { several = refl; undisclosed = refl; unrenamed = refl; prefixed = refl }) (λ e. cc)
      (λ e. cc)

answered-Prompt : (b : Backend ℕ) → Prompt seconds wire clock b
answered-Prompt b sent m at_b unlimited = λ e. absurd (cc)

both-Prompt : All (Prompt seconds wire clock) two.backends
both-Prompt = (
  answered-Prompt (up (ascii "one") (some (ascii "own"))),
  (answered-Prompt (up (ascii "two") none), tt),
)

finish_pooled-Carries_example :
    Carries
      (string (ascii "c1"))
      (finish_pooled seconds wire clock encode decode validates render same same id_key two
        (call_of (ascii "here__echo"))
        (string (ascii "c1"))
        false).1
    × (Dict.contains_key
          (finish_pooled seconds wire clock encode decode validates render same same id_key two
            (call_of (ascii "here__echo"))
            (string (ascii "c1"))
            false).0.pool_tasks
          (ascii "c1")
        ≡ false)
unfolding Json.get insert extend lookup text_eq text_lt
finish_pooled-Carries_example =
    finish_pooled-Carries seconds wire clock encode decode validates render same same id_key two
      (call_of (ascii "here__echo")) (string (ascii "c1")) false refl

finish_task-done_example :
    is_working
      (finish_task seconds wire clock encode decode validates render same same id_key
        (record two { tasks_store = (Tasks.create two.tasks_store).0 })
        (call_of (ascii "here__echo"))
        (string (ascii "c1"))
        (Tasks.create two.tasks_store).1).tasks_store
      (Tasks.create two.tasks_store).1
    ≡ false
finish_task-done_example =
    finish_task-done seconds wire clock encode decode validates render same same id_key
      (record two { tasks_store = (Tasks.create two.tasks_store).0 }) (call_of (ascii "here__echo"))
      (string (ascii "c1")) (Tasks.create two.tasks_store).1

handshake-Admits_example :
    Admits seconds wire clock
      (record two { issuer = some (ascii "https://idp") })
      sampling
      (handshake seconds wire clock (record two { issuer = some (ascii "https://idp") }) sampling)
handshake-Admits_example =
    handshake-Admits seconds wire clock (record two { issuer = some (ascii "https://idp") })
      sampling both-Prompt

collect-Owned_example :
    ListsOwned seconds wire clock tools
      (collect seconds wire clock encode decode two tools plain_query)
unfolding text_eq
collect-Owned_example =
    collect-Owned seconds wire clock encode decode two tools plain_query refl refl refl

abbrev subscription : Json
subscription =
    json_object
      ((ascii "params", json_object ((ascii "uri", string (ascii "file:///notes")) ∷ [])) ∷ [])

abbrev publishing : Router ℕ
publishing = record two { subscriptions_enabled = true }

route_subscription-publish_example :
    (publish
        (route_subscription seconds wire clock publishing subscription
          (string (ascii "c3"))
          (ascii "resources/subscribe")).0.subscriptions
        (named subscription (ascii "uri"))
      ≡ some (updated_notification (named subscription (ascii "uri"))))
    × (publish
          (route_subscription seconds wire clock publishing subscription
            (string (ascii "c3"))
            (ascii "resources/unsubscribe")).0.subscriptions
          (named subscription (ascii "uri"))
        ≡ none)
unfolding named resolve resources split_uri find_backend get_str Json.get insert extend lookup
    text_eq text_lt split_once
route_subscription-publish_example =
    route_subscription-publish seconds wire clock publishing subscription (string (ascii "c3")) refl
      refl refl
