-- ===== src/Router/Reader/Correlation.antt =====
-- A backend's request and the client's reply find each other.
use rust_yamp.Prelude.{
  ℕ, ◌+◌, ◌%◌, ◌^◌, ◌≤◌, ◌<◌, ◌≡◌, refl, Bool, true, false, ◌&&◌, Option, none, some, List, [], ◌∷◌,
  ◌++◌, Text, ascii, text_eq, arith, text_eq_refl, eq_of_text_eq, text_eq_of_ne, sym, inl, inr,
  Bool-cases, ap, ◌∙◌, if◌then◌else◌, is_some, unwrap_or, any,
}
use rust_yamp.Prelude.Decimal.{decimal_injective}
use rust_yamp.Json.{Json, null, string, get_str}
use rust_yamp.Json
use rust_yamp.JsonRpc.{method_of}
use rust_yamp.Pool.{is_method}
use rust_yamp.Float.{Float}
use rust_yamp.Dict.{Dict, text_key, get-insert, get-remove}
use rust_yamp.Dict
use rust_yamp.Router.{Backend, Router, put}
use rust_yamp.Router.Reader.{
  to_client, awaited, client_id, initiate, relay, list_changed_methods, invalidated,
  renamed_notification, undelivered, deliver_to, deliver, send_message, route_client_reply,
}

forgotten : (m : Dict Text (Text × Json)) (k : Text) → Dict.get (Dict.remove m k) k ≡ none
forgotten m k = rw (get-remove m k k, text_eq_refl k) refl

and_false : (b : Bool) → (b && false) ≡ false
and_false true = refl
and_false false = refl

renamed-none :
    (single : Bool) (id : Text) (message : Json)
    → method_of message ≡ none
    → renamed_notification single id message ≡ message
unfolding renamed_notification
renamed-none true id message m = rw m refl
renamed-none false id message m = rw m refl

module _ (f : Float) where
  open f use {F64}

  abbrev pub next_seq : Router F64 → ℕ
  next_seq r = (r.server_req_seq + 1) % 2 ^ 64

  has_backend : List (Backend F64) → Text → Bool
  has_backend bs id = any (λ (b : Backend F64). text_eq b.id id) bs

  deliver-initiate :
      (r : Router F64) (id : Text) (pending : Dict Text (Unit {0})) (message : Json)
      → awaited pending (get_str message (ascii "id")) ≡ none
      → is_some (Json.get message (ascii "id")) ≡ true
      → is_some (method_of message) ≡ true
      → deliver f r id pending message
        ≡ ((initiate f r id message).0, pending, (initiate f r id message).1)
  unfolding deliver deliver_to undelivered
  deliver-initiate r id pending message a i m = rw (a, i, m) refl

  -- What a reply to a minted id does.
  route_client_reply-found :
      (r : Router F64) (reply original : Json) (key id : Text)
      → get_str reply (ascii "id") ≡ some key
      → Dict.get r.server_requests key ≡ some (id, original)
      → any (λ (b : Backend F64). text_eq b.id id) r.backends ≡ true
      → route_client_reply f r reply ≡ record r {
        server_requests = Dict.remove r.server_requests key;
        sent = r.sent ++ record { backend = id; message = put reply (ascii "id") original } ∷ [];
      }
  unfolding route_client_reply send_message
  route_client_reply-found r reply original key id q g b = rw (q, g, b) refl

  minted :
      (r : Router F64) (id : Text) (message original : Json)
      → Json.get message (ascii "id") ≡ some original
      → Dict.get (initiate f r id message).0.server_requests (client_id (next_seq r))
        ≡ some (id, original)
  unfolding initiate
  minted r id message original i =
      let k = client_id (next_seq r) in
      rw (i, get-insert r.server_requests k k (id, original), text_eq_refl k) refl

  -- A request that a backend makes reaches the client under a minted id, and the client's reply to
  -- that id is written to that backend, and to no other, under the backend's own id; the
  -- correlation is then forgotten.
  pub deliver-route_client_reply :
      (r : Router F64) (id : Text) (pending : Dict Text (Unit {0})) (message reply original : Json)
      → awaited pending (get_str message (ascii "id")) ≡ none
      → Json.get message (ascii "id") ≡ some original
      → is_some (method_of message) ≡ true
      → any (λ (b : Backend F64). text_eq b.id id) r.backends ≡ true
      → get_str reply (ascii "id") ≡ some (client_id (next_seq r))
      → ((deliver f r id pending message).2
          ≡ to_client (put message (ascii "id") (string (client_id (next_seq r)))))
        × ((route_client_reply f (deliver f r id pending message).0 reply).sent
            ≡ r.sent ++ record { backend = id; message = put reply (ascii "id") original } ∷ [])
        × (Dict.get
              (route_client_reply f (deliver f r id pending message).0 reply).server_requests
              (client_id (next_seq r))
            ≡ none)
  deliver-route_client_reply r id pending message reply original a i m b q =
      let e = deliver-initiate r id pending message a (rw i refl) m in
      let k = client_id (next_seq r) in
      let r' = (initiate f r id message).0 in
      let found =
        route_client_reply-found r' reply original k id q (minted r id message original i)
          (unfold initiate in b) in
      rw (e, found) (unfold initiate in (refl, refl, forgotten r'.server_requests k))

  client_id_injective : (n m : ℕ) → client_id n ≡ client_id m → n ≡ m
  unfolding client_id
  client_id_injective n m e = decimal_injective n m (cc e)

  -- Every correlation was minted by the counter.
  abbrev pub IsMinted : Router F64 → Type 0
  IsMinted r =
      (k : Text)
      → is_some (Dict.get r.server_requests k) ≡ true
      → (n : ℕ) × (k ≡ client_id n) × (n ≤ r.server_req_seq)

  -- Minting overwrites no correlation.
  initiate-keeps :
      (r : Router F64) (id : Text) (message : Json) (k : Text) (v : Text × Json)
      → IsMinted r
      → r.server_req_seq + 1 < 2 ^ 64
      → Dict.get r.server_requests k ≡ some v
      → Dict.get (initiate f r id message).0.server_requests k ≡ some v
  unfolding initiate
  initiate-keeps r id message k v minted_ small g =
      let (n, e, l) = minted_ k (rw g refl) in
      let c = client_id (next_seq r) in
      rw
        (
          get-insert r.server_requests c k (id, unwrap_or (Json.get message (ascii "id")) null),
          text_eq_of_ne c k
              (λ same. absurd (omega (arith, client_id_injective (next_seq r) n (same ∙ e)))),
        )
        g

  initiate-IsMinted :
      (r : Router F64) (id : Text) (message : Json)
      → IsMinted r
      → r.server_req_seq + 1 < 2 ^ 64
      → IsMinted (initiate f r id message).0
  unfolding initiate
  initiate-IsMinted r id message minted_ small k h =
      let c = client_id (next_seq r) in
      elim (Bool-cases (text_eq c k)) [
        | inl same ↦ (next_seq r, sym (eq_of_text_eq c k same), omega arith)
        | inr other ↦
            let (n, e, l) = minted_ k (
              rw
                (
                  get-insert r.server_requests c k
                      (id, unwrap_or (Json.get message (ascii "id")) null),
                  other,
                )
                at h) in
            (n, e, omega arith)
      ]

  -- All correlations are minted, and those of before stand as they stood.
  abbrev pub Keeps : Router F64 → Router F64 → Type 0
  Keeps r r' =
      IsMinted r'
      × ((k : Text) (v : Text × Json)
          → Dict.get r.server_requests k ≡ some v
          → Dict.get r'.server_requests k ≡ some v)

  if-Keeps : (r x y : Router F64) (b : Bool) → Keeps r x → Keeps r y → Keeps r (if b then x else y)
  if-Keeps r x y true p q = p
  if-Keeps r x y false p q = q

  relay-Keeps :
      (r : Router F64) (id : Text) (message : Json) → IsMinted r → Keeps r (relay f r id message).0
  unfolding relay
  relay-Keeps r id message m =
      if-Keeps r (record r { cache = invalidated f r.cache id }) r
        (any (λ k. is_method (method_of message) k) list_changed_methods) (m, λ k v g. g)
        (m, λ k v g. g)

  undelivered-Keeps :
      (r : Router F64) (id : Text) (message : Json)
      → IsMinted r
      → r.server_req_seq + 1 < 2 ^ 64
      → Keeps r (undelivered f r id message).0
  unfolding undelivered
  undelivered-Keeps r id message m small =
      let asks = is_some (Json.get message (ascii "id")) && is_some (method_of message) in
      elim (Bool-cases asks) [
        | inl e ↦ rw e (
          initiate-IsMinted r id message m small,
          λ k v g. initiate-keeps r id message k v m small g,
        )
        | inr e ↦ rw e (relay-Keeps r id message m)
      ]

  deliver_to-Keeps :
      (r : Router F64) (id : Text) (pending : Dict Text (Unit {0})) (message : Json)
      (waiting : Option Text)
      → IsMinted r
      → r.server_req_seq + 1 < 2 ^ 64
      → Keeps r (deliver_to f r id pending message waiting).0
  unfolding deliver_to
  deliver_to-Keeps r id pending message (some key) m small = (m, λ k v g. g)
  deliver_to-Keeps r id pending message none m small = undelivered-Keeps r id message m small

  -- Each message of a backend, while the counter does not wrap, keeps every open correlation as it
  -- is, and all of them are minted by the counter: no two requests of the backends share an id.
  pub deliver-Keeps :
      (r : Router F64) (id : Text) (pending : Dict Text (Unit {0})) (message : Json)
      → IsMinted r
      → r.server_req_seq + 1 < 2 ^ 64
      → Keeps r (deliver f r id pending message).0
  unfolding deliver
  deliver-Keeps r id pending message m small =
      deliver_to-Keeps r id pending message (awaited pending (get_str message (ascii "id"))) m small

  asks-none :
      (message : Json)
      → method_of message ≡ none
      → (is_some (Json.get message (ascii "id")) && is_some (method_of message)) ≡ false
  asks-none message m = rw m (and_false (is_some (Json.get message (ascii "id"))))

  deliver-relay :
      (r : Router F64) (id : Text) (pending : Dict Text (Unit {0})) (message : Json)
      → awaited pending (get_str message (ascii "id")) ≡ none
      → (is_some (Json.get message (ascii "id")) && is_some (method_of message)) ≡ false
      → deliver f r id pending message
        ≡ ((relay f r id message).0, pending, (relay f r id message).1)
  unfolding deliver deliver_to undelivered
  deliver-relay r id pending message a e = rw (a, e) refl

  relay-none :
      (r : Router F64) (id : Text) (message : Json)
      → method_of message ≡ none
      → (relay f r id message).1 ≡ to_client message
  unfolding relay
  relay-none r id message m = ap to_client (renamed-none r.single id message m)

  -- A response that no request waits for, as one that comes after its request timed out, is passed
  -- on to the client as it is, with the id that the router made for the backend.
  deliver-late :
      (r : Router F64) (id : Text) (pending : Dict Text (Unit {0})) (message : Json)
      → awaited pending (get_str message (ascii "id")) ≡ none
      → method_of message ≡ none
      → (deliver f r id pending message).2 ≡ to_client message
  deliver-late r id pending message a m =
      rw (deliver-relay r id pending message a (asks-none message m)) (relay-none r id message m)
