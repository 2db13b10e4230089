-- ===== src/Router/Publisher.antt =====
-- `ResourcePublisher` of src/router.rs, and the subscriptions that a client makes for it.
use rust_yamp.Prelude.{
  ◌≡◌, refl, true, false, Option, none, some, Text, ascii, text_eq, text_eq_refl, if◌then◌else◌,
  List,
}
use rust_yamp.Json.{Json}
use rust_yamp.Float.{Float}
use rust_yamp.Dict.{get-insert, get-remove, text_key}
use rust_yamp.Subscriptions.{Subscriptions, subscribe, unsubscribe, contains, updated_notification}
use rust_yamp.Router.{Sent, Reply, Router, resources, resolve}
use rust_yamp.Router.Local.{named}
use rust_yamp.Router.Route.{route_subscription, subscribe_local, owner}

-- `publish`: the notification that is sent, if the URI is subscribed.
unfoldable pub publish : Subscriptions → Text → Option Json
unfolding contains
publish s uri = if contains s uri then some (updated_notification uri) else none

publish-subscribe :
    (s : Subscriptions) (uri : Text)
    → publish (subscribe s uri) uri ≡ some (updated_notification uri)
unfolding publish subscribe
publish-subscribe s uri = rw (get-insert s.uris uri uri tt, text_eq_refl uri) refl

publish-unsubscribe : (s : Subscriptions) (uri : Text) → publish (unsubscribe s uri).0 uri ≡ none
unfolding publish unsubscribe
publish-unsubscribe s uri = rw (get-remove s.uris uri uri, text_eq_refl uri) refl

module _ (f : Float) (wire : List Sent → Sent → Reply) (clock : List Sent → f.F64) where
  open f use {F64}

  route_local :
      (r : Router F64) (message id : Json) (method : Text)
      → r.single ≡ false
      → owner f wire clock r (resolve resources.kind (named message (ascii "uri"))) ≡ none
      → route_subscription f wire clock r message id method
        ≡ subscribe_local f wire clock r id method (named message (ascii "uri"))
  unfolding route_subscription
  route_local r message id method s o = rw (s, o) refl

  -- Of a URI that no backend owns, updates are published to the client after it subscribed to the
  -- URI, and no more after it unsubscribed, if the router takes subscriptions of its own and does
  -- not pass a single backend's names through.
  pub route_subscription-publish :
      (r : Router F64) (message id : Json)
      → r.single ≡ false
      → r.subscriptions_enabled ≡ true
      → owner f wire clock r (resolve resources.kind (named message (ascii "uri"))) ≡ none
      → (publish
            (route_subscription f wire clock r message id
              (ascii "resources/subscribe")).0.subscriptions
            (named message (ascii "uri"))
          ≡ some (updated_notification (named message (ascii "uri"))))
        × (publish
              (route_subscription f wire clock r message id
                (ascii "resources/unsubscribe")).0.subscriptions
              (named message (ascii "uri"))
            ≡ none)
  unfolding subscribe_local text_eq
  route_subscription-publish r message id s on o =
      let uri = named message (ascii "uri") in
      (
        rw (route_local r message id (ascii "resources/subscribe") s o, on)
            (publish-subscribe r.subscriptions uri),
        rw (route_local r message id (ascii "resources/unsubscribe") s o, on)
            (publish-unsubscribe r.subscriptions uri),
      )
