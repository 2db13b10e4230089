-- ===== src/Tests/Cache.antt =====
-- src/cache.rs on a concrete history.
use rust_yamp.Prelude.{ℕ, ◌≡◌, refl, none, some, List, [], ◌∷◌, Any, ascii, text_eq}
use rust_yamp.Dict.{Dict, pair_key}
use rust_yamp.Dict
use rust_yamp.Json.{Json, Map, empty, entry, string, number, pos_int, object, lookup}
use rust_yamp.Json
use rust_yamp.Cache.{new, get, put, serve, ttl_of, scope_of, principal_eq}
use rust_yamp.Cache.Laws.{get-put}
use rust_yamp.Cache.History.{Op, store, run, step, Supplied, served_was_stored}
use rust_yamp.Tests.Clock.{seconds}

abbrev private_tools : Json
private_tools = object (
    entry (ascii "cacheScope") (string (ascii "private"))
      (entry (ascii "ttlMs") (number (pos_int 5000)) empty))

abbrev history : List (Op ℕ)
history = store (ascii "docs") (ascii "tools/list") (some (ascii "ann")) private_tools 10 ∷ []

served_was_stored_example :
    Any
      (Supplied seconds (ascii "docs") (ascii "tools/list") (some (ascii "ann")) private_tools)
      history
unfolding run step new get put serve ttl_of scope_of principal_eq Json.get lookup Dict.get
    Dict.insert text_eq
served_was_stored_example =
    served_was_stored seconds 0 history (ascii "docs") (ascii "tools/list") (some (ascii "ann")) 12
      private_tools refl

-- Another principal is shown nothing.
get-put_example :
    (get seconds
      (put seconds
        (new seconds 0)
        (ascii "docs")
        (ascii "tools/list")
        (some (ascii "ann"))
        private_tools
        10)
      (ascii "docs")
      (ascii "tools/list")
      (some (ascii "bob"))
      12).0
    ≡ none
unfolding new ttl_of scope_of principal_eq Json.get lookup text_eq
get-put_example =
    get-put seconds (new seconds 0) (ascii "docs") (ascii "tools/list") (ascii "docs")
      (ascii "tools/list") (some (ascii "ann")) (some (ascii "bob")) private_tools 10 12
