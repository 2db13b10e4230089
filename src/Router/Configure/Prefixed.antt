-- ===== src/Router/Configure/Prefixed.antt =====
-- Which names a router that is configured gives out.
use rust_yamp.Prelude.{
  ℕ, ◌≡◌, refl, Bool, false, Option, List, Text, Bytes, text_eq, length, ◌==◌, ◌≤◌, arith,
}
use rust_yamp.Json.{Json}
use rust_yamp.Float.{Float}
use rust_yamp.Handler.{Registry}
use rust_yamp.Router.{Backend, Sent, Reply}
use rust_yamp.Router.Configure.{configure, set_registry}
use rust_yamp.Router.Call.Reached.{IsPrefixed}

module _ (f : Float) (wire : List Sent → Sent → Reply) (clock : List Sent → f.F64)
    (encode : Json → Bytes) (decode : Bytes → Option Json) (validates : Json → Json → Option Bool)
    (render : List Text → Text) (lower : Text → Text) where
  open f use {F64}

  -- Over two backends or more, with any registry of local handlers, names stand under prefixes.
  configure-IsPrefixed :
      (backends : List (Backend F64)) (counter : ℕ) (registry : Registry)
      → 2 ≤ length backends
      → IsPrefixed f wire clock encode decode validates render lower
          (set_registry f (configure f backends counter).0 registry)
  unfolding configure set_registry text_eq
  configure-IsPrefixed backends counter registry h = record {
    several = rw several refl;
    undisclosed = refl;
    unrenamed = refl;
    prefixed = refl;
  }
    where
      several : (length backends == 1) ≡ false
      several = ground arith
