-- ===== src/Auth/Credentials.antt =====
-- The confused-deputy protection of src/auth.rs: what `forward_meta` keeps of a client's `_meta`.
use rust_yamp.Prelude.{
  ◌≡◌, refl, inl, inr, Bool, true, false, Option, none, some, if◌then◌else◌, Bool-cases, Text,
  text_eq,
}
use rust_yamp.Json.{
  Json, Map, empty, string, object, lookup, insert, remove, lookup-insert, lookup-remove,
}
use rust_yamp.Json
use rust_yamp.Auth.{authorization, bearer, forward_meta}

-- The credential of a token.
abbrev pub injected : Option Text → Option Json
injected none = none
injected (some token) = some (bearer token)

-- `forward_meta` of an object keeps what it has under every key but `authorization`, and has under
-- that key the credential of the given token or, without a token, nothing, whatever was there.
pub lookup-forward_meta :
    (meta : Map) (token : Option Text) (k : Text)
    → Json.get (forward_meta (object meta) token) k
      ≡ (if text_eq authorization k then injected token else lookup meta k)
unfolding forward_meta Json.get
lookup-forward_meta meta none k = lookup-remove meta authorization k
lookup-forward_meta meta (some token) k =
    rw
      (
        lookup-insert (remove meta authorization) authorization k (bearer token),
        lookup-remove meta authorization k,
      )
      (twice (text_eq authorization k))
  where
    twice :
        (b : Bool)
        → (if b then some (bearer token) else (if b then none else lookup meta k))
          ≡ (if b then some (bearer token) else lookup meta k)
    twice true = refl
    twice false = refl

-- Of two objects that differ only in the credential `forward_meta` makes the same.
pub forward_meta_blind :
    (meta other : Map) (token : Option Text)
    → ((k : Text) → text_eq authorization k ≡ false → lookup meta k ≡ lookup other k)
    → (k : Text)
    → Json.get (forward_meta (object meta) token) k ≡ Json.get (forward_meta (object other) token) k
forward_meta_blind meta other token same k =
    rw (lookup-forward_meta meta token k, lookup-forward_meta other token k)
      (elim (Bool-cases (text_eq authorization k)) [ inl e ↦ rw e refl | inr e ↦ rw e (same k e) ])
