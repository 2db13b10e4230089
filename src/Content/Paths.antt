-- ===== src/Content/Paths.antt =====
-- A payload that src/content.rs writes at a path is what the path leads to.
use rust_yamp.Prelude.{
  ℕ, zero, suc, ◌<◌, ◌≡◌, refl, Option, none, some, List, [], ◌∷◌, >>=-eq-some, ◌>>=◌, All, Bytes,
  Text,
}
use rust_yamp.Json.{
  Json, Items, nil, cons, null, bool, number, string, array, object, lookup, insert, as_object,
  as_items, as_str, number_as_u64, lookup-insert_self,
}
use rust_yamp.Base64.{decode, encode}
use rust_yamp.Base64.RoundTrip.{decode-encode}
use rust_yamp.Content.{item_at, set_item, navigate_mut, set_text, set_bytes}

-- What a path leads to.
unfoldable pub navigate : Json → List Json → Option Json
unfolding item_at
navigate v [] = some v
navigate v (string key ∷ path) = do m ← as_object v; inner ← lookup m key; navigate inner path
navigate v (number index ∷ path) = do
  vs ← as_items v
  i ← number_as_u64 index
  inner ← item_at vs i
  navigate inner path
navigate v (null ∷ path) = none
navigate v (bool b ∷ path) = none
navigate v (array vs ∷ path) = none
navigate v (object m ∷ path) = none

item_at-set_item :
    (vs : Items) (i : ℕ) (v w : Json) → item_at vs i ≡ some v → item_at (set_item vs i w) i ≡ some w
unfolding item_at set_item
item_at-set_item nil i v w h = absurd (cc)
item_at-set_item (cons u vs) zero v w h = refl
item_at-set_item (cons u vs) (suc i) v w h = item_at-set_item vs i v w h

-- Where a path leads somewhere, the write there is done, and leads to the payload.
abbrev Written : Json → List Json → Json → Type 0
Written v path payload =
    (v' : Json) × (navigate_mut v path payload ≡ some v') × (navigate v' path ≡ some payload)

navigate_mut-Written :
    (v : Json) (path : List Json) (payload old : Json)
    → navigate v path ≡ some old
    → Written v path payload
unfolding navigate navigate_mut
navigate_mut-Written v [] payload old h = (payload, refl, refl)
navigate_mut-Written v (string key ∷ path) payload old h =
    let (m, is_map, found) =
      >>=-eq-some (as_object v) (λ m. do inner ← lookup m key; navigate inner path) h in
    let (inner, at_key, below) = >>=-eq-some (lookup m key) (λ w. navigate w path) found in
    let (inner', done, leads) = navigate_mut-Written inner path payload old below in
    (
      object (insert m key inner'),
      rw (is_map, at_key, done) refl,
      rw (lookup-insert_self m key inner') leads,
    )
navigate_mut-Written v (number index ∷ path) payload old h =
    let (vs, is_items, found) =
      >>=-eq-some (as_items v)
        (λ vs. do i ← number_as_u64 index; inner ← item_at vs i; navigate inner path) h in
    let (i, is_u64, found') =
      >>=-eq-some (number_as_u64 index) (λ i. do inner ← item_at vs i; navigate inner path) found in
    let (inner, at_index, below) = >>=-eq-some (item_at vs i) (λ w. navigate w path) found' in
    let (inner', done, leads) = navigate_mut-Written inner path payload old below in
    (
      array (set_item vs i inner'),
      rw (is_items, is_u64, at_index, done) refl,
      rw (is_u64, item_at-set_item vs i inner inner' at_index) leads,
    )
navigate_mut-Written v (null ∷ path) payload old h = absurd (cc)
navigate_mut-Written v (bool b ∷ path) payload old h = absurd (cc)
navigate_mut-Written v (array vs ∷ path) payload old h = absurd (cc)
navigate_mut-Written v (object m ∷ path) payload old h = absurd (cc)

-- Where a path leads to any payload, it leads to the text after `set_text`.
pub navigate-set_text :
    (message : Json) (path : List Json) (text : Text) (old : Json)
    → navigate message path ≡ some old
    → navigate (set_text message path text) path ≡ some (string text)
unfolding set_text
navigate-set_text message path text old h =
    let (message', done, leads) = navigate_mut-Written message path (string text) old h in
    rw done leads

-- Where a path leads to any payload, `set_bytes` leaves a base64 text there that decodes to exactly
-- the bytes that were written.
navigate-set_bytes :
    (message : Json) (path : List Json) (bytes : Bytes) (old : Json)
    → navigate message path ≡ some old
    → All (λ b. b < 256) bytes
    → (do v ← navigate (set_bytes message path bytes) path; s ← as_str v; decode s) ≡ some bytes
unfolding set_bytes
navigate-set_bytes message path bytes old h small =
    let (message', done, leads) = navigate_mut-Written message path (string (encode bytes)) old h in
    rw (done, leads) (decode-encode bytes small)
