-- ===== src/Router/Surface.antt =====
-- `SurfaceWatcher` of src/router.rs. Its breakers and its cache are the router's, so it works on the
-- router's state; `surface` is what was available when it looked last.
use rust_yamp.Prelude.{
  Bool, not, ◌&&◌, Option, none, some, List, [], ◌∷◌, Text, if◌then◌else◌, all, retain,
}
use rust_yamp.Prelude.Sort.{elem}
use rust_yamp.Json.{Json}
use rust_yamp.Float.{Float}
use rust_yamp.Cache.{ListCache, invalidate_backend}
use rust_yamp.Router.{Backend, Router}
use rust_yamp.Router.Request.{available}
use rust_yamp.Resilience.Messages.{list_changed_notification}

-- `current == *surface` on sets.
unfoldable pub same_set : List Text → List Text → Bool
unfolding elem
same_set xs ys = all (λ x. elem x ys) xs && all (λ y. elem y xs) ys

-- `surface.difference(&current)`
unfoldable pub difference : List Text → List Text → List Text
unfolding elem
difference xs ys = retain (λ x. not (elem x ys)) xs

module _ (f : Float) where
  open f use {F64}

  -- The ids that are available, and the breakers that were asked.
  unfoldable pub available_ids : List (Backend F64) → F64 → List (Backend F64) × List Text
  available_ids [] now = ([], [])
  available_ids (b ∷ bs) now =
      let (b', allowed) = available f b now in
      let (bs', ids) = available_ids bs now in (b' ∷ bs', if allowed then b.id ∷ ids else ids)

  unfoldable pub invalidate_all : ListCache F64 → List Text → ListCache F64
  invalidate_all cache [] = cache
  invalidate_all cache (id ∷ ids) = invalidate_all (invalidate_backend f cache id) ids

  abbrev pub invalidated : Option (ListCache F64) → List Text → Option (ListCache F64)
  invalidated none ids = none
  invalidated (some cache) ids = some (invalidate_all cache ids)

  -- `reset`.
  unfoldable pub reset : Router F64 → F64 → Router F64 × List Text
  unfolding available_ids
  reset r now =
      let (backends, current) = available_ids r.backends now in
      (record r { backends = backends }, current)

  -- `emit_if_changed`: the router, the new surface, and what the client is told.
  unfoldable pub emit_if_changed : Router F64 → List Text → F64 → Router F64 × List Text × List Json
  unfolding available_ids same_set difference invalidate_all list_changed_notification
  emit_if_changed r surface now =
      let (backends, current) = available_ids r.backends now in
      let r' = record r { backends = backends } in
      if same_set current surface then (r', surface, []) else (
        record r' { cache = invalidated r.cache (difference surface current) },
        current,
        list_changed_notification ∷ [],
      )
