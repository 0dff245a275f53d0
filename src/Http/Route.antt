-- ===== src/Http/Route.antt =====
-- The route table of the gateway: `fpm_http_route_ranks_before` and `fpm_http_routes_sort` of
-- sapi/fpmng/fpm/fpm_http_route.c, `fpm_http_prefix_covers` and the walk of `fpm_http_route` of
-- sapi/fpmng/fpm/fpm_http.c.
pub mod Best
pub mod Covers
use php_fpm_ng.Base.{
  ℕ, ◌-◌, Bool, true, false, not, ◌&&◌, ◌||◌, Option, none, some, List, [], ◌∷◌, Bytes, equal,
  length, get_or, drop, peek, starts_with, ltb, ◌==◌, if◌then◌else◌,
}

-- A row, with the number of its target.
pub record Route : Type 0 where
  pub prefix : Bytes
  pub host : Option Bytes
  pub target : ℕ

abbrev pub has_host : Option Bytes → Bool
has_host none = false
has_host (some h) = true

-- `(a->host != NULL) != (b->host != NULL)`, and then `a->host != NULL`, is a host against none.
unfoldable pub ranks_before : Route → Route → Bool
ranks_before a b =
    if has_host a.host && not (has_host b.host)
    then true
    else if not (has_host a.host) && has_host b.host
    then false
    else ltb (length b.prefix) (length a.prefix)

-- The inner loop: the sorted rows from the last to the first.
pub place : Route → List Route → List Route
place row [] = row ∷ []
place row (y ∷ ys) =
    let rest = place row ys in if ranks_before row y then y ∷ rest else row ∷ y ∷ ys

-- The outer loop, with the sorted rows from the last to the first.
pub place_all : List Route → List Route → List Route
place_all [] sorted = sorted
place_all (row ∷ rows) sorted = place_all rows (place row sorted)

pub from_last : List Route → List Route → List Route
from_last [] rows = rows
from_last (y ∷ ys) rows = from_last ys (y ∷ rows)

unfoldable pub routes_sort : List Route → List Route
unfolding place place_all from_last ranks_before
routes_sort rows = from_last (place_all rows []) []

-- The last byte of the prefix; a prefix is not empty.
abbrev last_of : Bytes → ℕ
last_of p = get_or p (length p - 1) 0

unfoldable pub prefix_covers : Bytes → Bytes → Bool
unfolding starts_with
prefix_covers prefix path =
    if not (starts_with prefix path)
    then false
    else if length path == length prefix || last_of prefix == b'/'
    then true
    else peek (drop (length prefix) path) == b'/'

-- `have_host` and `host` are an option.
pub host_agrees : Option Bytes → Option Bytes → Bool
host_agrees none host = true
host_agrees (some h) none = false
host_agrees (some h) (some host) = equal h host

unfoldable pub row_matches : Option Bytes → Bytes → Route → Bool
unfolding host_agrees prefix_covers equal
row_matches host path row =
    if not (host_agrees row.host host) then false else prefix_covers row.prefix path

-- The walk over the table, for a path that was decoded; `none` leaves the fallback.
unfoldable pub walk : Option Bytes → Bytes → List Route → Option Route
unfolding row_matches
walk host path [] = none
walk host path (row ∷ rows) =
    let rest = walk host path rows in if row_matches host path row then some row else rest
