-- ===== src/Http/Route/Best/Walk.antt =====
-- The first row of the sorted table that covers a path is the best one.
use php_fpm_ng.Base.{
  ◌≡◌, true, false, ◌⊎◌, inl, inr, Option, none, some, List, [], ◌∷◌, Bytes, length, Bool-cases,
}
use php_fpm_ng.Http.Route.{Route, ranks_before, routes_sort, row_matches, walk}
use php_fpm_ng.Http.Route.Covers.{Covers, AsGood, ranks_before-AsGood, row_matches-Covers}
use php_fpm_ng.Http.Route.Best.{
  All, NotAfter, InOrder, ranks_before-asym, All-map, sort-InOrder, sort-All, All-sort, Among, here,
  there,
}

-- A row that does not cover the request, or that does not rank before the one that was found.
abbrev IsNoBetter : Option Bytes → Bytes → Route → Route → Type 0
IsNoBetter host path r z = (row_matches host path z ≡ false) ⊎ (ranks_before z r ≡ false)

abbrev IsFound : Option Bytes → Bytes → List Route → Option Route → Type 0
IsFound host path rows none = All (λ z. row_matches host path z ≡ false) rows
IsFound host path rows (some r) =
    (row_matches host path r ≡ true) × Among r rows × All (IsNoBetter host path r) rows

ranks_before_irrefl : (r : Route) → ranks_before r r ≡ false
ranks_before_irrefl r = elim (Bool-cases (ranks_before r r)) [
  | inl y ↦ ranks_before-asym r r y
  | inr n ↦ n
]

behind-IsFound :
    (host : Option Bytes) (path : Bytes) (x : Route) (xs : List Route) (o : Option Route)
    → row_matches host path x ≡ false
    → IsFound host path xs o
    → IsFound host path (x ∷ xs) o
behind-IsFound host path x xs none n h = (n, h)
behind-IsFound host path x xs (some r) n (m, a, h) = (m, there x a, (inl n, h))

walk-IsFound :
    (host : Option Bytes) (path : Bytes) (xs : List Route)
    → InOrder xs
    → IsFound host path xs (walk host path xs)
unfolding walk
walk-IsFound host path [] h = tt
walk-IsFound host path (x ∷ xs) (p, h) = elim (Bool-cases (row_matches host path x)) [
  | inl y ↦ rw y (
    y,
    here xs,
    (
      inr (ranks_before_irrefl x),
      All-map (λ z. NotAfter x z) (IsNoBetter host path x) xs (λ z n. inr n) p,
    ),
  )
  | inr n ↦ rw n (behind-IsFound host path x xs (walk host path xs) n (walk-IsFound host path xs h))
]

All-self : (rows : List Route) → All (λ z. Among z rows) rows
All-self [] = tt
All-self (r ∷ rows) = (
  here rows,
  All-map (λ z. Among z rows) (λ z. Among z (r ∷ rows)) rows (λ z a. there r a) (All-self rows),
)

pick : (P : Route → Type 0) {r : Route} {rows : List Route} → Among r rows → All P rows → P r
pick P (here rs) h = h.0
pick P (there x a) h = pick P a h.1

sorted-IsFound :
    (host : Option Bytes) (path : Bytes) (rows : List Route) (o : Option Route)
    → IsFound host path (routes_sort rows) o
    → IsFound host path rows o
sorted-IsFound host path rows none h = All-sort (λ z. row_matches host path z ≡ false) rows h
sorted-IsFound host path rows (some r) (m, a, h) = (
  m,
  pick (λ z. Among z rows) a (sort-All (λ z. Among z rows) rows (All-self rows)),
  All-sort (IsNoBetter host path r) rows h,
)

-- The row of a configured table that a request is for. If there is none, no row covers it.
abbrev pub IsBest : Option Bytes → Bytes → List Route → Option Route → Type 0
IsBest host path rows none = All (λ z. ¬ Covers host path z) rows
IsBest host path rows (some r) =
    Covers host path r
    × Among r rows
    × All (λ z. Covers host path z → AsGood r.host (length r.prefix) z.host (length z.prefix)) rows

not_covered :
    (host : Option Bytes) (path : Bytes) (z : Route)
    → row_matches host path z ≡ false
    → ¬ Covers host path z
not_covered host path z n c = let y = (row_matches-Covers host path z).1 c in absurd (cc)

found-IsBest :
    (host : Option Bytes) (path : Bytes) (rows : List Route) (o : Option Route)
    → IsFound host path rows o
    → IsBest host path rows o
found-IsBest host path rows none h =
    All-map (λ z. row_matches host path z ≡ false) (λ z. ¬ Covers host path z) rows
      (not_covered host path) h
found-IsBest host path rows (some r) (m, a, h) = (
  (row_matches-Covers host path r).0 m,
  a,
  All-map (IsNoBetter host path r)
      (λ z. Covers host path z → AsGood r.host (length r.prefix) z.host (length z.prefix)) rows
      (λ z o c. elim o [
        | inl n ↦ absurd (not_covered host path z n c)
        | inr b ↦ ranks_before-AsGood r z b
      ])
      h,
)

-- The walk over the sorted table finds a row of the table that covers the request: the row has no
-- host or the host of the request, and the path is its prefix or goes on behind it, with a slash as
-- the last byte of the prefix or the next byte of the path. Among the rows that cover the request, a
-- row with a host goes before the rows of no host, and between two rows of either kind the one that
-- is found has the longer prefix or one as long. It finds none only if no row covers the request.
pub walk-routes_sort :
    (host : Option Bytes) (path : Bytes) (rows : List Route)
    → IsBest host path rows (walk host path (routes_sort rows))
walk-routes_sort host path rows = found-IsBest host path rows (walk host path (routes_sort rows)) (
    sorted-IsFound host path rows (walk host path (routes_sort rows))
      (walk-IsFound host path (routes_sort rows) (sort-InOrder rows)))
