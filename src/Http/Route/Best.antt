-- ===== src/Http/Route/Best.antt =====
-- The sort puts the rows in the order of their ranks, and keeps them.
pub mod Walk
use php_fpm_ng.Base.{
  ℕ, ◌+◌, ◌≤◌, ◌<◌, ◌≡◌, refl, sym, ◌∙◌, ap, Bool, true, false, not, ◌&&◌, ◌||◌, inl, inr, Option,
  none, some, List, [], ◌∷◌, arith, Bytes, length, ltb, if◌then◌else◌, Bool-cases,
}
use php_fpm_ng.Http.Route.{
  Route, has_host, ranks_before, place, place_all, from_last, routes_sort, row_matches, walk,
}

-- Every row of a table.
abbrev pub All : (Route → Type 0) → List Route → Type 0
All P [] = Unit
All P (r ∷ rs) = P r × All P rs

-- `b` does not rank before `a`.
abbrev NotAfter : Route → Route → Type 0
NotAfter a b = ranks_before b a ≡ false

-- Rows from the last to the first: no row ranks before an earlier one.
abbrev FromLast : List Route → Type 0
FromLast [] = Unit
FromLast (y ∷ ys) = All (λ z. NotAfter z y) ys × FromLast ys

abbrev InOrder : List Route → Type 0
InOrder [] = Unit
InOrder (x ∷ xs) = All (λ z. NotAfter x z) xs × InOrder xs

ranks_before-asym : (a b : Route) → ranks_before a b ≡ true → ranks_before b a ≡ false
unfolding ranks_before
ranks_before-asym a b h = elim (Bool-cases (has_host a.host)) [
  | inl x ↦ elim (Bool-cases (has_host b.host)) [
    | inl y ↦ rw (x, y) (ground (arith, h, x, y))
    | inr y ↦ rw (x, y) refl
  ]
  | inr x ↦ elim (Bool-cases (has_host b.host)) [
    | inl y ↦ absurd (ground (arith, h, x, y))
    | inr y ↦ rw (x, y) (ground (arith, h, x, y))
  ]
]

-- The order of two ranks: a host or none, and the length of the prefix.
abbrev rank_before : Bool → ℕ → Bool → ℕ → Bool
rank_before p l q m = if p && not q then true else if not p && q then false else ltb m l

rank_before_trans :
    (p q r : Bool) (l m n : ℕ)
    → rank_before q m p l ≡ false
    → rank_before r n q m ≡ false
    → rank_before r n p l ≡ false
rank_before_trans true true true l m n h k = ground arith
rank_before_trans true true false l m n h k = refl
rank_before_trans true false true l m n h k = cc
rank_before_trans true false false l m n h k = refl
rank_before_trans false true true l m n h k = cc
rank_before_trans false true false l m n h k = cc
rank_before_trans false false true l m n h k = cc
rank_before_trans false false false l m n h k = ground arith

NotAfter-trans : (a b c : Route) → NotAfter a b → NotAfter b c → NotAfter a c
unfolding ranks_before
NotAfter-trans a b c h k =
    rank_before_trans (has_host a.host) (has_host b.host) (has_host c.host) (length a.prefix)
      (length b.prefix) (length c.prefix) h k

All-map : (P Q : Route → Type 0) (rs : List Route) → ((r : Route) → P r → Q r) → All P rs → All Q rs
All-map P Q [] f h = h
All-map P Q (r ∷ rs) f (x, h) = (f r x, All-map P Q rs f h)

place-All :
    (P : Route → Type 0) (row : Route) (ys : List Route) → P row → All P ys → All P (place row ys)
unfolding place
place-All P row [] p h = (p, tt)
place-All P row (y ∷ ys) p (x, h) = elim (Bool-cases (ranks_before row y)) [
  | inl b ↦ rw b (x, place-All P row ys p h)
  | inr n ↦ rw n (p, (x, h))
]

All-place :
    (P : Route → Type 0) (row : Route) (ys : List Route) → All P (place row ys) → P row × All P ys
unfolding place
All-place P row [] (p, h) = (p, tt)
All-place P row (y ∷ ys) h = placed (All-place P row ys) (ranks_before row y) h
  where
    placed :
        (All P (place row ys) → P row × All P ys)
        → (b : Bool) → All P (if b then y ∷ place row ys else row ∷ y ∷ ys)
        → P row × (P y × All P ys)
    placed f true (x, h) = let (p, t) = f h in (p, (x, t))
    placed f false (p, (x, h)) = (p, (x, h))

place-FromLast : (row : Route) (ys : List Route) → FromLast ys → FromLast (place row ys)
unfolding place
place-FromLast row [] h = (tt, tt)
place-FromLast row (y ∷ ys) (a, h) = elim (Bool-cases (ranks_before row y)) [
  | inl b ↦
      rw b (
        place-All (λ z. NotAfter z y) row ys (ranks_before-asym row y b) a,
        place-FromLast row ys h,
      )
  | inr n ↦ rw n (
    (n, All-map (λ z. NotAfter z y) (λ z. NotAfter z row) ys (λ z p. NotAfter-trans z y row p n) a),
    (a, h),
  )
]

place_all-All :
    (P : Route → Type 0) (rows ys : List Route) → All P rows → All P ys → All P (place_all rows ys)
unfolding place_all
place_all-All P [] ys h k = k
place_all-All P (r ∷ rows) ys (p, h) k = place_all-All P rows (place r ys) h (place-All P r ys p k)

All-place_all :
    (P : Route → Type 0) (rows ys : List Route) → All P (place_all rows ys) → All P rows × All P ys
unfolding place_all
All-place_all P [] ys h = (tt, h)
All-place_all P (r ∷ rows) ys h =
    let (a, b) = All-place_all P rows (place r ys) h in
    let (p, c) = All-place P r ys b in ((p, a), c)

place_all-FromLast : (rows ys : List Route) → FromLast ys → FromLast (place_all rows ys)
unfolding place_all
place_all-FromLast [] ys h = h
place_all-FromLast (r ∷ rows) ys h = place_all-FromLast rows (place r ys) (place-FromLast r ys h)

from_last-All :
    (P : Route → Type 0) (ys rows : List Route) → All P ys → All P rows → All P (from_last ys rows)
unfolding from_last
from_last-All P [] rows h k = k
from_last-All P (y ∷ ys) rows (p, h) k = from_last-All P ys (y ∷ rows) h (p, k)

All-from_last :
    (P : Route → Type 0) (ys rows : List Route) → All P (from_last ys rows) → All P ys × All P rows
unfolding from_last
All-from_last P [] rows h = (tt, h)
All-from_last P (y ∷ ys) rows h = let (a, b) = All-from_last P ys (y ∷ rows) h in ((b.0, a), b.1)

-- Every row of the first list may stand in front of every row of the second.
abbrev Across : List Route → List Route → Type 0
Across ys rows = All (λ a. All (λ z. NotAfter z a) ys) rows

Across-tail :
    (y : Route) (ys rows : List Route)
    → Across (y ∷ ys) rows
    → Across ys rows × All (λ a. NotAfter y a) rows
Across-tail y ys [] h = (tt, tt)
Across-tail y ys (r ∷ rows) ((p, q), h) = let (a, b) = Across-tail y ys rows h in ((q, a), (p, b))

from_last-InOrder :
    (ys rows : List Route)
    → FromLast ys
    → InOrder rows
    → Across ys rows
    → InOrder (from_last ys rows)
unfolding from_last
from_last-InOrder [] rows h k a = k
from_last-InOrder (y ∷ ys) rows (p, h) k a =
    let (b, c) = Across-tail y ys rows a in from_last-InOrder ys (y ∷ rows) h (c, k) (p, b)

sort-InOrder : (rows : List Route) → InOrder (routes_sort rows)
unfolding routes_sort
sort-InOrder rows = from_last-InOrder (place_all rows []) [] (place_all-FromLast rows [] tt) tt tt

All-sort : (P : Route → Type 0) (rows : List Route) → All P (routes_sort rows) → All P rows
unfolding routes_sort
All-sort P rows h = (All-place_all P rows [] (All-from_last P (place_all rows []) [] h).0).0

sort-All : (P : Route → Type 0) (rows : List Route) → All P rows → All P (routes_sort rows)
unfolding routes_sort
sort-All P rows h = from_last-All P (place_all rows []) [] (place_all-All P rows [] h tt) tt

-- A row of the table.
pub data Among (r : Route) : List Route → Type 0 where
  here : (rs : List Route) → Among r (r ∷ rs)
  there : (x : Route) {rs : List Route} → Among r rs → Among r (x ∷ rs)
