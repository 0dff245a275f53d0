-- ===== src/Http/Route/Covers.antt =====
-- When a row covers a request, and which of two rows is the better one, without the code.
use php_fpm_ng.Base.{
  ℕ, suc, ◌-◌, ◌≤◌, ◌≡◌, refl, sym, ap, ◌∙◌, ◌↔◌, ◌⊎◌, Bool, true, false, not, ◌&&◌, ◌||◌, inl, inr,
  Option, none, some, [], ◌∷◌, ◌++◌, append-nil, arith, Bytes, equal_iff, length, length-append,
  get_or, drop, peek, starts_with, ltb, ◌==◌, if◌then◌else◌, Bool-cases,
}
use php_fpm_ng.Http.Route.{Route, has_host, ranks_before, prefix_covers, host_agrees, row_matches}

-- A row without a host is for every host.
abbrev pub HostFits : Option Bytes → Option Bytes → Type 0
HostFits none host = Unit
HostFits (some h) none = ⊥
HostFits (some h) (some host) = h ≡ host

abbrev pub EndsInSlash : Bytes → Type 0
EndsInSlash [] = ⊥
EndsInSlash (c ∷ []) = c ≡ b'/'
EndsInSlash (c ∷ d ∷ s) = EndsInSlash (d ∷ s)

abbrev pub StartsInSlash : Bytes → Type 0
StartsInSlash [] = ⊥
StartsInSlash (c ∷ s) = c ≡ b'/'

-- The path is the prefix, or goes on behind it at the border of a segment.
abbrev pub PathFits : Bytes → Bytes → Type 0
PathFits prefix path =
    (rest : Bytes) × (path ≡ prefix ++ rest)
    × ((rest ≡ []) ⊎ (EndsInSlash prefix ⊎ StartsInSlash rest))

abbrev pub Covers : Option Bytes → Bytes → Route → Type 0
Covers host path row = HostFits row.host host × PathFits row.prefix path

-- The first row is as good as the second: a host goes before none, and then the longer prefix.
abbrev pub AsGood : Option Bytes → ℕ → Option Bytes → ℕ → Type 0
AsGood (some h) l none m = Unit
AsGood none l (some k) m = ⊥
AsGood (some h) l (some k) m = m ≤ l
AsGood none l none m = m ≤ l

AsGood-ranks :
    (h k : Option Bytes) (l m : ℕ)
    → (if has_host k && not (has_host h)
        then true
        else if not (has_host k) && has_host h
        then false
        else ltb l m)
      ≡ false
    → AsGood h l k m
AsGood-ranks (some h) none l m e = tt
AsGood-ranks none (some k) l m e = absurd (cc)
AsGood-ranks (some h) (some k) l m e = ground (arith, e)
AsGood-ranks none none l m e = ground (arith, e)

pub ranks_before-AsGood :
    (r z : Route)
    → ranks_before z r ≡ false
    → AsGood r.host (length r.prefix) z.host (length z.prefix)
unfolding ranks_before
ranks_before-AsGood r z e = AsGood-ranks r.host z.host (length r.prefix) (length z.prefix) e

host_agrees-HostFits : (h host : Option Bytes) → (host_agrees h host ≡ true) ↔ HostFits h host
unfolding host_agrees
host_agrees-HostFits none host = ((λ e. tt), λ e. refl)
host_agrees-HostFits (some h) none = ((λ e. cc), λ e. absurd e)
host_agrees-HostFits (some h) (some host) = equal_iff h host

last-EndsInSlash : (p : Bytes) → ((get_or p (length p - 1) 0 == b'/') ≡ true) ↔ EndsInSlash p
last-EndsInSlash [] = ((λ e. cc), λ e. absurd e)
last-EndsInSlash (c ∷ []) = ((λ e. ground (arith, e)), λ e. ground (arith, e))
last-EndsInSlash (c ∷ d ∷ s) =
    let n : length (c ∷ d ∷ s) - 1 ≡ suc (length (d ∷ s) - 1) = omega arith in
    rw n (last-EndsInSlash (d ∷ s))

peek-StartsInSlash : (s : Bytes) → ((peek s == b'/') ≡ true) ↔ StartsInSlash s
peek-StartsInSlash [] = ((λ e. cc), λ e. absurd e)
peek-StartsInSlash (c ∷ s) = ((λ e. ground (arith, e)), λ e. ground (arith, e))

starts_with-front : (p s : Bytes) → starts_with p s ≡ true → s ≡ p ++ drop (length p) s
unfolding starts_with
starts_with-front [] s h = refl
starts_with-front (x ∷ p) [] h = absurd (cc)
starts_with-front (x ∷ p) (y ∷ s) h =
    let e : y ≡ x = ground (arith, h) in
    let t : starts_with p s ≡ true = ground (arith, h) in rw e (ap (x ∷◌) (starts_with-front p s t))

starts_with_self : (p s : Bytes) → starts_with p (p ++ s) ≡ true
unfolding starts_with
starts_with_self [] s = refl
starts_with_self (x ∷ p) s = let e : (x == x) ≡ true = ground arith in rw e (starts_with_self p s)

drop_front : (p s : Bytes) → drop (length p) (p ++ s) ≡ s
drop_front [] s = refl
drop_front (x ∷ p) s = drop_front p s

no_rest : (p s : Bytes) → length (p ++ s) ≡ length p → s ≡ []
no_rest p [] e = refl
no_rest p (c ∷ s) e = absurd (omega (arith, e, length-append p (c ∷ s)))

-- The border behind a prefix, as the code looks at it.
abbrev border : Bytes → Bytes → Bool
border p s =
    if length (p ++ s) == length p || get_or p (length p - 1) 0 == b'/'
    then true
    else peek s == b'/'

border_iff : (p s : Bytes) → (border p s ≡ true) ↔ ((s ≡ []) ⊎ (EndsInSlash p ⊎ StartsInSlash s))
border_iff p s = (
  λ e. elim (Bool-cases (length (p ++ s) == length p)) [
    | inl y ↦ inl (no_rest p s (ground (arith, y)))
    | inr n ↦ elim (Bool-cases (get_or p (length p - 1) 0 == b'/')) [
      | inl y ↦ inr (inl ((last-EndsInSlash p).0 y))
      | inr x ↦ inr (inr ((peek-StartsInSlash s).0 (ground (arith, e, n, x))))
    ]
  ],
  λ o. elim o [
    | inl z ↦
        let y : (length (p ++ s) == length p) ≡ true = rw (z, append-nil p) (ground arith) in
        rw y refl
    | inr (inl a) ↦ let y = (last-EndsInSlash p).1 a in ground (arith, y)
    | inr (inr b) ↦ let y = (peek-StartsInSlash s).1 b in ground (arith, y)
  ],
)

prefix_covers-border : (p s : Bytes) → prefix_covers p (p ++ s) ≡ border p s
unfolding prefix_covers
prefix_covers-border p s = rw (starts_with_self p s, drop_front p s) refl

prefix_covers-starts_with :
    (p path : Bytes) → prefix_covers p path ≡ true → starts_with p path ≡ true
unfolding prefix_covers
prefix_covers-starts_with p path e = elim (Bool-cases (starts_with p path)) [
  | inl y ↦ y
  | inr n ↦ absurd (ground (arith, e, n))
]

prefix_covers-PathFits : (p path : Bytes) → (prefix_covers p path ≡ true) ↔ PathFits p path
prefix_covers-PathFits p path = (
  λ e.
      let rest = drop (length p) path in
      let f : path ≡ p ++ rest = starts_with-front p path (prefix_covers-starts_with p path e) in
      (
        rest,
        f,
        (border_iff p rest).0
            (sym (prefix_covers-border p rest) ∙ (ap (prefix_covers p) (sym f) ∙ e)),
      ),
  λ (rest, f, o). ap (prefix_covers p) f ∙ (prefix_covers-border p rest ∙ (border_iff p rest).1 o),
)

-- The test of a row is that it covers the request.
pub row_matches-Covers :
    (host : Option Bytes) (path : Bytes) (row : Route)
    → (row_matches host path row ≡ true) ↔ Covers host path row
unfolding row_matches
row_matches-Covers host path row = (
  λ e. elim (Bool-cases (host_agrees row.host host)) [
    | inl y ↦ (
      (host_agrees-HostFits row.host host).0 y,
      (prefix_covers-PathFits row.prefix path).0 (ground (arith, e, y)),
    )
    | inr n ↦ absurd (ground (arith, e, n))
  ],
  λ (h, q).
      let y = (host_agrees-HostFits row.host host).1 h in
      let z = (prefix_covers-PathFits row.prefix path).1 q in rw (y, z) refl,
)
