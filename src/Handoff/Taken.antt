-- ===== src/Handoff/Taken.antt =====
-- A pool of the next master takes its own children, and leaves the others'.
use php_fpm_ng.Base.{
  ℕ, ◌≡◌, ◌≢◌, refl, sym, ap, ◌∙◌, Bool, true, false, not, ◌&&◌, inl, inr, Option, none, some, List,
  [], ◌∷◌, ◌++◌, append-nil, append_assoc, arith, Bytes, length, ◌==◌, if◌then◌else◌, Bool-cases,
}
use php_fpm_ng.Base.Tokens.{AllPieces, joined}
use php_fpm_ng.Handoff.{
  Kernel, name_ok, entries_text, group_text, is_group_of, Search, has_found, keep, search_group,
  search_groups, taken_found, nothing_found, env_take,
}
use php_fpm_ng.Handoff.Parts.{parts-joined}
use php_fpm_ng.Handoff.Entries.{read_entries-entries_text}
use php_fpm_ng.Handoff.Groups.{same_name, is_group_of_self, drop-name}
use php_fpm_ng.Handoff.Carry.{
  Pool, IsPool, AllPools, NoneNamed, spare_all, group_of, groups, env_of, length-append_ne,
  AllPieces-groups, AllPieces-append, group_of-IsClean, group_of-ne_nil, groups-append,
  spare_all-env_of, joined-append,
}

abbrev semicolon : ℕ → Bool
semicolon c = c == b';'

abbrev kept_of : List Bytes → Bytes
kept_of [] = []
kept_of (g ∷ gs) = g ++ joined b';' gs

length-ne : (g : Bytes) → g ≢ [] → (length g == 0) ≡ false
length-ne [] h = absurd (h refl)
length-ne (c ∷ g) h = ground arith

keep-kept_of :
    (ks : List Bytes) (g : Bytes)
    → AllPieces semicolon ks
    → g ≢ []
    → keep (kept_of ks) g ≡ kept_of (ks ++ g ∷ [])
keep-kept_of [] g h n = rw (length-ne g n) (sym (append-nil g))
keep-kept_of (t ∷ ks) g (c, m, h) n =
    rw (length-ne g n, length-append_ne t (joined b';' ks) m)
      (append_assoc t (joined b';' ks) (b';' ∷ g)
        ∙ ap (λ s. t ++ s) (sym (joined-append b';' ks g)))

abbrev searched : Option Bytes → List Bytes → Search
searched f ks = record { found = f; kept = kept_of ks }

-- Groups that the search keeps: one was found before, or they are not of the pool.
abbrev Skipped : Bytes → Option Bytes → List Bytes → Type 0
Skipped name f [] = Unit
Skipped name f (g ∷ gs) = (not (has_found f) && is_group_of name g ≡ false) × Skipped name f gs

search_groups-Skipped :
    (name : Bytes) (f : Option Bytes) (gs ks : List Bytes)
    → AllPieces semicolon ks
    → AllPieces semicolon gs
    → Skipped name f gs
    → search_groups name gs (searched f ks) ≡ searched f (ks ++ gs)
unfolding search_groups search_group
search_groups-Skipped name f [] ks h c p = ap (searched f) (sym (append-nil ks))
search_groups-Skipped name f (g ∷ gs) ks h (c, n, cs) (x, p) =
    let step : search_group name g (searched f ks) ≡ searched f (ks ++ g ∷ []) =
      rw (x, keep-kept_of ks g h n) refl in
    ap (search_groups name gs) step
    ∙ search_groups-Skipped name f gs (ks ++ g ∷ []) (AllPieces-append ks g h c n) cs p
    ∙ ap (searched f) (append_assoc ks (g ∷ []) gs)

Skipped-found : (name x : Bytes) (gs : List Bytes) → Skipped name (some x) gs
Skipped-found name x [] = tt
Skipped-found name x (g ∷ gs) = (refl, Skipped-found name x gs)

other_group :
    (name : Bytes) (p : Pool)
    → name_ok name ≡ true
    → IsPool p
    → p.name ≢ name
    → is_group_of name (group_of p) ≡ false
unfolding group_of group_text
other_group name p h x n =
    let list = entries_text (p.first ∷ p.others) in
    elim (Bool-cases (is_group_of name (p.name ++ b':' ∷ list))) [
      | inl y ↦ absurd (n (sym (same_name name p.name list h x.named y)))
      | inr z ↦ z
    ]

Skipped-groups :
    (name : Bytes) (ps : List Pool)
    → name_ok name ≡ true
    → AllPools ps
    → NoneNamed name ps
    → Skipped name none (groups ps)
unfolding groups
Skipped-groups name [] h x n = tt
Skipped-groups name (p ∷ ps) h (x, xs) (n, ns) =
    (other_group name p h x n, Skipped-groups name ps h xs ns)

search_groups-append :
    (name : Bytes) (a b : List Bytes) (s : Search)
    → search_groups name (a ++ b) s ≡ search_groups name b (search_groups name a s)
unfolding search_groups
search_groups-append name [] b s = refl
search_groups-append name (g ∷ a) b s = search_groups-append name a b (search_group name g s)

found_group :
    (p : Pool) (ks : List Bytes)
    → search_group p.name (group_of p) (searched none ks)
      ≡ searched (some (entries_text (p.first ∷ p.others))) ks
unfolding search_group group_of group_text
found_group p ks =
    let list = entries_text (p.first ∷ p.others) in
    rw (is_group_of_self p.name list, drop-name p.name list) refl

AllPieces-both :
    (a b : List Bytes)
    → AllPieces semicolon a
    → AllPieces semicolon b
    → AllPieces semicolon (a ++ b)
AllPieces-both [] b h k = k
AllPieces-both (t ∷ a) b (x, y, h) k = (x, y, AllPieces-both a b h k)

-- Over the groups of all pools, the one of `p` is found and the others are kept.
search_groups-found :
    (front : List Pool) (p : Pool) (back : List Pool)
    → AllPools front
    → IsPool p
    → AllPools back
    → NoneNamed p.name front
    → search_groups p.name (groups front ++ group_of p ∷ groups back) nothing_found
      ≡ searched (some (entries_text (p.first ∷ p.others))) (groups front ++ groups back)
unfolding search_groups
search_groups-found front p back f x b n =
    let name = p.name in
    let fs = AllPieces-groups front f in
    let bs = AllPieces-groups back b in
    let found = some (entries_text (p.first ∷ p.others)) in
    search_groups-append name (groups front) (group_of p ∷ groups back) nothing_found
    ∙ ap (search_groups name (group_of p ∷ groups back)) (
        search_groups-Skipped name none (groups front) [] tt fs
          (Skipped-groups name front x.named f n))
    ∙ ap (search_groups name (groups back)) (found_group p (groups front))
    ∙ search_groups-Skipped name found (groups back) (groups front) fs bs
        (Skipped-found name (entries_text (p.first ∷ p.others)) (groups back))

kept-env_of :
    (gs : List Bytes)
    → AllPieces semicolon gs
    → (if length (kept_of gs) == 0 then none else some (kept_of gs)) ≡ env_of gs
kept-env_of [] h = refl
kept-env_of (g ∷ gs) (c, n, h) = rw (length-append_ne g (joined b';' gs) n) refl

env_take-env_of :
    (name : Bytes) (g : Bytes) (gs : List Bytes)
    → AllPieces semicolon (g ∷ gs)
    → env_take name (env_of (g ∷ gs))
      ≡ taken_found
          (env_of (g ∷ gs))
          (search_groups name (g ∷ gs) nothing_found).found
          (search_groups name (g ∷ gs) nothing_found).kept
unfolding env_take
env_take-env_of name g gs (c, n, h) =
    rw (length-append_ne g (joined b';' gs) n, parts-joined b';' g gs (c, n, h)) refl

env_take-some :
    (name : Bytes) (gs : List Bytes)
    → AllPieces semicolon gs
    → gs ≢ []
    → env_take name (env_of gs)
      ≡ taken_found
          (env_of gs)
          (search_groups name gs nothing_found).found
          (search_groups name gs nothing_found).kept
env_take-some name [] h n = absurd (n refl)
env_take-some name (g ∷ gs) h n = env_take-env_of name g gs h

middle-ne_nil : (a b : List Bytes) (g : Bytes) → a ++ g ∷ b ≢ []
middle-ne_nil [] b g = λ e. cc
middle-ne_nil (x ∷ a) b g = λ e. cc

take-group :
    (front : List Pool) (p : Pool) (back : List Pool)
    → AllPools front
    → IsPool p
    → AllPools back
    → NoneNamed p.name front
    → env_take p.name (env_of (groups front ++ group_of p ∷ groups back))
      ≡ (env_of (groups front ++ groups back), p.first ∷ p.others)
take-group front p back f x b n =
    let fs = AllPieces-groups front f in
    let bs = AllPieces-groups back b in
    let gs = groups front ++ group_of p ∷ groups back in
    let all : AllPieces semicolon gs =
      AllPieces-both (groups front) (group_of p ∷ groups back) fs
        (group_of-IsClean p x, group_of-ne_nil p, bs) in
    env_take-some p.name gs all (middle-ne_nil (groups front) (groups back) (group_of p))
    ∙ ap (λ (s : Search). taken_found (env_of gs) s.found s.kept)
        (search_groups-found front p back f x b n)
    ∙ rw
        (
          kept-env_of (groups front ++ groups back)
              (AllPieces-both (groups front) (groups back) fs bs),
          read_entries-entries_text p.first p.others x.children,
        )
        refl

AllPools-append : (a b : List Pool) → AllPools a → AllPools b → AllPools (a ++ b)
AllPools-append [] b h k = k
AllPools-append (p ∷ a) b (x, h) k = (x, AllPools-append a b h k)

spared-env_of :
    (k : Kernel) (ps : List Pool) → AllPools ps → spare_all k ps none ≡ env_of (groups ps)
spared-env_of k ps h = spare_all-env_of k ps [] h tt

-- When the old master has spared some pools, a pool of the next one takes exactly its own
-- children, in order and with their start times, and leaves the variable as if its children had
-- never been in it.
pub env_take-spare_all :
    (k : Kernel) (front : List Pool) (p : Pool) (back : List Pool)
    → AllPools front
    → IsPool p
    → AllPools back
    → NoneNamed p.name front
    → env_take p.name (spare_all k (front ++ p ∷ back) none)
      ≡ (spare_all k (front ++ back) none, p.first ∷ p.others)
unfolding groups
env_take-spare_all k front p back f x b n =
    ap (env_take p.name) (
      spared-env_of k (front ++ p ∷ back) (AllPools-append front (p ∷ back) f (x, b))
      ∙ ap env_of (groups-append front (p ∷ back)))
    ∙ take-group front p back f x b n
    ∙ ap (λ e. (e, p.first ∷ p.others))
        (ap env_of (sym (groups-append front back))
          ∙ sym (spared-env_of k (front ++ back) (AllPools-append front back f b)))
