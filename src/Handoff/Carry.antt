-- ===== src/Handoff/Carry.antt =====
-- What the masters hand on: the variable of all pools, and what one pool takes out of it.
use php_fpm_ng.Base.{
  ℕ, ◌≡◌, ◌≢◌, refl, sym, ap, ◌∙◌, true, false, Option, none, some, List, [], ◌∷◌, ◌++◌, append-nil,
  append_assoc, arith, Bytes, length, ◌==◌,
}
use php_fpm_ng.Base.Tokens.{IsClean, AllPieces, joined}
use php_fpm_ng.Handoff.{Carried, Kernel, name_ok, entries_text, group_text, env_next, spare_pool}
use php_fpm_ng.Handoff.Entries.{AllChildren, IsClean-append, entries_text-IsClean}
use php_fpm_ng.Handoff.Groups.{name_ok-IsClean}

-- A pool with children to hand on.
pub record Pool : Type 0 where
  pub name : Bytes
  pub first : Carried
  pub others : List Carried

pub record IsPool (p : Pool) : Type 0 where
  pub named : name_ok p.name ≡ true
  pub children : AllChildren (p.first ∷ p.others)

abbrev pub AllPools : List Pool → Type 0
AllPools [] = Unit
AllPools (p ∷ ps) = IsPool p × AllPools ps

-- No pool of the list has this name.
abbrev pub NoneNamed : Bytes → List Pool → Type 0
NoneNamed name [] = Unit
NoneNamed name (p ∷ ps) = (p.name ≢ name) × NoneNamed name ps

-- The old master spares one pool after the other, and setenv succeeds.
unfoldable pub spare_all : Kernel → List Pool → Option Bytes → Option Bytes
spare_all k [] env = env
spare_all k (p ∷ ps) env = spare_all k ps (spare_pool k true p.name (p.first ∷ p.others) env).env

unfoldable pub group_of : Pool → Bytes
group_of p = group_text p.name (p.first ∷ p.others)

unfoldable pub groups : List Pool → List Bytes
groups [] = []
groups (p ∷ ps) = group_of p ∷ groups ps

abbrev pub env_of : List Bytes → Option Bytes
env_of [] = none
env_of (g ∷ gs) = some (g ++ joined b';' gs)

spare_pool_env :
    (k : Kernel) (p : Pool) (env : Option Bytes)
    → IsPool p
    → (spare_pool k true p.name (p.first ∷ p.others) env).env ≡ some (env_next env (group_of p))
unfolding spare_pool group_of
spare_pool_env k p env h = rw h.named refl

ne : (t s : Bytes) → t ++ b':' ∷ s ≢ []
ne [] s = λ e. cc
ne (c ∷ t) s = λ e. cc

pub group_of-ne_nil : (p : Pool) → group_of p ≢ []
unfolding group_of group_text
group_of-ne_nil p = ne p.name (entries_text (p.first ∷ p.others))

pub groups-append : (a b : List Pool) → groups (a ++ b) ≡ groups a ++ groups b
unfolding groups
groups-append [] b = refl
groups-append (p ∷ a) b = ap (group_of p ∷◌) (groups-append a b)

pub joined-append :
    (d : ℕ) (a : List Bytes) (g : Bytes) → joined d (a ++ g ∷ []) ≡ joined d a ++ d ∷ g
joined-append d [] g = rw append-nil refl
joined-append d (t ∷ a) g =
    ap (λ s. d ∷ (t ++ s)) (joined-append d a g)
    ∙ ap (d ∷◌) (sym (append_assoc t (joined d a) (d ∷ g)))

pub length-append_ne : (t s : Bytes) → t ≢ [] → (length (t ++ s) == 0) ≡ false
length-append_ne [] s h = absurd (h refl)
length-append_ne (c ∷ t) s h = ground arith

pub group_of-IsClean : (p : Pool) → IsPool p → IsClean (λ c. c == b';') (group_of p)
unfolding group_of group_text
group_of-IsClean p h =
    IsClean-append _ p.name _ (name_ok-IsClean p.name h.named)
      (refl, entries_text-IsClean (p.first ∷ p.others))

pub AllPieces-append :
    (gs : List Bytes) (g : Bytes)
    → AllPieces (λ c. c == b';') gs
    → IsClean (λ c. c == b';') g
    → g ≢ []
    → AllPieces (λ c. c == b';') (gs ++ g ∷ [])
AllPieces-append [] g h c n = (c, n, tt)
AllPieces-append (t ∷ gs) g (x, y, h) c n = (x, y, AllPieces-append gs g h c n)

pub AllPieces-groups : (ps : List Pool) → AllPools ps → AllPieces (λ c. c == b';') (groups ps)
unfolding groups
AllPieces-groups [] h = tt
AllPieces-groups (p ∷ ps) (x, h) = (group_of-IsClean p x, group_of-ne_nil p, AllPieces-groups ps h)

env_next-env_of :
    (gs : List Bytes) (g : Bytes)
    → AllPieces (λ c. c == b';') gs
    → some (env_next (env_of gs) g) ≡ env_of (gs ++ g ∷ [])
env_next-env_of [] g h = ap some (sym (append-nil g))
env_next-env_of (t ∷ gs) g (c, n, h) = rw (length-append_ne t (joined b';' gs) n) (
    ap some (
      append_assoc t (joined b';' gs) (b';' ∷ g)
      ∙ ap (λ s. t ++ s) (sym (joined-append b';' gs g))))

pub spare_all-env_of :
    (k : Kernel) (ps : List Pool) (gs : List Bytes)
    → AllPools ps
    → AllPieces (λ c. c == b';') gs
    → spare_all k ps (env_of gs) ≡ env_of (gs ++ groups ps)
unfolding spare_all groups
spare_all-env_of k [] gs h c = ap env_of (sym (append-nil gs))
spare_all-env_of k (p ∷ ps) gs (x, h) c =
    ap (spare_all k ps) (spare_pool_env k p (env_of gs) x ∙ env_next-env_of gs (group_of p) c)
    ∙ spare_all-env_of k ps (gs ++ group_of p ∷ []) h
        (AllPieces-append gs (group_of p) c (group_of-IsClean p x) (group_of-ne_nil p))
    ∙ ap env_of (append_assoc gs (group_of p ∷ []) (groups ps))
