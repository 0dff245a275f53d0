-- ===== src/Handoff/Stopped.antt =====
-- The children that no master takes are signalled, and nobody else.
use php_fpm_ng.Base.{
  ℕ, ◌≡◌, refl, ap, ◌∙◌, Bool, true, false, ◌&&◌, none, some, List, [], ◌∷◌, ◌++◌, arith, Bytes,
  ltb, ◌==◌, if◌then◌else◌,
}
use php_fpm_ng.Base.Tokens.{AllPieces, joined}
use php_fpm_ng.Handoff.Number.{shown, read_number, over_one, read_number-shown}
use php_fpm_ng.Handoff.{
  Carried, Kernel, name_ok, entry_text, entries_text, with_option, signalled, sigterm_entries,
  sigterm_list, group_text, behind_colon, sigterm_groups, sigterm_carried,
}
use php_fpm_ng.Handoff.Parts.{parts-joined}
use php_fpm_ng.Handoff.Entries.{AllChildren, texts, read_entry-entry_text, parts-entries_text}
use php_fpm_ng.Handoff.Groups.{name_ok-cons}
use php_fpm_ng.Handoff.Carry.{
  Pool, AllPools, spare_all, group_of, groups, env_of, length-append_ne, AllPieces-groups,
  spare_all-env_of,
}

-- The children of a list that are the processes that were spared, and can be signalled.
abbrev pub stopped_of : Kernel → List Carried → List ℕ
stopped_of k [] = []
stopped_of k (c ∷ cs) =
    let rest = stopped_of k cs in
    if ltb 1 c.pid && k.is_same c.pid c.start && k.kill c.pid then c.pid ∷ rest else rest

abbrev pub all_stopped : Kernel → List Pool → List ℕ
all_stopped k [] = []
all_stopped k (p ∷ ps) = stopped_of k (p.first ∷ p.others) ++ all_stopped k ps

over_one-entry_text : (c : Carried) → over_one (read_number (entry_text c)) ≡ ltb 1 c.pid
unfolding over_one entry_text
over_one-entry_text c = rw (read_number-shown c.pid (b'/' ∷ shown c.start) refl) refl

with_option-if :
    (t : Bool) (pid : ℕ) (pids : List ℕ)
    → with_option (if t then some pid else none) pids ≡ (if t then pid ∷ pids else pids)
with_option-if true pid pids = refl
with_option-if false pid pids = refl

sigterm_entries-texts :
    (k : Kernel) (cs : List Carried)
    → AllChildren cs
    → sigterm_entries k (texts cs) ≡ stopped_of k cs
unfolding sigterm_entries signalled
sigterm_entries-texts k [] h = refl
sigterm_entries-texts k (c ∷ cs) (x, h) =
    rw (read_entry-entry_text c x, over_one-entry_text c, sigterm_entries-texts k cs h)
      (with_option-if (ltb 1 c.pid && k.is_same c.pid c.start && k.kill c.pid) c.pid
        (stopped_of k cs))

sigterm_list-entries_text :
    (k : Kernel) (c : Carried) (cs : List Carried)
    → AllChildren (c ∷ cs)
    → sigterm_list k (entries_text (c ∷ cs)) ≡ stopped_of k (c ∷ cs)
unfolding sigterm_list
sigterm_list-entries_text k c cs h =
    ap (sigterm_entries k) (parts-entries_text c cs) ∙ sigterm_entries-texts k (c ∷ cs) h

behind_colon-name :
    (name s : Bytes) → name_ok name ≡ true → behind_colon (name ++ b':' ∷ s) ≡ some s
unfolding behind_colon
behind_colon-name [] s h = refl
behind_colon-name (c ∷ name) s h =
    let (m, k) = name_ok-cons c name h in
    let n : (c == b':') ≡ false = ground (arith, m) in rw n (behind_colon-name name s k)

sigterm_groups-groups :
    (k : Kernel) (ps : List Pool) → AllPools ps → sigterm_groups k (groups ps) ≡ all_stopped k ps
unfolding sigterm_groups groups group_of group_text
sigterm_groups-groups k [] h = refl
sigterm_groups-groups k (p ∷ ps) (x, h) =
    rw
      (
        behind_colon-name p.name (entries_text (p.first ∷ p.others)) x.named,
        sigterm_list-entries_text k p.first p.others x.children,
        sigterm_groups-groups k ps h,
      )
      refl

sigterm_carried-env_of :
    (k : Kernel) (gs : List Bytes)
    → AllPieces (λ c. c == b';') gs
    → sigterm_carried k (env_of gs) ≡ (none, sigterm_groups k gs)
unfolding sigterm_carried sigterm_groups
sigterm_carried-env_of k [] h = refl
sigterm_carried-env_of k (g ∷ gs) (c, n, h) =
    rw (length-append_ne g (joined b';' gs) n, parts-joined b';' g gs (c, n, h)) refl

-- What is left in the variable is signalled: every child of these pools that is still the process
-- that was spared, and no other, and the variable is gone.
pub sigterm_carried-spare_all :
    (k : Kernel) (ps : List Pool)
    → AllPools ps
    → sigterm_carried k (spare_all k ps none) ≡ (none, all_stopped k ps)
sigterm_carried-spare_all k ps h =
    ap (sigterm_carried k) (spare_all-env_of k ps [] h tt)
    ∙ sigterm_carried-env_of k (groups ps) (AllPieces-groups ps h)
    ∙ ap (λ l. (none, l)) (sigterm_groups-groups k ps h)
