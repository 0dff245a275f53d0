-- ===== src/Handoff.antt =====
-- The children that a selective reload hands to the next master in an environment variable:
-- sapi/fpmng/fpm/fpm_reload_selective.c.
pub mod Number
pub mod Parts
pub mod Entries
pub mod Groups
pub mod Carry
pub mod Taken
pub mod Stopped
mod Tests
use php_fpm_ng.Base.{
  ℕ, zero, suc, ◌+◌, ◌-◌, Bool, true, false, not, ◌&&◌, ◌||◌, Option, none, some, List, [], ◌∷◌,
  ◌++◌, Bytes, drop, peek, length, starts_with, ◌==◌, if◌then◌else◌,
}
use php_fpm_ng.Handoff.Number.{shown, Read, read_number, pid_of, over_one, start_of}

-- `struct fpm_reload_selective_carried_s`.
pub record Carried : Type 0 where
  pub pid : ℕ
  pub start : ℕ

-- The system: whether a pid is still the process that was started then, and whether SIGTERM could
-- be sent to it.
pub record Kernel : Type 0 where
  pub is_same : ℕ → ℕ → Bool
  pub kill : ℕ → Bool

abbrev pub is_mark : ℕ → Bool
is_mark c = c == b':' || c == b',' || c == b';'

-- `!strpbrk(name, ":,;")`.
unfoldable pub name_ok : Bytes → Bool
name_ok [] = true
name_ok (c ∷ s) = if is_mark c then false else name_ok s

-- The parts of a text between the bytes `d`; what stands behind the last `d` is none if it is empty.
abbrev pub unless_end : Bytes → List Bytes → List Bytes
unless_end [] parts = []
unless_end (c ∷ s) parts = parts

abbrev pub put_front : ℕ → List Bytes → List Bytes
put_front c [] = (c ∷ []) ∷ []
put_front c (p ∷ ps) = (c ∷ p) ∷ ps

unfoldable pub parts_from : ℕ → Bytes → List Bytes
parts_from d [] = [] ∷ []
parts_from d (c ∷ s) =
    let more = parts_from d s in if c == d then [] ∷ unless_end s more else put_front c more

unfoldable pub parts : ℕ → Bytes → List Bytes
unfolding parts_from
parts d s = unless_end s (parts_from d s)

-- `%d/%llu` of one child.
unfoldable pub entry_text : Carried → Bytes
unfolding shown
entry_text c = shown c.pid ++ b'/' ∷ shown c.start

-- The loop of the list, behind its first entry.
unfoldable pub more_entries : List Carried → Bytes
unfolding entry_text
more_entries [] = []
more_entries (c ∷ cs) = b',' ∷ (entry_text c ++ more_entries cs)

unfoldable pub entries_text : List Carried → Bytes
unfolding more_entries
entries_text [] = []
entries_text (c ∷ cs) = entry_text c ++ more_entries cs

-- One entry of a list. strtol and strtoull do not read over a comma.
unfoldable pub read_entry : Bytes → Carried
unfolding read_number pid_of start_of
read_entry text =
    let r = read_number text in
    record {
      pid = pid_of r;
      start = if peek r.rest == b'/' then start_of (read_number (drop 1 r.rest)) else 0;
    }

-- The child that a round of the loop signals.
unfoldable pub signalled : Kernel → Bytes → Option ℕ
signalled k text =
    let c = read_entry text in
    if over_one (read_number text) && k.is_same c.pid c.start && k.kill c.pid
    then some c.pid
    else none

abbrev pub with_option : Option ℕ → List ℕ → List ℕ
with_option none pids = pids
with_option (some pid) pids = pid ∷ pids

unfoldable pub sigterm_entries : Kernel → List Bytes → List ℕ
unfolding signalled
sigterm_entries k [] = []
sigterm_entries k (e ∷ es) = with_option (signalled k e) (sigterm_entries k es)

-- The children that are signalled; the code returns their number. A round of the loop takes the
-- text up to the next comma.
unfoldable pub sigterm_list : Kernel → Bytes → List ℕ
unfolding sigterm_entries parts
sigterm_list k list = sigterm_entries k (parts b',' list)

abbrev pub is_set : Option Bytes → Bool
is_set none = false
is_set (some v) = not (length v == 0)

abbrev pub or_empty : Option Bytes → Bytes
or_empty none = []
or_empty (some v) = v

-- The return value, the variable, and the children that were signalled.
pub record Spared : Type 0 where
  pub spared : Bool
  pub env : Option Bytes
  pub stopped : List ℕ

unfoldable pub group_text : Bytes → List Carried → Bytes
unfolding entries_text
group_text name children = name ++ b':' ∷ entries_text children

abbrev pub env_next : Option Bytes → Bytes → Bytes
env_next existing group = if is_set existing then or_empty existing ++ b';' ∷ group else group

-- `children` are the children of the pool, the oldest first; `stored` is whether setenv succeeds.
unfoldable pub spare_pool : Kernel → Bool → Bytes → List Carried → Option Bytes → Spared
unfolding name_ok group_text sigterm_list
spare_pool k stored name [] existing = record {
  spared = name_ok name;
  env = existing;
  stopped = [];
}
spare_pool k stored name (c ∷ cs) existing =
    if not (name_ok name)
    then record { spared = false; env = existing; stopped = [] }
    else if stored
    then record {
      spared = true;
      env = some (env_next existing (group_text name (c ∷ cs)));
      stopped = [];
    }
    else record { spared = false; env = existing; stopped = sigterm_list k (entries_text (c ∷ cs)) }

-- `strncmp(group, name, name_len) == 0 && group[name_len] == ':'`.
unfoldable pub is_group_of : Bytes → Bytes → Bool
unfolding starts_with
is_group_of name group = starts_with name group && peek (drop (length name) group) == b':'

-- The loop over the groups: what was found, and the groups that are kept.
pub record Search : Type 0 where
  pub found : Option Bytes
  pub kept : Bytes

abbrev pub has_found : Option Bytes → Bool
has_found none = false
has_found (some v) = true

abbrev pub keep : Bytes → Bytes → Bytes
keep kept group =
    if length group == 0 then kept else if length kept == 0 then group else kept ++ b';' ∷ group

unfoldable pub search_group : Bytes → Bytes → Search → Search
unfolding is_group_of
search_group name group s =
    if not (has_found s.found) && is_group_of name group
    then record s { found = some (drop (length name + 1) group) }
    else record s { kept = keep s.kept group }

unfoldable pub search_groups : Bytes → List Bytes → Search → Search
unfolding search_group
search_groups name [] s = s
search_groups name (g ∷ gs) s = search_groups name gs (search_group name g s)

abbrev pub read_entries : List Bytes → List Carried
read_entries [] = []
read_entries (e ∷ es) = read_entry e ∷ read_entries es

abbrev pub taken_found : Option Bytes → Option Bytes → Bytes → Option Bytes × List Carried
taken_found existing none kept = (existing, [])
taken_found existing (some pids) kept =
    (if length kept == 0 then none else some kept, read_entries (parts b',' pids))

abbrev pub nothing_found : Search
nothing_found = record { found = none; kept = [] }

-- The variable, and the entries of the pool.
unfoldable pub env_take : Bytes → Option Bytes → Option Bytes × List Carried
unfolding search_groups parts read_entry
env_take name existing =
    let s = search_groups name (parts b';' (or_empty existing)) nothing_found in
    if not (is_set existing) then (existing, []) else taken_found existing s.found s.kept

-- The children that the new master takes, and those whose slots it frees.
unfoldable pub adopt_entries : Kernel → List Carried → List Carried × List Carried
adopt_entries k [] = ([], [])
adopt_entries k (c ∷ cs) =
    let (adopted, dropped) = adopt_entries k cs in
    if k.is_same c.pid c.start then (c ∷ adopted, dropped) else (adopted, c ∷ dropped)

-- The variable, the children that were adopted, and those that were not.
unfoldable pub adopt : Kernel → Bytes → Option Bytes → Option Bytes × List Carried × List Carried
unfolding env_take adopt_entries
adopt k name existing =
    let (env, carried) = env_take name existing in
    let (adopted, dropped) = adopt_entries k carried in (env, adopted, dropped)

-- The text behind the first colon.
unfoldable pub behind_colon : Bytes → Option Bytes
behind_colon [] = none
behind_colon (c ∷ s) = if c == b':' then some s else behind_colon s

abbrev pub sigterm_behind : Kernel → Option Bytes → List ℕ
sigterm_behind k none = []
sigterm_behind k (some list) = sigterm_list k list

unfoldable pub sigterm_groups : Kernel → List Bytes → List ℕ
unfolding behind_colon sigterm_list
sigterm_groups k [] = []
sigterm_groups k (g ∷ gs) = sigterm_behind k (behind_colon g) ++ sigterm_groups k gs

-- The variable, and the children that were signalled.
unfoldable pub sigterm_carried : Kernel → Option Bytes → Option Bytes × List ℕ
unfolding sigterm_groups parts
sigterm_carried k existing =
    if not (is_set existing)
    then (existing, [])
    else (none, sigterm_groups k (parts b';' (or_empty existing)))
