-- ===== src/ConfDiff/Tests.antt =====
-- The theorem on unchanged pools at concrete files, and runs of the reader.
use php_fpm_ng.Base.{
  ◌≡◌, refl, true, false, Option, none, some, List, [], ◌∷◌, Bytes, codes, equal, if◌then◌else◌,
}
use php_fpm_ng.ConfDiff.{
  World, Diff, include, classify, snapshot_current, begin_reload_pass, pool_unchanged,
}

abbrev old_lines : List Bytes
old_lines = codes "[www]" ∷ codes "  pm = static" ∷ codes "include = b.conf" ∷ []

abbrev new_lines : List Bytes
new_lines =
    codes "[api]"
    ∷ codes "pm = static"
    ∷ codes "[www]"
    ∷ codes "pm = static"
    ∷ codes "include=b.conf "
    ∷ []

abbrev included : List Bytes
included = codes "user = app" ∷ []

files : List Bytes → Bytes → Option (List Bytes)
files main path =
    if equal path (codes "a.conf")
    then some main
    else if equal path (codes "b.conf")
    then some included
    else none

globbed : Bytes → Option (List Bytes)
globbed pattern = if equal pattern (codes "b.conf") then some (codes "b.conf" ∷ []) else none

abbrev old : World
old = record { lines = files old_lines; glob = globbed }

abbrev new : World
new = record { lines = files new_lines; glob = globbed }

abbrev nothing : Diff
nothing = record { current_snapshot = []; pass_snapshot = []; pass_valid = false }

abbrev reloaded : Diff
reloaded =
    begin_reload_pass new (some (codes "a.conf"))
      (snapshot_current old (some (codes "a.conf")) nothing)

reload_runs :
    (pool_unchanged reloaded (some (codes "www")) ≡ true)
    × (pool_unchanged reloaded (some (codes "api")) ≡ false)
    × (pool_unchanged reloaded none ≡ false)
unfolding begin_reload_pass snapshot_current pool_unchanged files globbed equal classify
reload_runs = (refl, refl, refl)

-- The quotes round a pattern are part of it.
quoted_include : classify (codes "include = \"b.conf\"") ≡ include (codes "\"b.conf\"")
unfolding classify
quoted_include = refl
