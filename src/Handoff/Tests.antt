-- ===== src/Handoff/Tests.antt =====
-- The theorems on the handoff at concrete pools, and runs.
use php_fpm_ng.Base.{◌≡◌, refl, true, false, none, some, [], ◌∷◌, arith, codes, ◌==◌}
use php_fpm_ng.Handoff.Number.{read_number, over_one}
use php_fpm_ng.Handoff.{Kernel, name_ok, spare_pool, env_take, adopt, read_entry, sigterm_carried}
use php_fpm_ng.Handoff.Carry.{Pool, IsPool, spare_all}
use php_fpm_ng.Handoff.Taken.{env_take-spare_all}
use php_fpm_ng.Handoff.Stopped.{all_stopped, sigterm_carried-spare_all}

-- A system on which the process 41 is another one by now.
abbrev kernel : Kernel
kernel = record { is_same = λ pid start. pid == 40; kill = λ pid. true }

abbrev web : Pool
web = record {
  name = codes "web";
  first = record { pid = 40; start = 7 };
  others = record { pid = 41; start = 9 } ∷ [];
}

abbrev jobs : Pool
jobs = record { name = codes "jobs"; first = record { pid = 52; start = 0 }; others = [] }

handoff_runs :
    (spare_all kernel (web ∷ jobs ∷ []) none ≡ some (codes "web:40/7,41/9;jobs:52/0"))
    × (env_take (codes "web") (some (codes "web:40/7,41;jobs:52/0")) ≡ (
      some (codes "jobs:52/0"),
      record { pid = 40; start = 7 } ∷ record { pid = 41; start = 0 } ∷ [],
    ))
    × (env_take (codes "we") (some (codes "web:40/7")) ≡ (some (codes "web:40/7"), []))
    × ((adopt kernel (codes "web") (some (codes "web:40/7,41/9"))).1
        ≡ record { pid = 40; start = 7 } ∷ [])
    × (sigterm_carried kernel (some (codes "web:40/7,41/9;x;jobs:0/0,-1/0")) ≡ (none, 40 ∷ []))
    × ((spare_pool kernel false (codes "web") (web.first ∷ web.others) none).stopped ≡ 40 ∷ [])
    × ((spare_pool kernel true (codes "a:b") (web.first ∷ web.others) none).spared ≡ false)
unfolding spare_all spare_pool env_take adopt sigterm_carried read_number read_entry over_one
handoff_runs = (refl, refl, refl, refl, refl, refl, refl)

web-IsPool : IsPool web
unfolding name_ok
web-IsPool = record { named = refl; children = omega arith }

jobs-IsPool : IsPool jobs
unfolding name_ok
jobs-IsPool = record { named = refl; children = omega arith }

env_take-spare_all_example :
    env_take (codes "jobs") (spare_all kernel (web ∷ jobs ∷ []) none)
    ≡ (spare_all kernel (web ∷ []) none, jobs.first ∷ jobs.others)
env_take-spare_all_example =
    env_take-spare_all kernel (web ∷ []) jobs [] (web-IsPool, tt) jobs-IsPool tt (λ e. cc, tt)

sigterm_carried-spare_all_example :
    sigterm_carried kernel (spare_all kernel (web ∷ jobs ∷ []) none)
    ≡ (none, all_stopped kernel (web ∷ jobs ∷ []))
sigterm_carried-spare_all_example =
    sigterm_carried-spare_all kernel (web ∷ jobs ∷ []) (web-IsPool, (jobs-IsPool, tt))
