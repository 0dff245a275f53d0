-- ===== src/Http/Forwarded/Tests.antt =====
-- The theorems on address lists and forwarded addresses at concrete inputs, and runs.
use php_fpm_ng.Base.{
  ◌≡◌, refl, true, false, inl, inr, ◌⊎◌, ◌↔◌, Option, none, some, [], ◌∷◌, Bytes, codes, equal,
  if◌then◌else◌, Bool-cases,
}
use php_fpm_ng.Http.Inet.{Family, inet, inet6, Inet}
use php_fpm_ng.Http.Acl.{AclEntry, refused, parsed, acl_parse, acl_check, entry_of, skip_blanks}
use php_fpm_ng.Http.Acl.Members.{Sizes}
use php_fpm_ng.Http.Acl.Admits.{admits, Named, IsToken, acl_parse-admits}
use php_fpm_ng.Http.Forwarded.{Headers, resolve}
use php_fpm_ng.Http.Forwarded.Client.Cases.{Names, Nobody, resolve-Names}

-- A library that knows two addresses.
pton_two : Family → Bytes → Option Bytes
pton_two inet t =
    if equal t (codes "10.0.0.1")
    then some (10 ∷ 0 ∷ 0 ∷ 1 ∷ [])
    else if equal t (codes "10.0.0.2")
    then some (10 ∷ 0 ∷ 0 ∷ 2 ∷ [])
    else none
pton_two inet6 t = none

abbrev net : Inet
net = record { pton = pton_two; ntop = λ f b. none }

some_inj : (a b : Bytes) → some a ≡ some b → a ≡ b
some_inj a b e = cc

net-Sizes : Sizes net
unfolding pton_two
net-Sizes = record {
  four = λ t a e. elim (Bool-cases (equal t (codes "10.0.0.1"))) [
    | inl y ↦ let x : some (10 ∷ 0 ∷ 0 ∷ 1 ∷ []) ≡ some a = rw y at e in rw (← some_inj _ _ x) refl
    | inr n ↦ elim (Bool-cases (equal t (codes "10.0.0.2"))) [
      | inl y ↦
          let x : some (10 ∷ 0 ∷ 0 ∷ 2 ∷ []) ≡ some a = rw (n, y) at e in rw (← some_inj _ _ x) refl
      | inr m ↦ absurd (let x : none ≡ some a = rw (n, m) at e in cc)
    ]
  ];
  sixteen = λ t a e. absurd (cc);
}

abbrev proxy : AclEntry
proxy = record { family = inet; addr = 10 ∷ 0 ∷ 0 ∷ 1 ∷ [] }

acl_runs :
    (acl_parse net (some (codes "10.0.0.1")) ≡ parsed (some (proxy ∷ [])))
    × (acl_parse net (some (codes ", ,")) ≡ parsed none)
    × (acl_parse net (some (codes "10.0.0.1,nine")) ≡ refused)
    × (acl_check net (some (proxy ∷ [])) (some (codes "10.0.0.1")) ≡ true)
    × (acl_check net (some (proxy ∷ [])) (some (codes "10.0.0.2")) ≡ false)
    × (acl_check net (some (proxy ∷ [])) none ≡ false)
    × (acl_check net none none ≡ true)
unfolding acl_parse acl_check pton_two equal
acl_runs = (refl, refl, refl, refl, refl, refl, refl)

first_holds : IsToken net (codes "10.0.0.1")
unfolding entry_of skip_blanks pton_two equal
first_holds = record {
  clean = (refl, (refl, (refl, (refl, (refl, (refl, (refl, (refl, tt))))))));
  some_byte = λ e. cc;
  entry = proxy;
  writes = refl;
}

second_holds : IsToken net (codes " 10.0.0.2")
unfolding entry_of skip_blanks pton_two equal
second_holds = record {
  clean = (refl, (refl, (refl, (refl, (refl, (refl, (refl, (refl, (refl, tt)))))))));
  some_byte = λ e. cc;
  entry = record { family = inet; addr = 10 ∷ 0 ∷ 0 ∷ 2 ∷ [] };
  writes = refl;
}

acl_parse-admits_example :
    (admits net (acl_parse net (some (codes "10.0.0.1, 10.0.0.2"))) (codes "10.0.0.2") ≡ true)
    ↔ Named net (codes "10.0.0.2") (codes "10.0.0.1" ∷ codes " 10.0.0.2" ∷ [])
acl_parse-admits_example =
    acl_parse-admits net (codes "10.0.0.2") (codes "10.0.0.1") (codes " 10.0.0.2" ∷ []) net-Sizes
      (first_holds, (second_holds, tt))

abbrev forwarded : Headers
forwarded = record {
  xff = some (codes "6.6.6.6, 9.9.9.9, 10.0.0.1");
  xfp = some (codes "HTTPS");
  xfport = some (codes "8443");
}

resolve_runs :
    (resolve net (some (proxy ∷ [])) (some (codes "10.0.0.1")) forwarded ≡ record {
      remote_addr = codes "9.9.9.9";
      scheme = codes "https";
      https = true;
      server_port = some 8443;
    })
    × ((resolve net (some (proxy ∷ [])) (some (codes "10.0.0.2")) forwarded).remote_addr ≡ [])
    × ((resolve net none (some (codes "10.0.0.1")) forwarded).remote_addr ≡ [])
unfolding resolve acl_check pton_two equal
resolve_runs = (refl, refl, refl)

peer_trusted : acl_check net (some (proxy ∷ [])) (some (codes "10.0.0.1")) ≡ true
unfolding acl_check pton_two equal
peer_trusted = refl

resolve-Names_example :
    Names net
      (proxy ∷ [])
      (codes "6.6.6.6, 9.9.9.9, 10.0.0.1")
      (resolve net (some (proxy ∷ [])) (some (codes "10.0.0.1")) forwarded).remote_addr
    ⊎ Nobody net
        (proxy ∷ [])
        (codes "6.6.6.6, 9.9.9.9, 10.0.0.1")
        (resolve net (some (proxy ∷ [])) (some (codes "10.0.0.1")) forwarded).remote_addr
resolve-Names_example =
    resolve-Names net (proxy ∷ []) (some (codes "10.0.0.1")) forwarded
      (codes "6.6.6.6, 9.9.9.9, 10.0.0.1") peer_trusted refl
