-- ===== src/Http/Forwarded/Client/Cases.antt =====
-- Every header splits at the last element that is not a trusted proxy, if there is one.
use php_fpm_ng.Base.{
  ◌≡◌, ◌≢◌, refl, sym, ap, ◌∙◌, true, inl, inr, ◌⊎◌, Option, none, some, List, [], ◌∷◌, ◌++◌,
  append_assoc, Bytes, Bool-cases, ==_iff,
}
use php_fpm_ng.Base.Tokens.{IsClean, joined}
use php_fpm_ng.Http.Inet.{Inet}
use php_fpm_ng.Http.Acl.{AclEntry, acl_check}
use php_fpm_ng.Http.Forwarded.{Headers, trim_copy, resolve}
use php_fpm_ng.Http.Forwarded.Client.{
  is_comma, Passed, AllPassed, IsClient, in_front, resolve-client, resolve-passed,
}

abbrev AllClean : List Bytes → Type 0
AllClean [] = Unit
AllClean (t ∷ ts) = IsClean is_comma t × AllClean ts

-- A text is its elements.
record Split (x : Bytes) : Type 0 where
  first : Bytes
  others : List Bytes
  clean : AllClean (first ∷ others)
  whole : x ≡ first ++ joined b',' others

split : (x : Bytes) → Split x
split [] = record { first = []; others = []; clean = (tt, tt); whole = refl }
split (c ∷ x) =
    let s = split x in
    elim (Bool-cases (is_comma c)) [
      | inl y ↦ record {
        first = [];
        others = s.first ∷ s.others;
        clean = (tt, s.clean);
        whole = let e : c ≡ b',' = (==_iff c b',').0 y in cc (e, s.whole);
      }
      | inr n ↦ record {
        first = c ∷ s.first;
        others = s.others;
        clean = ((n, s.clean.0), s.clean.1);
        whole = ap (c ∷◌) s.whole;
      }
    ]

-- The header names its last client.
pub record Names (net : Inet) (trusted : List AclEntry) (x : Bytes) (client : Bytes) : Type 0 where
  pub front : Option Bytes
  pub element : Bytes
  pub back : List Bytes
  pub whole : x ≡ in_front front ++ (element ++ joined b',' back)
  pub is_client : IsClient net trusted element
  pub passed : AllPassed net trusted back
  pub named : client ≡ trim_copy element

-- The header has no client, and names nobody.
pub record Nobody (net : Inet) (trusted : List AclEntry) (x : Bytes) (client : Bytes) : Type 0 where
  pub first : Bytes
  pub others : List Bytes
  pub whole : x ≡ first ++ joined b',' others
  pub passed : AllPassed net trusted (first ∷ others)
  pub named : client ≡ []

nil-cases : (t : Bytes) → (t ≡ []) ⊎ (t ≢ [])
nil-cases [] = inl refl
nil-cases (c ∷ t) = inr (λ e. cc)

element-cases :
    (net : Inet) (trusted : List AclEntry) (t : Bytes)
    → IsClean is_comma t
    → Passed net trusted t ⊎ IsClient net trusted t
element-cases net trusted t h = elim (nil-cases (trim_copy t)) [
  | inl e ↦ inl (h, inl e)
  | inr n ↦ elim (Bool-cases (acl_check net (some trusted) (some (trim_copy t)))) [
    | inl y ↦ inl (h, inr y)
    | inr u ↦ inr (record { clean = h; some_byte = n; untrusted = u })
  ]
]

-- An element more in front.
extend :
    (e : Bytes) (front : Option Bytes) (x : Bytes)
    → (front' : Option Bytes) × (e ++ b',' ∷ (in_front front ++ x) ≡ in_front front' ++ x)
extend e none x = (some e, sym (append_assoc e (b',' ∷ []) x))
extend e (some f) x = (some (e ++ b',' ∷ f), simp append_assoc)

-- The last client of a list of elements.
abbrev Last : Inet → List AclEntry → Bytes → Type 0
Last net trusted x = ((client : Bytes) × Names net trusted x client) ⊎ Nobody net trusted x []

extend-Names :
    (net : Inet) (trusted : List AclEntry) (e x client : Bytes)
    → Names net trusted x client
    → Names net trusted (e ++ b',' ∷ x) client
extend-Names net trusted e x client n =
    let (front', eq) = extend e n.front (n.element ++ joined b',' n.back) in
    record {
      front = front';
      element = n.element;
      back = n.back;
      whole = ap (λ t. e ++ b',' ∷ t) n.whole ∙ eq;
      is_client = n.is_client;
      passed = n.passed;
      named = n.named;
    }

extend-Nobody :
    (net : Inet) (trusted : List AclEntry) (e x : Bytes)
    → IsClean is_comma e
    → Nobody net trusted x []
    → Last net trusted (e ++ b',' ∷ x)
extend-Nobody net trusted e x c n =
    let eq : e ++ b',' ∷ x ≡ e ++ joined b',' (n.first ∷ n.others) =
      ap (λ t. e ++ b',' ∷ t) n.whole in
    elim (element-cases net trusted e c) [
      | inl p ↦ inr (record {
        first = e;
        others = n.first ∷ n.others;
        whole = eq;
        passed = (p, n.passed);
        named = refl;
      })
      | inr k ↦ inl (
        trim_copy e,
        record {
          front = none;
          element = e;
          back = n.first ∷ n.others;
          whole = eq;
          is_client = k;
          passed = n.passed;
          named = refl;
        },
      )
    ]

last_of :
    (net : Inet) (trusted : List AclEntry) (e : Bytes) (ts : List Bytes)
    → AllClean (e ∷ ts)
    → Last net trusted (e ++ joined b',' ts)
last_of net trusted e [] (c, _) = elim (element-cases net trusted e c) [
  | inl p ↦ inr (record { first = e; others = []; whole = refl; passed = (p, tt); named = refl })
  | inr k ↦ inl (
    trim_copy e,
    record {
      front = none;
      element = e;
      back = [];
      whole = refl;
      is_client = k;
      passed = tt;
      named = refl;
    },
  )
]
last_of net trusted e (t ∷ ts) (c, cs) = elim (last_of net trusted t ts cs) [
  | inl (client, n) ↦ inl (client, extend-Names net trusted e (t ++ joined b',' ts) client n)
  | inr n ↦ extend-Nobody net trusted e (t ++ joined b',' ts) c n
]

-- For every header of a trusted peer: the client is the last element that is not a trusted proxy,
-- with blank elements and trusted proxies only behind it, and any text in front; or every element
-- is blank or a trusted proxy, and nobody is named.
pub resolve-Names :
    (net : Inet) (trusted : List AclEntry) (peer : Option Bytes) (h : Headers) (xff : Bytes)
    → acl_check net (some trusted) peer ≡ true
    → h.xff ≡ some xff
    → Names net trusted xff (resolve net (some trusted) peer h).remote_addr
      ⊎ Nobody net trusted xff (resolve net (some trusted) peer h).remote_addr
resolve-Names net trusted peer h xff t x =
    let s = split xff in
    elim (last_of net trusted s.first s.others s.clean) [
      | inl (_, n) ↦
          let w = s.whole ∙ n.whole in
          inl (record {
            front = n.front;
            element = n.element;
            back = n.back;
            whole = w;
            is_client = n.is_client;
            passed = n.passed;
            named =
                resolve-client net trusted peer h n.front n.element n.back t (x ∙ ap some w)
                  n.is_client n.passed;
          })
      | inr n ↦
          let w = s.whole ∙ n.whole in
          inr (record {
            first = n.first;
            others = n.others;
            whole = w;
            passed = n.passed;
            named = resolve-passed net trusted peer h n.first n.others t (x ∙ ap some w) n.passed;
          })
    ]
