-- ===== src/Http/Acl/Admits.antt =====
-- The list that a directive gives, and the peers that it lets in.
use php_fpm_ng.Base.{
  ◌≡◌, ◌≢◌, refl, Bool, true, false, inl, inr, ◌⊎◌, ◌↔◌, none, some, List, [], ◌∷◌, ◌++◌, arith,
  Bytes, length, Bool-cases, Option-cases, ◌==◌,
}
use php_fpm_ng.Base.Tokens.{IsClean, AllPieces, joined, tokens-joined}
use php_fpm_ng.Http.Inet.{Family, inet, inet6, Inet}
use php_fpm_ng.Http.Acl.{
  AclEntry, Parsed, refused, parsed, skip_blanks, entry_of, entries, acl_parse, entry_matches,
  any_entry, peer_is, peer_in, acl_check,
}
use php_fpm_ng.Http.Acl.Members.{
  Sizes, Permits, Kind, entry-Kind, matches_inet, matches_inet6, Permits-none,
}

-- A token that writes an address, with blanks in front of it or none.
pub record IsToken (net : Inet) (tok : Bytes) : Type 0 where
  pub clean : IsClean (λ c. c == b',') tok
  pub some_byte : skip_blanks tok ≢ []
  pub entry : AclEntry
  pub writes : entry_of net (skip_blanks tok) ≡ some entry

abbrev pub AllTokens : Inet → List Bytes → Type 0
AllTokens net [] = Unit
AllTokens net (t ∷ ts) = IsToken net t × AllTokens net ts

-- One of the tokens writes the address of the peer.
abbrev pub Named : Inet → Bytes → List Bytes → Type 0
Named net peer [] = ⊥
Named net peer (t ∷ ts) = Permits net peer (skip_blanks t) ⊎ Named net peer ts

-- The peer gets in with what the directive was parsed to; a refused one stops the start.
abbrev pub admits : Inet → Parsed → Bytes → Bool
admits net refused peer = false
admits net (parsed acl) peer = acl_check net acl (some peer)

abbrev entries_of : (net : Inet) (ts : List Bytes) → AllTokens net ts → List AclEntry
entries_of net [] h = []
entries_of net (t ∷ ts) (k, h) = k.entry ∷ entries_of net ts h

length-ne_nil : (t : Bytes) → t ≢ [] → (length t == 0) ≡ false
length-ne_nil [] h = absurd (h refl)
length-ne_nil (c ∷ t) h = ground arith

length-append-ne : (t s : Bytes) → t ≢ [] → (length (t ++ s) == 0) ≡ false
length-append-ne [] s h = absurd (h refl)
length-append-ne (c ∷ t) s h = ground arith

entries-AllTokens :
    (net : Inet) (ts : List Bytes) (h : AllTokens net ts)
    → entries net ts ≡ some (entries_of net ts h)
unfolding entries
entries-AllTokens net [] h = refl
entries-AllTokens net (t ∷ ts) (k, h) =
    rw (length-ne_nil (skip_blanks t) k.some_byte, k.writes, entries-AllTokens net ts h) refl

tok-ne_nil : (t : Bytes) → skip_blanks t ≢ [] → t ≢ []
unfolding skip_blanks
tok-ne_nil [] h = λ e. h refl
tok-ne_nil (c ∷ t) h = λ e. cc

AllPieces-AllTokens :
    (net : Inet) (ts : List Bytes) → AllTokens net ts → AllPieces (λ c. c == b',') ts
AllPieces-AllTokens net [] h = tt
AllPieces-AllTokens net (t ∷ ts) (k, h) =
    (k.clean, tok-ne_nil t k.some_byte, AllPieces-AllTokens net ts h)

-- Over the list, from one entry.
any_entry-Named :
    (net : Inet) (peer : Bytes) (f : Family) (a : Bytes) (ts : List Bytes) (h : AllTokens net ts)
    → ((t : Bytes) (e : AclEntry)
        → Kind net t e
        → (entry_matches f a e ≡ true) ↔ Permits net peer t)
    → (any_entry f a (entries_of net ts h) ≡ true) ↔ Named net peer ts
unfolding any_entry
any_entry-Named net peer f a [] h one = (λ e. cc, λ n. absurd n)
any_entry-Named net peer f a (t ∷ ts) (k, h) one =
    let here = one (skip_blanks t) k.entry (entry-Kind net (skip_blanks t) k.entry k.writes) in
    let there = any_entry-Named net peer f a ts h one in
    (
      λ m. elim (Bool-cases (entry_matches f a k.entry)) [
        | inl y ↦ inl (here.0 y)
        | inr x ↦ inr (there.0 (rw x at m))
      ],
      λ n. elim n [ inl p ↦ rw (here.1 p) refl | inr p ↦ ground (arith, there.1 p) ],
    )

Named-none :
    (net : Inet) (peer : Bytes) (ts : List Bytes)
    → net.pton inet peer ≡ none
    → net.pton inet6 peer ≡ none
    → Named net peer ts
    → ⊥
Named-none net peer [] n m k = k
Named-none net peer (t ∷ ts) n m (inl p) = Permits-none net peer (skip_blanks t) n m p
Named-none net peer (t ∷ ts) n m (inr p) = Named-none net peer ts n m p

peer_in-Named :
    (net : Inet) (peer : Bytes) (ts : List Bytes) (h : AllTokens net ts)
    → Sizes net
    → (peer_in net peer (entries_of net ts h) ≡ true) ↔ Named net peer ts
unfolding peer_in peer_is
peer_in-Named net peer ts h sizes = elim (Option-cases (net.pton inet peer)) [
  | inr (a, p) ↦
      rw p (any_entry-Named net peer inet a ts h (λ t e k. matches_inet net peer t a e p k))
  | inl n ↦ elim (Option-cases (net.pton inet6 peer)) [
    | inr (a, p) ↦
        rw (n, p)
          (any_entry-Named net peer inet6 a ts h
            (λ t e k. matches_inet6 net peer t a e sizes n p k))
    | inl m ↦ rw (n, m) (λ e. cc, λ k. absurd (Named-none net peer ts n m k))
  ]
]

-- A list of addresses between commas is accepted, and lets in exactly the peers it names.
pub acl_parse-admits :
    (net : Inet) (peer t : Bytes) (ts : List Bytes)
    → Sizes net
    → AllTokens net (t ∷ ts)
    → (admits net (acl_parse net (some (t ++ joined b',' ts))) peer ≡ true)
      ↔ Named net peer (t ∷ ts)
unfolding acl_parse acl_check
acl_parse-admits net peer t ts sizes (k, h) =
    let n : (length (t ++ joined b',' ts) == 0) ≡ false =
      length-append-ne t (joined b',' ts) (tok-ne_nil t k.some_byte) in
    rw
      (
        n,
        tokens-joined (λ c. c == b',') b',' t ts refl (AllPieces-AllTokens net (t ∷ ts) (k, h)),
        entries-AllTokens net (t ∷ ts) (k, h),
      )
      (peer_in-Named net peer (t ∷ ts) (k, h) sizes)
