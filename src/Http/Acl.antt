-- ===== src/Http/Acl.antt =====
-- Lists of literal addresses, for the clients that may connect and the proxies that are trusted:
-- sapi/fpmng/fpm/fpm_http_acl.c.
pub mod Members
pub mod Admits
use php_fpm_ng.Base.{
  ℕ, Bool, true, false, not, ◌&&◌, ◌||◌, Option, none, some, List, [], ◌∷◌, Bytes, equal, length,
  get_or, take, drop, replicate, ◌==◌, if◌then◌else◌,
}
use php_fpm_ng.Base.Tokens.{tokens}
use php_fpm_ng.Http.Inet.{Family, inet, inet6, Inet}

-- `struct fpm_http_acl_entry_s`; the union of addresses is the bytes of the one that is there.
pub record AclEntry : Type 0 where
  pub family : Family
  pub addr : Bytes

-- The return value with `*out`: -1, or 0 with the list, which is NULL for no entry.
pub data Parsed : Type 0 where
  refused : Parsed
  parsed : Option (List AclEntry) → Parsed

abbrev pub blank_byte : ℕ → Bool
blank_byte c = c == b' ' || c == 9

unfoldable pub skip_blanks : Bytes → Bytes
skip_blanks [] = []
skip_blanks (c ∷ s) = if blank_byte c then skip_blanks s else c ∷ s

abbrev pub entry_or : Family → Option Bytes → Option AclEntry → Option AclEntry
entry_or f none e = e
entry_or f (some addr) e = some (record { family = f; addr = addr })

-- The entry of a token that is not empty: IPv4 first, then IPv6.
unfoldable pub entry_of : Inet → Bytes → Option AclEntry
entry_of net tok = entry_or inet (net.pton inet tok) (entry_or inet6 (net.pton inet6 tok) none)

-- The loop over the tokens, with the entries in their order.
unfoldable pub entries : Inet → List Bytes → Option (List AclEntry)
unfolding skip_blanks entry_of
entries net [] = some []
entries net (tok ∷ toks) =
    let rest = entries net toks in
    if length (skip_blanks tok) == 0 then rest else elim (entry_of net (skip_blanks tok)) [
      | none ↦ none
      | some e ↦ elim rest [ none ↦ none | some es ↦ some (e ∷ es) ]
    ]

abbrev pub acl_of : Option (List AclEntry) → Parsed
acl_of none = refused
acl_of (some []) = parsed none
acl_of (some (e ∷ es)) = parsed (some (e ∷ es))

unfoldable pub acl_parse : Inet → Option Bytes → Parsed
unfolding entries tokens
acl_parse net none = parsed none
acl_parse net (some csv) =
    if length csv == 0 then parsed none else acl_of (entries net (tokens (λ c. c == b',') csv))

-- IN6_IS_ADDR_V4MAPPED.
unfoldable pub v4_mapped : Bytes → Bool
unfolding equal
v4_mapped v6 = equal (take 10 v6) (replicate 10 0) && get_or v6 10 0 == 255 && get_or v6 11 0 == 255

unfoldable pub entry_matches : Family → Bytes → AclEntry → Bool
unfolding v4_mapped equal
entry_matches inet v4 e = elim e.family [ inet ↦ equal v4 e.addr | inet6 ↦ false ]
entry_matches inet6 v6 e = elim e.family [
  | inet ↦ v4_mapped v6 && equal (take 4 (drop 12 v6)) e.addr
  | inet6 ↦ equal v6 e.addr
]

unfoldable pub any_entry : Family → Bytes → List AclEntry → Bool
unfolding entry_matches
any_entry f addr [] = false
any_entry f addr (e ∷ es) = entry_matches f addr e || any_entry f addr es

-- The address of the peer is IPv4, or else IPv6.
pub peer_is : Option Bytes → Option Bytes → List AclEntry → Bool
unfolding any_entry
peer_is (some v4) o es = any_entry inet v4 es
peer_is none (some v6) es = any_entry inet6 v6 es
peer_is none none es = false

unfoldable pub peer_in : Inet → Bytes → List AclEntry → Bool
unfolding peer_is
peer_in net peer es = peer_is (net.pton inet peer) (net.pton inet6 peer) es

-- No list, or one of no entries, lets everyone in.
unfoldable pub acl_check : Inet → Option (List AclEntry) → Option Bytes → Bool
unfolding peer_in
acl_check net none peer = true
acl_check net (some []) peer = true
acl_check net (some (e ∷ es)) none = false
acl_check net (some (e ∷ es)) (some peer) = peer_in net peer (e ∷ es)
