-- ===== src/Http/Forwarded/Client.antt =====
-- The client is the last element of the header that is not a trusted proxy: what a client sends
-- itself stands further to the left, and does not count.
pub mod Cases
use php_fpm_ng.Base.{
  ℕ, ◌≡◌, ◌≢◌, refl, sym, ap, ◌∙◌, Bool, true, false, not, ◌&&◌, inl, inr, ◌⊎◌, Option, none, some,
  List, [], ◌∷◌, ◌++◌, append-nil, append_assoc, arith, Bytes, length, ◌==◌, if◌then◌else◌,
}
use php_fpm_ng.Base.Tokens.{IsClean, joined}
use mathlib.Core.List.{reverse, reverse_aux, reverse_aux-append}
use php_fpm_ng.Http.Inet.{Inet}
use php_fpm_ng.Http.Acl.{AclEntry, acl_check}
use php_fpm_ng.Http.Forwarded.{Result, Headers, trim_copy, is_client, walk_left, client_of, resolve}

abbrev pub is_comma : ℕ → Bool
is_comma c = c == b','

-- An element without a comma in it that the walk passes: a blank one, or a trusted proxy.
abbrev pub Passed : Inet → List AclEntry → Bytes → Type 0
Passed net trusted t =
    IsClean is_comma t
    × ((trim_copy t ≡ []) ⊎ (acl_check net (some trusted) (some (trim_copy t)) ≡ true))

abbrev pub AllPassed : Inet → List AclEntry → List Bytes → Type 0
AllPassed net trusted [] = Unit
AllPassed net trusted (t ∷ ts) = Passed net trusted t × AllPassed net trusted ts

-- An element that names a client.
pub record IsClient (net : Inet) (trusted : List AclEntry) (t : Bytes) : Type 0 where
  pub clean : IsClean is_comma t
  pub some_byte : trim_copy t ≢ []
  pub untrusted : acl_check net (some trusted) (some (trim_copy t)) ≡ false

-- What stands in front of an element: nothing, or any text and a comma.
abbrev pub in_front : Option Bytes → Bytes
in_front none = []
in_front (some front) = front ++ b',' ∷ []

length-ne_nil : (t : Bytes) → t ≢ [] → (length t == 0) ≡ false
length-ne_nil [] h = absurd (h refl)
length-ne_nil (c ∷ t) h = ground arith

walk_left-clean :
    (net : Inet) (trusted : Option (List AclEntry)) (e element s : Bytes)
    → IsClean is_comma e
    → walk_left net trusted element (reverse_aux e s) ≡ walk_left net trusted (e ++ element) s
unfolding walk_left
walk_left-clean net trusted [] element s h = refl
walk_left-clean net trusted (c ∷ e) element s (n, h) =
    walk_left-clean net trusted e element (c ∷ s) h ∙ rw n refl

is_client-Passed :
    (net : Inet) (trusted : List AclEntry) (t : Bytes)
    → Passed net trusted t
    → is_client net (some trusted) t ≡ false
unfolding is_client
is_client-Passed net trusted t (_, inl e) = rw e refl
is_client-Passed net trusted t (_, inr e) = ground (arith, e)

is_client-IsClient :
    (net : Inet) (trusted : List AclEntry) (t : Bytes)
    → IsClient net trusted t
    → is_client net (some trusted) t ≡ true
unfolding is_client
is_client-IsClient net trusted t h =
    let n : (length (trim_copy t) == 0) ≡ false = length-ne_nil (trim_copy t) h.some_byte in
    rw (n, h.untrusted) refl

walk_left-Passed :
    (net : Inet) (trusted : List AclEntry) (t s : Bytes)
    → Passed net trusted t
    → walk_left net (some trusted) t (b',' ∷ s) ≡ walk_left net (some trusted) [] s
unfolding walk_left
walk_left-Passed net trusted t s p = rw (is_client-Passed net trusted t p) refl

walk_left-joined :
    (net : Inet) (trusted : List AclEntry) (ts : List Bytes) (s : Bytes)
    → AllPassed net trusted ts
    → walk_left net (some trusted) [] (reverse_aux (joined b',' ts) s)
      ≡ walk_left net (some trusted) [] s
walk_left-joined net trusted [] s h = refl
walk_left-joined net trusted (t ∷ ts) s (p, h) =
    ap (walk_left net (some trusted) []) (reverse_aux-append t (joined b',' ts) (b',' ∷ s))
    ∙ walk_left-joined net trusted ts (reverse_aux t (b',' ∷ s)) h
    ∙ walk_left-clean net (some trusted) t [] (b',' ∷ s) p.0
    ∙ rw append-nil (walk_left-Passed net trusted t s p)

walk_left-IsClient :
    (net : Inet) (trusted : List AclEntry) (e : Bytes) (front : Option Bytes)
    → IsClient net trusted e
    → walk_left net (some trusted) e (reverse_aux (in_front front) []) ≡ trim_copy e
unfolding walk_left
walk_left-IsClient net trusted e none h = rw (is_client-IsClient net trusted e h) refl
walk_left-IsClient net trusted e (some front) h =
    rw (reverse_aux-append front (b',' ∷ []) [], is_client-IsClient net trusted e h) refl

client_of-IsClient :
    (net : Inet) (trusted : List AclEntry) (front : Option Bytes) (e : Bytes) (back : List Bytes)
    → IsClient net trusted e
    → AllPassed net trusted back
    → client_of net (some trusted) (some (in_front front ++ (e ++ joined b',' back))) ≡ trim_copy e
unfolding client_of
client_of-IsClient net trusted front e back h b =
    let walk = walk_left net (some trusted) [] in
    ap walk (reverse_aux-append (in_front front) (e ++ joined b',' back) [])
    ∙ ap walk (reverse_aux-append e (joined b',' back) (reverse_aux (in_front front) []))
    ∙ walk_left-joined net trusted back (reverse_aux e (reverse_aux (in_front front) [])) b
    ∙ walk_left-clean net (some trusted) e [] (reverse_aux (in_front front) []) h.clean
    ∙ rw append-nil (walk_left-IsClient net trusted e front h)

client_of-passed :
    (net : Inet) (trusted : List AclEntry) (e : Bytes) (back : List Bytes)
    → AllPassed net trusted (e ∷ back)
    → client_of net (some trusted) (some (e ++ joined b',' back)) ≡ []
unfolding client_of walk_left
client_of-passed net trusted e back (p, b) =
    let walk = walk_left net (some trusted) [] in
    ap walk (reverse_aux-append e (joined b',' back) [])
    ∙ walk_left-joined net trusted back (reverse_aux e []) b
    ∙ walk_left-clean net (some trusted) e [] [] p.0
    ∙ rw (append-nil, is_client-Passed net trusted e p) refl

-- Whatever a client sends in front, a trusted peer's header names the last element that is not a
-- trusted proxy.
pub resolve-client :
    (net : Inet) (trusted : List AclEntry) (peer : Option Bytes) (h : Headers)
    (front : Option Bytes) (e : Bytes) (back : List Bytes)
    → acl_check net (some trusted) peer ≡ true
    → h.xff ≡ some (in_front front ++ (e ++ joined b',' back))
    → IsClient net trusted e
    → AllPassed net trusted back
    → (resolve net (some trusted) peer h).remote_addr ≡ trim_copy e
unfolding resolve
resolve-client net trusted peer h front e back t x c b =
    rw (t, x) (client_of-IsClient net trusted front e back c b)

pub resolve-passed :
    (net : Inet) (trusted : List AclEntry) (peer : Option Bytes) (h : Headers) (e : Bytes)
    (back : List Bytes)
    → acl_check net (some trusted) peer ≡ true
    → h.xff ≡ some (e ++ joined b',' back)
    → AllPassed net trusted (e ∷ back)
    → (resolve net (some trusted) peer h).remote_addr ≡ []
unfolding resolve
resolve-passed net trusted peer h e back t x b = rw (t, x) (client_of-passed net trusted e back b)
