-- ===== src/Http/Acl/Members.antt =====
-- A list of addresses lets in exactly the peers that it names.
use php_fpm_ng.Base.{
  ℕ, zero, suc, ◌≤◌, ◌<◌, ◌≡◌, refl, sym, ap, ◌∙◌, true, ◌&&◌, inl, inr, ◌↔◌, none, some, [], ◌∷◌,
  ◌++◌, arith, Bytes, equal, equal_iff, length, get_or, take, drop, replicate, take-append-drop,
  length-drop, Option-cases,
}
use php_fpm_ng.Http.Inet.{inet, inet6, Inet}
use php_fpm_ng.Http.Acl.{AclEntry, entry_of, v4_mapped, entry_matches}

-- The sizes of addresses, as POSIX gives them.
pub record Sizes (net : Inet) : Type 0 where
  pub four : (t a : Bytes) → net.pton inet t ≡ some a → length a ≡ 4
  pub sixteen : (t a : Bytes) → net.pton inet6 t ≡ some a → length a ≡ 16

-- The IPv4 address `a` as RFC 4291 maps it into IPv6.
abbrev pub mapped_from : Bytes → Bytes
mapped_from a = replicate 10 0 ++ 255 ∷ 255 ∷ a

-- The peer has the address that the text writes.
pub data Permits (net : Inet) (peer t : Bytes) : Type 0 where
  same : (a : Bytes) → net.pton inet peer ≡ some a → net.pton inet t ≡ some a → Permits net peer t
  same6 :
      (a : Bytes)
      → net.pton inet peer ≡ none
      → net.pton inet6 peer ≡ some a
      → net.pton inet t ≡ none
      → net.pton inet6 t ≡ some a
      → Permits net peer t
  mapped :
      (a : Bytes)
      → net.pton inet peer ≡ none
      → net.pton inet6 peer ≡ some (mapped_from a)
      → net.pton inet t ≡ some a
      → Permits net peer t

take_all : (n : ℕ) (a : Bytes) → length a ≤ n → take n a ≡ a
take_all zero [] h = refl
take_all zero (c ∷ a) h = elim h [ ]
take_all (suc n) [] h = refl
take_all (suc n) (c ∷ a) h = ap (c ∷◌) (take_all n a (omega arith))

drop_step : (n : ℕ) (a : Bytes) → n < length a → drop n a ≡ get_or a n 0 ∷ drop (suc n) a
drop_step n [] h = elim h [ ]
drop_step zero (c ∷ a) h = refl
drop_step (suc n) (c ∷ a) h = drop_step n a (omega arith)

v4_mapped-mapped_from :
    (v6 : Bytes) → length v6 ≡ 16 → v4_mapped v6 ≡ true → v6 ≡ mapped_from (take 4 (drop 12 v6))
unfolding v4_mapped
v4_mapped-mapped_from v6 l m =
    let front : take 10 v6 ≡ replicate 10 0 =
      (equal_iff (take 10 v6) (replicate 10 0)).0 (ground (arith, m)) in
    let c : get_or v6 10 0 ≡ 255 = ground (arith, m) in
    let d : get_or v6 11 0 ≡ 255 = ground (arith, m) in
    let rest : take 4 (drop 12 v6) ≡ drop 12 v6 =
      take_all 4 (drop 12 v6) (omega (arith, length-drop 12 v6)) in
    sym (take-append-drop 10 v6)
    ∙ rw (front, drop_step 10 v6 (omega arith), drop_step 11 v6 (omega arith), c, d, rest) refl

v4_mapped-of :
    (a : Bytes)
    → length a ≡ 4
    → (v4_mapped (mapped_from a) ≡ true) × (take 4 (drop 12 (mapped_from a)) ≡ a)
unfolding v4_mapped equal
v4_mapped-of a l = (refl, take_all 4 a (omega arith))

some_inj : (a b : Bytes) → some a ≡ some b → a ≡ b
some_inj a b e = cc

none-ne-some : {A : Type 0} (a : Bytes) → none ≡ some a → A
none-ne-some a e = absurd (cc)

-- What an entry stands for.
pub data Kind (net : Inet) (t : Bytes) (e : AclEntry) : Type 0 where
  four :
      (b : Bytes) → net.pton inet t ≡ some b → e ≡ record { family = inet; addr = b } → Kind net t e
  six :
      (b : Bytes)
      → net.pton inet t ≡ none
      → net.pton inet6 t ≡ some b
      → e ≡ record { family = inet6; addr = b }
      → Kind net t e

pub entry-Kind : (net : Inet) (t : Bytes) (e : AclEntry) → entry_of net t ≡ some e → Kind net t e
unfolding entry_of
entry-Kind net t e w = elim (Option-cases (net.pton inet t)) [
  | inl n ↦ elim (Option-cases (net.pton inet6 t)) [
    | inl m ↦ absurd (let x : none ≡ some e = rw (n, m) at w in cc)
    | inr (b, q) ↦
        six b n q
          (let x : some (record { family = inet6; addr = b }) ≡ some e = rw (n, q) at w in cc)
  ]
  | inr (b, q) ↦
      four b q (let x : some (record { family = inet; addr = b }) ≡ some e = rw q at w in cc)
]

module _ (net : Inet) (peer t : Bytes) where
  Permits-inet :
      (a : Bytes) → net.pton inet peer ≡ some a → Permits net peer t → net.pton inet t ≡ some a
  Permits-inet a p (same c x y) = rw (← some_inj c a (sym x ∙ p)) y
  Permits-inet a p (same6 c x y z w) = none-ne-some a (sym x ∙ p)
  Permits-inet a p (mapped c x y z) = none-ne-some a (sym x ∙ p)

  pub matches_inet :
      (a : Bytes) (e : AclEntry)
      → net.pton inet peer ≡ some a
      → Kind net t e
      → (entry_matches inet a e ≡ true) ↔ Permits net peer t
  unfolding entry_matches
  matches_inet a e p (four b q w) = rw w (
    λ m. same a p (q ∙ ap some (sym ((equal_iff a b).0 m))),
    λ m. (equal_iff a b).1 (some_inj a b (sym (Permits-inet a p m) ∙ q)),
  )
  matches_inet a e p (six b n q w) =
      rw w (λ m. absurd (cc), λ m. none-ne-some a (sym n ∙ Permits-inet a p m))

  Permits-mapped :
      (a b : Bytes)
      → net.pton inet peer ≡ none
      → net.pton inet6 peer ≡ some a
      → net.pton inet t ≡ some b
      → Permits net peer t
      → a ≡ mapped_from b
  Permits-mapped a b n p q (same c x y) = none-ne-some c (sym n ∙ x)
  Permits-mapped a b n p q (same6 c x y z w) = none-ne-some b (sym z ∙ q)
  Permits-mapped a b n p q (mapped c x y z) =
      some_inj a (mapped_from c) (sym p ∙ y) ∙ ap mapped_from (some_inj c b (sym z ∙ q))

  Permits-inet6 :
      (a : Bytes)
      → net.pton inet peer ≡ none
      → net.pton inet6 peer ≡ some a
      → net.pton inet t ≡ none
      → Permits net peer t
      → net.pton inet6 t ≡ some a
  Permits-inet6 a n p o (same c x y) = none-ne-some c (sym n ∙ x)
  Permits-inet6 a n p o (same6 c x y z w) = w ∙ ap some (some_inj c a (sym y ∙ p))
  Permits-inet6 a n p o (mapped c x y z) = none-ne-some c (sym o ∙ z)

  matches_mapped :
      (a b : Bytes)
      → length a ≡ 16
      → v4_mapped a && equal (take 4 (drop 12 a)) b ≡ true
      → a ≡ mapped_from b
  matches_mapped a b l m =
      let v : v4_mapped a ≡ true = ground (arith, m) in
      let e : take 4 (drop 12 a) ≡ b = (equal_iff (take 4 (drop 12 a)) b).0 (ground (arith, m)) in
      v4_mapped-mapped_from a l v ∙ ap mapped_from e

  mapped_matches :
      (b : Bytes)
      → length b ≡ 4
      → v4_mapped (mapped_from b) && equal (take 4 (drop 12 (mapped_from b))) b ≡ true
  mapped_matches b l = let (v, e) = v4_mapped-of b l in rw (v, e, (equal_iff b b).1 refl) refl

  pub matches_inet6 :
      (a : Bytes) (e : AclEntry)
      → Sizes net
      → net.pton inet peer ≡ none
      → net.pton inet6 peer ≡ some a
      → Kind net t e
      → (entry_matches inet6 a e ≡ true) ↔ Permits net peer t
  unfolding entry_matches
  matches_inet6 a e sizes n p (four b q w) = rw w (
    λ m. mapped b n (p ∙ ap some (matches_mapped a b (sizes.sixteen peer a p) m)) q,
    λ m. rw (Permits-mapped a b n p q m) (mapped_matches b (sizes.four t b q)),
  )
  matches_inet6 a e sizes n p (six b o q w) = rw w (
    λ m. same6 a n p o (q ∙ ap some (sym ((equal_iff a b).0 m))),
    λ m. (equal_iff a b).1 (some_inj a b (sym (Permits-inet6 a n p o m) ∙ q)),
  )

  pub Permits-none : net.pton inet peer ≡ none → net.pton inet6 peer ≡ none → Permits net peer t → ⊥
  Permits-none n m (same c x y) = none-ne-some c (sym n ∙ x)
  Permits-none n m (same6 c x y z w) = none-ne-some c (sym m ∙ y)
  Permits-none n m (mapped c x y z) = none-ne-some (mapped_from c) (sym m ∙ y)
