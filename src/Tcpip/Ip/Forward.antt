-- ===== src/Tcpip/Ip/Forward.antt =====
-- tcpip/ip/ip.c: the checksum that `ip_forward` writes.
use my_exercise.Prelude.{
  ℕ, zero, suc, ◌+◌, ◌-◌, ◌%◌, ◌^◌, ◌<◌, ◌≤◌, ◌≡◌, ◌≢◌, ◌⊎◌, ◌↔◌, ◌∙◌, refl, ap, some, arith, inl,
  inr,
}
use my_exercise.Bytes.{Memory, IsBytes, store8}
use my_exercise.Tcpip.Net.{Net, ok, ◌>>=◌}
use my_exercise.Tcpip.Checksum.{load16, store16, complement16, checksum}
use my_exercise.Tcpip.Checksum.Fold.{Folded}
use my_exercise.Tcpip.Checksum.Verify.{
  total, total_bound, total_cong, total-store16, checksum-total, load16-store16_self,
}
use my_exercise.Tcpip.Ip.{
  ip_header, ip_ttl, ip_csum, iphlen, ipver, header_checksum, age, forwarded,
}

complement-zero_iff : (t f : ℕ) → Folded t f → (complement16 f ≡ 0) ↔ ((t ≢ 0) × (t % 65535 ≡ 0))
complement-zero_iff t f h = (
  λ z. (λ n. omega (arith, z, h.zero_iff.1 n), omega (arith, z, h.small, h.same)),
  λ (n, m).
      let nonzero : f ≢ 0 = λ z. n (h.zero_iff.0 z) in omega (arith, nonzero, m, h.small, h.same),
)

-- The checksum of a header in terms of the sum of its words.
header_checksum-zero_iff :
    (p : Memory) (len : ℕ)
    → total p ip_header len < 2 ^ 32
    → (checksum p ip_header len 0 ≡ some 0)
      ↔ ((total p ip_header len ≢ 0) × (total p ip_header len % 65535 ≡ 0))
header_checksum-zero_iff p len l =
    let (f, e, h) = checksum-total p ip_header len l in
    let (there, back) = complement-zero_iff (total p ip_header len) f h in
    (λ c. there (ground (arith, e, c)), λ m. e ∙ ap some (back m))

-- The checksum of a header whose sum is one less than a multiple of 65535.
checksum_one :
    (p : Memory) (len : ℕ)
    → total p ip_header len < 2 ^ 32
    → total p ip_header len % 65535 ≡ 65534
    → checksum p ip_header len 0 ≡ some 1
checksum_one p len l m =
    let (f, e, h) = checksum-total p ip_header len l in
    e ∙ ap some (omega (arith, h.small, h.same, m))

age_word :
    (p : Memory)
    → IsBytes p
    → 0 < p ip_ttl
    → (a : ℕ) → age p a ≡ store16 p ip_ttl (load16 p ip_ttl - 1) a
unfolding age store8
age_word p b l a = ground (arith, b ip_ttl, b (ip_ttl + 1))

-- The sum of a header after `iphdr->ttl--`.
age-total :
    (p : Memory) (len : ℕ)
    → IsBytes p
    → 0 < p ip_ttl
    → 20 ≤ len
    → total (age p) ip_header len + 1 ≡ total p ip_header len
age-total p len b l h =
    let same =
      total_cong (age p) (store16 p ip_ttl (load16 p ip_ttl - 1)) ip_header len
        (λ a _ _. age_word p b l a) in
    omega (
      arith,
      same,
      b ip_ttl,
      b (ip_ttl + 1),
      total-store16 p ip_ttl ip_header 4 len (load16 p ip_ttl - 1)
          (omega (arith, b ip_ttl, b (ip_ttl + 1))) refl h',
    )
  where
    h' : 10 ≤ len
    h' = omega arith

-- Where the version is 4 the sum of a header is not 0.
total_pos : (p : Memory) (len : ℕ) → ipver p ≡ 4 → 20 ≤ len → 0 < total p ip_header len
unfolding ipver total
total_pos p zero v h = absurd (omega arith)
total_pos p (suc zero) v h = absurd (omega arith)
total_pos p (suc (suc len)) v h = omega arith

iphlen_bound : (p : Memory) → iphlen p ≤ 60
unfolding iphlen
iphlen_bound p = omega arith

iphlen-age : (p : Memory) → iphlen (age p) ≡ iphlen p
unfolding iphlen age store8
iphlen-age p = refl

iphlen-store16 : (p : Memory) (c : ℕ) → iphlen (store16 p ip_csum c) ≡ iphlen p
unfolding iphlen store8
iphlen-store16 p c = refl

csum-age : (p : Memory) → load16 (age p) ip_csum ≡ load16 p ip_csum
unfolding age store8
csum-age p = refl

ttl-age : (p : Memory) → IsBytes p → store16 (age p) ip_csum 1 ip_ttl ≡ p ip_ttl - 1
unfolding age store8
ttl-age p b = omega (arith, b ip_ttl)

ipver-age : (p : Memory) → ipver (store16 (age p) ip_csum 1) ≡ ipver p
unfolding ipver age store8
ipver-age p = refl

age-IsBytes : (p : Memory) → IsBytes p → IsBytes (age p)
unfolding age store8
age-IsBytes p b a = ground (arith, b a)

store16-IsBytes : (p : Memory) (o v : ℕ) → IsBytes p → IsBytes (store16 p o v)
unfolding store8
store16-IsBytes p o v b a = ground (arith, b a)

header_total_bound : (p : Memory) → IsBytes p → total p ip_header (iphlen p) < 2 ^ 32
header_total_bound p b = omega (arith, iphlen_bound p, total_bound p ip_header (iphlen p) b)

forwarded_lem :
    (p : Memory) (s : Net)
    → header_checksum (age p) ≡ some 1
    → forwarded p s ≡ ok (store16 (age p) ip_csum 1, s)
unfolding forwarded
forwarded_lem p s e = rw (e, ◌>>=◌) refl

-- A version 4 header of at least 20 bytes whose checksum is right and whose time to live is more than 1: what
-- `ip_forward` writes into the checksum field is 1, whatever the field held, since it sums the old value as well.
-- The header that it leaves has a right checksum exactly if the old field was 0 or 65535.
pub forwarded-checksum :
    (p : Memory) (s : Net)
    → IsBytes p
    → ipver p ≡ 4
    → 20 ≤ iphlen p
    → 1 < p ip_ttl
    → header_checksum p ≡ some 0
    → (q : Memory) × (forwarded p s ≡ ok (q, s))
      × (load16 q ip_csum ≡ 1)
      × (q ip_ttl ≡ p ip_ttl - 1)
      × ((header_checksum q ≡ some 0) ↔ ((load16 p ip_csum ≡ 0) ⊎ (load16 p ip_csum ≡ 65535)))
forwarded-checksum p s b v h ttl right =
    let len = iphlen p in
    let (nonzero, divides) = (header_checksum-zero_iff p len (header_total_bound p b)).0 right in
    let aged = age-total p len b (omega arith) h in
    let one : header_checksum (age p) ≡ some 1 = rw (iphlen-age p) (
      checksum_one (age p) len (omega (arith, aged, header_total_bound p b))
        (omega (arith, aged, divides, nonzero))) in
    let q = store16 (age p) ip_csum 1 in
    let qb = store16-IsBytes (age p) ip_csum 1 (age-IsBytes p b) in
    let qlen : iphlen q ≡ len = iphlen-store16 (age p) 1 ∙ iphlen-age p in
    let field : total q ip_header len + load16 p ip_csum ≡ total p ip_header len = omega (
      arith,
      aged,
      csum-age p,
      total-store16 (age p) ip_csum ip_header 5 len 1 (omega arith) refl (omega (arith, h)),
    ) in
    let qpos = total_pos q len (ipver-age p ∙ v) h in
    let small : load16 p ip_csum < 2 ^ 16 = omega (arith, b ip_csum, b (ip_csum + 1)) in
    let (there, back) =
      header_checksum-zero_iff q len (omega (arith, field, header_total_bound p b)) in
    (
      q,
      forwarded_lem p s one,
      load16-store16_self (age p) ip_csum 1 (omega arith),
      ttl-age p b,
      rw qlen (
        λ c. let (n, m) = there c in ground (arith, m, field, divides, small),
        λ c. back (
          ground (arith, qpos),
          elim c [
            | inl z ↦ omega (arith, z, field, divides)
            | inr z ↦ omega (arith, z, field, divides)
          ],
        ),
      ),
    )
