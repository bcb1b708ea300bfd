-- ===== src/Wire/Cbor/Canonical.antt =====
-- The heads that wire/cbor/cbor_reader.hpp accepts are those that the writer writes.
use slop_sync.Base.{
  ℕ, ◌+◌, ◌-◌, ◌*◌, ◌/◌, ◌%◌, ◌^◌, ◌≤◌, ◌<◌, bit_and, bit_or, ◌≡◌, sym, ap, ◌∙◌, inl, inr, true,
  false, List, [], ◌∷◌, ◌++◌, arith, ltb, leb, leb-true, leb-false, Bool-cases, length, drop, All,
  bit_or_fields, bit_or_comm, bit_and_31,
}
use native.Mathlib.Decide.{ℕ_discrete}
use slop_sync.Result.{ok}
use slop_sync.Wire.Bytes.{Split, split}
use slop_sync.Wire.Cbor.Writer.{head_bytes}
use slop_sync.Wire.Cbor.Reader.{Head, parse_head}
use slop_sync.Wire.Cbor.BigEndian.{value-1, value-2, value-4, value-8}

-- The bytes of a head in front of `rest`.
abbrev Shortest : ℕ → List ℕ → Head → Type 0
Shortest ib rest h =
    (h.major < 6) × (head_bytes h.major h.arg ++ drop (h.total_bytes - 1) rest ≡ ib ∷ rest)

first_byte_of : (ib : ℕ) → ib < 2 ^ 8 → bit_or (ib / 2 ^ 5 * 2 ^ 5 % 2 ^ 8) (ib % 32) ≡ ib
first_byte_of ib h =
    let whole : ib / 2 ^ 5 * 2 ^ 5 % 2 ^ 8 ≡ ib / 2 ^ 5 * 2 ^ 5 = omega (arith, h) in
    ap (λ t. bit_or t (ib % 32)) whole
    ∙ (bit_or_comm (ib / 2 ^ 5 * 2 ^ 5) (ib % 32)
        ∙ (bit_or_fields 5 (ib % 32) (ib / 2 ^ 5) (omega arith) ∙ omega arith))

-- A head of one byte.
short-Shortest :
    (ib : ℕ) (rest : List ℕ) (h : Head)
    → ib < 2 ^ 8
    → leb (ib % 32) 23 ≡ true
    → parse_head (ib ∷ rest) ≡ ok h
    → Shortest ib rest h
unfolding parse_head head_bytes
short-Shortest ib rest h hi f e =
    let ai : bit_and ib 0x1F ≡ ib % 32 = bit_and_31 ib in
    let major : ib / 2 ^ 5 ≡ h.major = ground (arith, e, ai, f) in
    let arg : ib % 32 ≡ h.arg = ground (arith, e, ai, f) in
    let total : h.total_bytes ≡ 1 = ground (arith, e, ai, f) in
    let same : head_bytes (ib / 2 ^ 5) (ib % 32) ≡ ib ∷ [] =
      rw (f, head_bytes) (ap (λ b. b ∷ []) (first_byte_of ib hi)) in
    (
      ground (arith, e, ai, f),
      (λ j. head_bytes (sym major j) (sym arg j) ++ drop (total j - 1) rest)
          ∙ ap (λ l. l ++ rest) same,
    )

wide1-Shortest :
    (ib : ℕ) (rest : List ℕ) (h : Head)
    → ib < 2 ^ 8
    → ib % 32 ≡ 24
    → 1 ≤ length rest
    → All (λ b. b < 2 ^ 8) rest
    → parse_head (ib ∷ rest) ≡ ok h
    → Shortest ib rest h
unfolding parse_head head_bytes Split
wide1-Shortest ib rest h hi f room =
    split 1 (λ l. All (λ b. b < 2 ^ 8) l → parse_head (ib ∷ l) ≡ ok h → Shortest ib l h)
      (λ a tail hr e.
        let ha = hr.0 in
        let v = a in
        let ai : bit_and ib 0x1F ≡ 24 = bit_and_31 ib ∙ f in
        let value = value-1 a ha in
        let least : ltb v 24 ≡ false = ground (arith, e, ai, value) in
        let major : ib / 2 ^ 5 ≡ h.major = ground (arith, e, ai, value, least) in
        let arg : v ≡ h.arg = ground (arith, e, ai, value, least) in
        let total : h.total_bytes ≡ 2 = ground (arith, e, ai, value, least) in
        let first : bit_or (ib / 2 ^ 5 * 2 ^ 5 % 2 ^ 8) 24 ≡ ib =
          ap (bit_or (ib / 2 ^ 5 * 2 ^ 5 % 2 ^ 8)) (sym f) ∙ first_byte_of ib hi in
        let da : v % 2 ^ 8 ≡ a = omega (arith, ha) in
        let same : head_bytes (ib / 2 ^ 5) v ≡ ib ∷ (a ∷ []) =
          rw
            (
              leb-false v 23 (ground (arith, least)),
              leb-true v 0xFF (omega (arith, ha)),
              head_bytes,
            )
            (λ i. first i ∷ (da i ∷ [])) in
        (
          ground (arith, e, ai),
          (λ j. head_bytes (sym major j) (sym arg j) ++ drop (total j - 1) (a ∷ (tail)))
              ∙ ap (λ l. l ++ tail) same,
        ))
      rest room

wide2-Shortest :
    (ib : ℕ) (rest : List ℕ) (h : Head)
    → ib < 2 ^ 8
    → ib % 32 ≡ 25
    → 2 ≤ length rest
    → All (λ b. b < 2 ^ 8) rest
    → parse_head (ib ∷ rest) ≡ ok h
    → Shortest ib rest h
unfolding parse_head head_bytes Split
wide2-Shortest ib rest h hi f room =
    split 2 (λ l. All (λ b. b < 2 ^ 8) l → parse_head (ib ∷ l) ≡ ok h → Shortest ib l h)
      (λ a b tail hr e.
        let ha = hr.0 in
        let hb = hr.1.0 in
        let v = a * 2 ^ 8 + b in
        let ai : bit_and ib 0x1F ≡ 25 = bit_and_31 ib ∙ f in
        let value = value-2 a b ha hb in
        let least : ltb v 256 ≡ false = ground (arith, e, ai, value) in
        let major : ib / 2 ^ 5 ≡ h.major = ground (arith, e, ai, value, least) in
        let arg : v ≡ h.arg = ground (arith, e, ai, value, least) in
        let total : h.total_bytes ≡ 3 = ground (arith, e, ai, value, least) in
        let first : bit_or (ib / 2 ^ 5 * 2 ^ 5 % 2 ^ 8) 25 ≡ ib =
          ap (bit_or (ib / 2 ^ 5 * 2 ^ 5 % 2 ^ 8)) (sym f) ∙ first_byte_of ib hi in
        let da : v / 2 ^ 8 % 2 ^ 8 ≡ a = omega (arith, ha, hb) in
        let db : v % 2 ^ 8 ≡ b = omega (arith, ha, hb) in
        let same : head_bytes (ib / 2 ^ 5) v ≡ ib ∷ (a ∷ (b ∷ [])) =
          rw
            (
              leb-false v 23 (ground (arith, least)),
              leb-false v 255 (ground (arith, least)),
              leb-true v 0xFFFF (omega (arith, ha, hb)),
              head_bytes,
            )
            (λ i. first i ∷ (da i ∷ (db i ∷ []))) in
        (
          ground (arith, e, ai),
          (λ j. head_bytes (sym major j) (sym arg j) ++ drop (total j - 1) (a ∷ (b ∷ (tail))))
              ∙ ap (λ l. l ++ tail) same,
        ))
      rest room

wide4-Shortest :
    (ib : ℕ) (rest : List ℕ) (h : Head)
    → ib < 2 ^ 8
    → ib % 32 ≡ 26
    → 4 ≤ length rest
    → All (λ b. b < 2 ^ 8) rest
    → parse_head (ib ∷ rest) ≡ ok h
    → Shortest ib rest h
unfolding parse_head head_bytes Split
wide4-Shortest ib rest h hi f room =
    split 4 (λ l. All (λ b. b < 2 ^ 8) l → parse_head (ib ∷ l) ≡ ok h → Shortest ib l h)
      (λ a b c d tail hr e.
        let ha = hr.0 in
        let hb = hr.1.0 in
        let hc = hr.1.1.0 in
        let hd = hr.1.1.1.0 in
        let v = ((a * 2 ^ 8 + b) * 2 ^ 8 + c) * 2 ^ 8 + d in
        let ai : bit_and ib 0x1F ≡ 26 = bit_and_31 ib ∙ f in
        let value = value-4 a b c d ha hb hc hd in
        let least : ltb v 65536 ≡ false = ground (arith, e, ai, value) in
        let major : ib / 2 ^ 5 ≡ h.major = ground (arith, e, ai, value, least) in
        let arg : v ≡ h.arg = ground (arith, e, ai, value, least) in
        let total : h.total_bytes ≡ 5 = ground (arith, e, ai, value, least) in
        let first : bit_or (ib / 2 ^ 5 * 2 ^ 5 % 2 ^ 8) 26 ≡ ib =
          ap (bit_or (ib / 2 ^ 5 * 2 ^ 5 % 2 ^ 8)) (sym f) ∙ first_byte_of ib hi in
        let da : v / 2 ^ 24 % 2 ^ 8 ≡ a = omega (arith, ha, hb, hc, hd) in
        let db : v / 2 ^ 16 % 2 ^ 8 ≡ b = omega (arith, ha, hb, hc, hd) in
        let dc : v / 2 ^ 8 % 2 ^ 8 ≡ c = omega (arith, ha, hb, hc, hd) in
        let dd : v % 2 ^ 8 ≡ d = omega (arith, ha, hb, hc, hd) in
        let same : head_bytes (ib / 2 ^ 5) v ≡ ib ∷ (a ∷ (b ∷ (c ∷ (d ∷ [])))) =
          rw
            (
              leb-false v 23 (ground (arith, least)),
              leb-false v 255 (ground (arith, least)),
              leb-false v 0xffff (ground (arith, least)),
              leb-true v 0xFFFF_FFFF (omega (arith, ha, hb, hc, hd)),
              head_bytes,
            )
            (λ i. first i ∷ (da i ∷ (db i ∷ (dc i ∷ (dd i ∷ []))))) in
        (
          ground (arith, e, ai),
          (λ j.
                head_bytes (sym major j) (sym arg j)
                ++ drop (total j - 1) (a ∷ (b ∷ (c ∷ (d ∷ (tail))))))
              ∙ ap (λ l. l ++ tail) same,
        ))
      rest room

wide8-Shortest :
    (ib : ℕ) (rest : List ℕ) (h : Head)
    → ib < 2 ^ 8
    → ib % 32 ≡ 27
    → 8 ≤ length rest
    → All (λ b. b < 2 ^ 8) rest
    → parse_head (ib ∷ rest) ≡ ok h
    → Shortest ib rest h
unfolding parse_head head_bytes Split
wide8-Shortest ib rest h small kind room =
    split 8 (λ l. All (λ b. b < 2 ^ 8) l → parse_head (ib ∷ l) ≡ ok h → Shortest ib l h)
      (λ a b c d e f g i tail hr read.
        let ha = hr.0 in
        let hb = hr.1.0 in
        let hc = hr.1.1.0 in
        let hd = hr.1.1.1.0 in
        let he = hr.1.1.1.1.0 in
        let hf = hr.1.1.1.1.1.0 in
        let hg = hr.1.1.1.1.1.1.0 in
        let hi = hr.1.1.1.1.1.1.1.0 in
        let v =
          ((((((a * 2 ^ 8 + b) * 2 ^ 8 + c) * 2 ^ 8 + d) * 2 ^ 8 + e) * 2 ^ 8 + f) * 2 ^ 8 + g)
            * 2 ^ 8
          + i in
        let ai : bit_and ib 0x1F ≡ 27 = bit_and_31 ib ∙ kind in
        let value = value-8 a b c d e f g i ha hb hc hd he hf hg hi in
        let least : ltb v 4294967296 ≡ false = ground (arith, read, ai, value) in
        let major : ib / 2 ^ 5 ≡ h.major = ground (arith, read, ai, value, least) in
        let arg : v ≡ h.arg = ground (arith, read, ai, value, least) in
        let total : h.total_bytes ≡ 9 = ground (arith, read, ai, value, least) in
        let first : bit_or (ib / 2 ^ 5 * 2 ^ 5 % 2 ^ 8) 27 ≡ ib =
          ap (bit_or (ib / 2 ^ 5 * 2 ^ 5 % 2 ^ 8)) (sym kind) ∙ first_byte_of ib small in
        let da : v / 2 ^ 56 % 2 ^ 8 ≡ a = omega (arith, ha, hb, hc, hd, he, hf, hg, hi) in
        let db : v / 2 ^ 48 % 2 ^ 8 ≡ b = omega (arith, ha, hb, hc, hd, he, hf, hg, hi) in
        let dc : v / 2 ^ 40 % 2 ^ 8 ≡ c = omega (arith, ha, hb, hc, hd, he, hf, hg, hi) in
        let dd : v / 2 ^ 32 % 2 ^ 8 ≡ d = omega (arith, ha, hb, hc, hd, he, hf, hg, hi) in
        let de : v / 2 ^ 24 % 2 ^ 8 ≡ e = omega (arith, ha, hb, hc, hd, he, hf, hg, hi) in
        let df : v / 2 ^ 16 % 2 ^ 8 ≡ f = omega (arith, ha, hb, hc, hd, he, hf, hg, hi) in
        let dg : v / 2 ^ 8 % 2 ^ 8 ≡ g = omega (arith, ha, hb, hc, hd, he, hf, hg, hi) in
        let di : v % 2 ^ 8 ≡ i = omega (arith, ha, hb, hc, hd, he, hf, hg, hi) in
        let same : head_bytes (ib / 2 ^ 5) v
            ≡ ib ∷ (a ∷ (b ∷ (c ∷ (d ∷ (e ∷ (f ∷ (g ∷ (i ∷ [])))))))) =
          rw
            (
              leb-false v 23 (ground (arith, least)),
              leb-false v 255 (ground (arith, least)),
              leb-false v 0xffff (ground (arith, least)),
              leb-false v 0xffffffff (ground (arith, least)),
              head_bytes,
            )
            (λ i.
              first i
              ∷ (da i ∷ (db i ∷ (dc i ∷ (dd i ∷ (de i ∷ (df i ∷ (dg i ∷ (di i ∷ []))))))))) in
        (
          ground (arith, read, ai),
          (λ j.
                head_bytes (sym major j) (sym arg j)
                ++ drop (total j - 1) (a ∷ (b ∷ (c ∷ (d ∷ (e ∷ (f ∷ (g ∷ (i ∷ (tail))))))))))
              ∙ ap (λ l. l ++ tail) same,
        ))
      rest room

-- The reader accepts no head but the shortest: whatever bytes a head is read from, they start with the head
-- that the writer writes for what was read, so that a number, a length or a count has one encoding.
pub parse_head-head_bytes_only :
    (ib : ℕ) (rest : List ℕ) (h : Head)
    → ib < 2 ^ 8
    → All (λ b. b < 2 ^ 8) rest
    → parse_head (ib ∷ rest) ≡ ok h
    → (h.major < 6) × (head_bytes h.major h.arg ++ drop (h.total_bytes - 1) rest ≡ ib ∷ rest)
unfolding parse_head
parse_head-head_bytes_only ib rest h hi hr e =
    let ai : bit_and ib 0x1F ≡ ib % 32 = bit_and_31 ib in
    elim (Bool-cases (leb (ib % 32) 23)) [
      | inl f ↦ short-Shortest ib rest h hi f e
      | inr f ↦ elim (ℕ_discrete (ib % 32) 24) [
        | yes p ↦ wide1-Shortest ib rest h hi p (ground (arith, e, ai, p)) hr e
        | no n24 ↦ elim (ℕ_discrete (ib % 32) 25) [
          | yes p ↦ wide2-Shortest ib rest h hi p (ground (arith, e, ai, p)) hr e
          | no n25 ↦ elim (ℕ_discrete (ib % 32) 26) [
            | yes p ↦ wide4-Shortest ib rest h hi p (ground (arith, e, ai, p)) hr e
            | no n26 ↦ elim (ℕ_discrete (ib % 32) 27) [
              | yes p ↦ wide8-Shortest ib rest h hi p (ground (arith, e, ai, p)) hr e
              | no n27 ↦ absurd (ground (arith, e, ai, f, n24, n25, n26, n27))
            ]
          ]
        ]
      ]
    ]
