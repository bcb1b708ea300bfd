-- ===== src/Wire/Cbor/Head.antt =====
-- The heads of wire/cbor/ in both directions.
use slop_sync.Base.{
  ℕ, suc, ◌+◌, ◌*◌, ◌/◌, ◌%◌, ◌^◌, ◌<◌, bit_and, bit_or, ◌≡◌, refl, ap, ◌∙◌, inl, inr, List, [],
  ◌∷◌, ◌++◌, arith, leb, ltb-false, ==_false, Bool-cases, length, bit_or_fields, bit_or_comm,
  bit_and_31,
}
use slop_sync.Result.{ok}
use slop_sync.Wire.Cbor.Writer.{head_bytes, float_bytes}
use slop_sync.Wire.Cbor.Reader.{parse_head, big_endian, big_endian32, float32_kind, parse_simple}

-- The two fields of a head's first byte.
first_byte :
    (major a : ℕ)
    → major < 8
    → a < 32
    → (bit_or (major * 2 ^ 5 % 2 ^ 8) a / 2 ^ 5 ≡ major)
      × (bit_and (bit_or (major * 2 ^ 5 % 2 ^ 8) a) 0x1F ≡ a)
first_byte major a hm ha =
    let whole : major * 2 ^ 5 % 2 ^ 8 ≡ major * 2 ^ 5 = omega (arith, hm) in
    let sum : bit_or (major * 2 ^ 5 % 2 ^ 8) a ≡ a + major * 32 =
      ap (λ t. bit_or t a) whole ∙ (bit_or_comm (major * 2 ^ 5) a ∙ bit_or_fields 5 a major ha) in
    (
      ap (λ t. t / 32) sum ∙ omega (arith, ha),
      ap (λ t. bit_and t 31) sum ∙ (bit_and_31 (a + major * 32) ∙ omega (arith, ha)),
    )

-- A byte more in a big-endian number that still fits.
next_byte : (v b : ℕ) → v < 2 ^ 56 → b < 2 ^ 8 → bit_or (v * 2 ^ 8 % 2 ^ 64) b ≡ v * 2 ^ 8 + b
next_byte v b hv hb =
    let whole : v * 2 ^ 8 % 2 ^ 64 ≡ v * 2 ^ 8 = omega (arith, hv) in
    ap (λ t. bit_or t b) whole
    ∙ (bit_or_comm (v * 2 ^ 8) b ∙ (bit_or_fields 8 b v hb ∙ omega arith))

next_digit : (v k : ℕ) → v / 2 ^ 8 < 2 ^ 56 → bit_or (v / 2 ^ 8 * 2 ^ 8 % 2 ^ 64) (v % 2 ^ 8) ≡ v
next_digit v k h = next_byte (v / 2 ^ 8) (v % 2 ^ 8) h (omega arith) ∙ omega arith

-- The digits of a number, read back.
big_endian_digit :
    (u v : ℕ) (rest : List ℕ)
    → u ≡ v / 2 ^ 8
    → u < 2 ^ 56
    → big_endian u (v % 2 ^ 8 ∷ rest) ≡ big_endian v rest
unfolding big_endian
big_endian_digit u v rest e h =
    ap (λ t. big_endian t rest) (next_byte u (v % 2 ^ 8) h (omega arith) ∙ omega (arith, e))

big_endian-1 : (v : ℕ) → v < 2 ^ 8 → big_endian 0 (v % 2 ^ 8 ∷ []) ≡ v
unfolding big_endian
big_endian-1 v h = big_endian_digit 0 v [] (omega (arith, h)) (omega arith)

big_endian-2 : (v : ℕ) → v < 2 ^ 16 → big_endian 0 (v / 2 ^ 8 % 2 ^ 8 ∷ (v % 2 ^ 8 ∷ [])) ≡ v
unfolding big_endian
big_endian-2 v h =
    big_endian_digit 0 (v / 2 ^ 8) (v % 2 ^ 8 ∷ []) (omega (arith, h)) (omega arith)
    ∙ big_endian_digit (v / 2 ^ 8) v [] refl (omega (arith, h))

big_endian-4 :
    (v : ℕ)
    → v < 2 ^ 32
    → big_endian 0
        (v / 2 ^ 24 % 2 ^ 8 ∷ (v / 2 ^ 16 % 2 ^ 8 ∷ (v / 2 ^ 8 % 2 ^ 8 ∷ (v % 2 ^ 8 ∷ []))))
      ≡ v
unfolding big_endian
big_endian-4 v h =
    let d3 : List ℕ = v % 2 ^ 8 ∷ [] in
    let d2 : List ℕ = v / 2 ^ 8 % 2 ^ 8 ∷ d3 in
    let d1 : List ℕ = v / 2 ^ 16 % 2 ^ 8 ∷ d2 in
    big_endian_digit 0 (v / 2 ^ 24) d1 (omega (arith, h)) (omega arith)
    ∙ (big_endian_digit (v / 2 ^ 24) (v / 2 ^ 16) d2 (omega arith) (omega (arith, h))
        ∙ (big_endian_digit (v / 2 ^ 16) (v / 2 ^ 8) d3 (omega arith) (omega (arith, h))
            ∙ (big_endian_digit (v / 2 ^ 8) v [] (omega arith) (omega (arith, h)))))

big_endian-8 :
    (v : ℕ)
    → v < 2 ^ 64
    → big_endian 0 (
        v / 2 ^ 56 % 2 ^ 8
        ∷ (v / 2 ^ 48 % 2 ^ 8
            ∷ (v / 2 ^ 40 % 2 ^ 8
                ∷ (v / 2 ^ 32 % 2 ^ 8
                    ∷ (v / 2 ^ 24 % 2 ^ 8
                        ∷ (v / 2 ^ 16 % 2 ^ 8 ∷ (v / 2 ^ 8 % 2 ^ 8 ∷ (v % 2 ^ 8 ∷ []))))))))
      ≡ v
unfolding big_endian
big_endian-8 v h =
    let d7 : List ℕ = v % 2 ^ 8 ∷ [] in
    let d6 : List ℕ = v / 2 ^ 8 % 2 ^ 8 ∷ d7 in
    let d5 : List ℕ = v / 2 ^ 16 % 2 ^ 8 ∷ d6 in
    let d4 : List ℕ = v / 2 ^ 24 % 2 ^ 8 ∷ d5 in
    let d3 : List ℕ = v / 2 ^ 32 % 2 ^ 8 ∷ d4 in
    let d2 : List ℕ = v / 2 ^ 40 % 2 ^ 8 ∷ d3 in
    let d1 : List ℕ = v / 2 ^ 48 % 2 ^ 8 ∷ d2 in
    big_endian_digit 0 (v / 2 ^ 56) d1 (omega (arith, h)) (omega arith)
    ∙ (big_endian_digit (v / 2 ^ 56) (v / 2 ^ 48) d2 (omega arith) (omega (arith, h))
        ∙ (big_endian_digit (v / 2 ^ 48) (v / 2 ^ 40) d3 (omega arith) (omega (arith, h))
            ∙ (big_endian_digit (v / 2 ^ 40) (v / 2 ^ 32) d4 (omega arith) (omega (arith, h))
                ∙ (big_endian_digit (v / 2 ^ 32) (v / 2 ^ 24) d5 (omega arith) (omega (arith, h))
                    ∙ (big_endian_digit (v / 2 ^ 24) (v / 2 ^ 16) d6 (omega arith)
                          (omega (arith, h))
                        ∙ (big_endian_digit (v / 2 ^ 16) (v / 2 ^ 8) d7 (omega arith)
                              (omega (arith, h))
                            ∙ (big_endian_digit (v / 2 ^ 8) v [] (omega arith)
                                (omega (arith, h)))))))))

-- A head that the writer writes is read back, with its size.
pub parse_head-head_bytes :
    (major v : ℕ) (rest : List ℕ)
    → major < 6
    → v < 2 ^ 64
    → parse_head (head_bytes major v ++ rest)
      ≡ ok (record { major = major; arg = v; total_bytes = length (head_bytes major v) })
unfolding parse_head head_bytes
parse_head-head_bytes major v rest hm hv =
    let no_tag = ==_false major 6 (λ e. absurd (omega (arith, hm, e))) in
    let no_simple = ==_false major 7 (λ e. absurd (omega (arith, hm, e))) in
    elim (Bool-cases (leb v 23)) [
      | inl e ↦
          let (m, a) = first_byte major v (omega (arith, hm)) (ground (arith, e)) in
          simp (e, m, a, no_tag, no_simple) refl
      | inr e ↦ elim (Bool-cases (leb v 0xFF)) [
        | inl f ↦
            let (m, a) = first_byte major 24 (omega (arith, hm)) (omega arith) in
            let read = big_endian-1 v (ground (arith, f)) in
            simp (e, f, m, a, no_tag, no_simple, read, ltb-false v 24 (ground (arith, e)))
              (rw (ltb-false (suc (length rest)) 1 (omega arith)) refl)
        | inr f ↦ elim (Bool-cases (leb v 0xFFFF)) [
          | inl g ↦
              let (m, a) = first_byte major 25 (omega (arith, hm)) (omega arith) in
              let read = big_endian-2 v (ground (arith, g)) in
              simp (e, f, g, m, a, no_tag, no_simple, read, ltb-false v 256 (ground (arith, f)))
                (rw (ltb-false (suc (suc (length rest))) 2 (omega arith)) refl)
          | inr g ↦ elim (Bool-cases (leb v 0xFFFF_FFFF)) [
            | inl k ↦
                let (m, a) = first_byte major 26 (omega (arith, hm)) (omega arith) in
                let read = big_endian-4 v (ground (arith, k)) in
                simp
                  (e, f, g, k, m, a, no_tag, no_simple, read, ltb-false v 65536 (ground (arith, g)))
                  (rw (ltb-false (suc (suc (suc (suc (length rest))))) 4 (omega arith)) refl)
            | inr k ↦
                let (m, a) = first_byte major 27 (omega (arith, hm)) (omega arith) in
                let read = big_endian-8 v (hv) in
                simp
                  (
                    e,
                    f,
                    g,
                    k,
                    m,
                    a,
                    no_tag,
                    no_simple,
                    read,
                    ltb-false v 4294967296 (ground (arith, k)),
                  )
                  (rw
                    (ltb-false (suc (suc (suc (suc (suc (suc (suc (suc (length rest))))))))) 8
                      (omega arith))
                    refl)
          ]
        ]
      ]
    ]

big_endian32_digit :
    (u v : ℕ) (rest : List ℕ)
    → u ≡ v / 2 ^ 8
    → u < 2 ^ 24
    → big_endian32 u (v % 2 ^ 8 ∷ rest) ≡ big_endian32 v rest
unfolding big_endian32
big_endian32_digit u v rest e h =
    let whole : u * 2 ^ 8 % 2 ^ 32 ≡ u * 2 ^ 8 = omega (arith, h) in
    let sum : bit_or (u * 2 ^ 8) (v % 2 ^ 8) ≡ v =
      bit_or_comm (u * 2 ^ 8) (v % 2 ^ 8)
      ∙ (bit_or_fields 8 (v % 2 ^ 8) u (omega arith) ∙ omega (arith, e)) in
    ap (λ t. big_endian32 t rest) (ap (λ t. bit_or t (v % 2 ^ 8)) whole ∙ sum)

-- A float's bit pattern is read back.
pub parse_simple-float_bytes :
    (bits : ℕ) (rest : List ℕ)
    → bits < 2 ^ 32
    → parse_simple (float_bytes bits ++ rest)
      ≡ ok (record { kind = float32_kind; float_bits = bits; total_bytes = 5 })
unfolding parse_simple float_bytes big_endian32
parse_simple-float_bytes bits rest h =
    let d3 : List ℕ = bits % 2 ^ 8 ∷ [] in
    let d2 : List ℕ = bits / 2 ^ 8 % 2 ^ 8 ∷ d3 in
    let d1 : List ℕ = bits / 2 ^ 16 % 2 ^ 8 ∷ d2 in
    let read : big_endian32 0 (bits / 2 ^ 24 % 2 ^ 8 ∷ d1) ≡ bits =
      big_endian32_digit 0 (bits / 2 ^ 24) d1 (omega (arith, h)) (omega arith)
      ∙ (big_endian32_digit (bits / 2 ^ 24) (bits / 2 ^ 16) d2 (omega arith) (omega (arith, h))
          ∙ (big_endian32_digit (bits / 2 ^ 16) (bits / 2 ^ 8) d3 (omega arith) (omega (arith, h))
              ∙ big_endian32_digit (bits / 2 ^ 8) bits [] refl (omega (arith, h)))) in
    rw (ltb-false (suc (suc (suc (suc (length rest))))) 4 (omega arith), parse_simple)
      (λ i. ok (record { kind = float32_kind; float_bits = read i; total_bytes = 5 }))
