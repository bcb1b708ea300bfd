-- ===== src/Wire/Cbor/BigEndian.antt =====
-- The number that wire/cbor/cbor_reader.hpp reads from the bytes behind the first one of a head.
use slop_sync.Base.{
  ℕ, ◌+◌, ◌*◌, ◌%◌, ◌^◌, ◌<◌, bit_or, ◌≡◌, ap, ◌∙◌, [], ◌∷◌, arith, bit_or_fields, bit_or_comm,
}
use slop_sync.Wire.Cbor.Reader.{big_endian}

pub joined : (v b : ℕ) → v < 2 ^ 56 → b < 2 ^ 8 → bit_or (v * 2 ^ 8 % 2 ^ 64) b ≡ v * 2 ^ 8 + b
joined v b hv hb =
    let whole : v * 2 ^ 8 % 2 ^ 64 ≡ v * 2 ^ 8 = omega (arith, hv) in
    ap (λ t. bit_or t b) whole
    ∙ (bit_or_comm (v * 2 ^ 8) b ∙ (bit_or_fields 8 b v hb ∙ omega arith))

pub value-1 : (a : ℕ) → a < 2 ^ 8 → big_endian 0 (a ∷ []) ≡ a
unfolding big_endian
value-1 a ha = joined 0 a (omega arith) ha ∙ omega arith

pub value-2 : (a b : ℕ) → a < 2 ^ 8 → b < 2 ^ 8 → big_endian 0 (a ∷ (b ∷ [])) ≡ a * 2 ^ 8 + b
unfolding big_endian
value-2 a b ha hb =
    ap (λ t. bit_or (t * 2 ^ 8 % 2 ^ 64) b) (value-1 a ha) ∙ joined (a) b (omega (arith, ha)) hb

pub value-3 :
    (a b c : ℕ)
    → a < 2 ^ 8
    → b < 2 ^ 8
    → c < 2 ^ 8
    → big_endian 0 (a ∷ (b ∷ (c ∷ []))) ≡ (a * 2 ^ 8 + b) * 2 ^ 8 + c
unfolding big_endian
value-3 a b c ha hb hc =
    ap (λ t. bit_or (t * 2 ^ 8 % 2 ^ 64) c) (value-2 a b ha hb)
    ∙ joined (a * 2 ^ 8 + b) c (omega (arith, ha, hb)) hc

pub value-4 :
    (a b c d : ℕ)
    → a < 2 ^ 8
    → b < 2 ^ 8
    → c < 2 ^ 8
    → d < 2 ^ 8
    → big_endian 0 (a ∷ (b ∷ (c ∷ (d ∷ [])))) ≡ ((a * 2 ^ 8 + b) * 2 ^ 8 + c) * 2 ^ 8 + d
unfolding big_endian
value-4 a b c d ha hb hc hd =
    ap (λ t. bit_or (t * 2 ^ 8 % 2 ^ 64) d) (value-3 a b c ha hb hc)
    ∙ joined ((a * 2 ^ 8 + b) * 2 ^ 8 + c) d (omega (arith, ha, hb, hc)) hd

pub value-5 :
    (a b c d e : ℕ)
    → a < 2 ^ 8
    → b < 2 ^ 8
    → c < 2 ^ 8
    → d < 2 ^ 8
    → e < 2 ^ 8
    → big_endian 0 (a ∷ (b ∷ (c ∷ (d ∷ (e ∷ [])))))
      ≡ (((a * 2 ^ 8 + b) * 2 ^ 8 + c) * 2 ^ 8 + d) * 2 ^ 8 + e
unfolding big_endian
value-5 a b c d e ha hb hc hd he =
    ap (λ t. bit_or (t * 2 ^ 8 % 2 ^ 64) e) (value-4 a b c d ha hb hc hd)
    ∙ joined (((a * 2 ^ 8 + b) * 2 ^ 8 + c) * 2 ^ 8 + d) e (omega (arith, ha, hb, hc, hd)) he

pub value-6 :
    (a b c d e f : ℕ)
    → a < 2 ^ 8
    → b < 2 ^ 8
    → c < 2 ^ 8
    → d < 2 ^ 8
    → e < 2 ^ 8
    → f < 2 ^ 8
    → big_endian 0 (a ∷ (b ∷ (c ∷ (d ∷ (e ∷ (f ∷ []))))))
      ≡ ((((a * 2 ^ 8 + b) * 2 ^ 8 + c) * 2 ^ 8 + d) * 2 ^ 8 + e) * 2 ^ 8 + f
unfolding big_endian
value-6 a b c d e f ha hb hc hd he hf =
    ap (λ t. bit_or (t * 2 ^ 8 % 2 ^ 64) f) (value-5 a b c d e ha hb hc hd he)
    ∙ joined ((((a * 2 ^ 8 + b) * 2 ^ 8 + c) * 2 ^ 8 + d) * 2 ^ 8 + e) f
        (omega (arith, ha, hb, hc, hd, he)) hf

pub value-7 :
    (a b c d e f g : ℕ)
    → a < 2 ^ 8
    → b < 2 ^ 8
    → c < 2 ^ 8
    → d < 2 ^ 8
    → e < 2 ^ 8
    → f < 2 ^ 8
    → g < 2 ^ 8
    → big_endian 0 (a ∷ (b ∷ (c ∷ (d ∷ (e ∷ (f ∷ (g ∷ [])))))))
      ≡ (((((a * 2 ^ 8 + b) * 2 ^ 8 + c) * 2 ^ 8 + d) * 2 ^ 8 + e) * 2 ^ 8 + f) * 2 ^ 8 + g
unfolding big_endian
value-7 a b c d e f g ha hb hc hd he hf hg =
    ap (λ t. bit_or (t * 2 ^ 8 % 2 ^ 64) g) (value-6 a b c d e f ha hb hc hd he hf)
    ∙ joined (((((a * 2 ^ 8 + b) * 2 ^ 8 + c) * 2 ^ 8 + d) * 2 ^ 8 + e) * 2 ^ 8 + f) g
        (omega (arith, ha, hb, hc, hd, he, hf)) hg

pub value-8 :
    (a b c d e f g i : ℕ)
    → a < 2 ^ 8
    → b < 2 ^ 8
    → c < 2 ^ 8
    → d < 2 ^ 8
    → e < 2 ^ 8
    → f < 2 ^ 8
    → g < 2 ^ 8
    → i < 2 ^ 8
    → big_endian 0 (a ∷ (b ∷ (c ∷ (d ∷ (e ∷ (f ∷ (g ∷ (i ∷ []))))))))
      ≡ ((((((a * 2 ^ 8 + b) * 2 ^ 8 + c) * 2 ^ 8 + d) * 2 ^ 8 + e) * 2 ^ 8 + f) * 2 ^ 8 + g)
          * 2 ^ 8
        + i
unfolding big_endian
value-8 a b c d e f g i ha hb hc hd he hf hg hi =
    ap (λ t. bit_or (t * 2 ^ 8 % 2 ^ 64) i) (value-7 a b c d e f g ha hb hc hd he hf hg)
    ∙ joined ((((((a * 2 ^ 8 + b) * 2 ^ 8 + c) * 2 ^ 8 + d) * 2 ^ 8 + e) * 2 ^ 8 + f) * 2 ^ 8 + g) i
        (omega (arith, ha, hb, hc, hd, he, hf, hg)) hi
