-- ===== src/Wire/Raw/RoundTrip.antt =====
-- The fixed layouts of wire/raw/ in both directions.
use slop_sync.Base.{
  take_all, ℕ, ◌/◌, ◌%◌, ◌^◌, ◌≤◌, ◌<◌, ◌≡◌, refl, sym, ap, ◌∙◌, some, List, ◌∷◌, arith, ltb-false,
  ==_true, length, take, drop, write_at, take-write_at,
}
use slop_sync.Result.{ok}
use slop_sync.Wire.Bytes.{
  at_offset, put_u16, put_u32, get_u16, get_u32, u16_bytes, u32_bytes, Split, split,
}
use slop_sync.Wire.Raw.{
  AckMask, ClockReply, ack_mask_bytes, clock_reply_bytes, encode_ack_mask, decode_ack_mask,
  encode_clock_reply, decode_clock_reply, encode_catalog_ready, decode_catalog_ready,
  catalog_ready_bytes,
}

-- An acknowledgement mask of machine integers is encoded into any buffer of at least 6 bytes, which
-- then decodes to the mask; the bytes behind it are kept.
pub decode_ack_mask-encode :
    (m : AckMask) (out : List ℕ)
    → m.base_seq < 2 ^ 16
    → m.mask < 2 ^ 32
    → ack_mask_bytes ≤ length out
    → (buf : List ℕ) × (encode_ack_mask m out ≡ some (ack_mask_bytes, buf))
      × (drop ack_mask_bytes buf ≡ drop ack_mask_bytes out)
      × (decode_ack_mask buf ≡ ok m)
unfolding encode_ack_mask decode_ack_mask at_offset put_u16 put_u32 get_u16 get_u32 Split
decode_ack_mask-encode m out b k room =
    split 6
      (λ out.
        (buf : List ℕ) × (encode_ack_mask m out ≡ some (ack_mask_bytes, buf))
        × (drop ack_mask_bytes buf ≡ drop ack_mask_bytes out)
        × (decode_ack_mask buf ≡ ok m))
      (λ a0 a1 a2 a3 a4 a5 rest.
        let wide =
          ltb-false (length (a0 ∷ (a1 ∷ (a2 ∷ (a3 ∷ (a4 ∷ (a5 ∷ rest))))))) 6 (omega arith) in
        (
          m.base_seq % 2 ^ 8
              ∷ (m.base_seq / 2 ^ 8 % 2 ^ 8
                  ∷ (m.mask % 2 ^ 8
                      ∷ (m.mask / 2 ^ 8 % 2 ^ 8
                          ∷ (m.mask / 2 ^ 16 % 2 ^ 8 ∷ (m.mask / 2 ^ 24 % 2 ^ 8 ∷ rest))))),
          rw wide refl,
          refl,
          rw wide (λ i.
              ok (record { base_seq = u16_bytes m.base_seq b i; mask = u32_bytes m.mask k i })),
        ))
      out room

-- A clock reply of machine integers is encoded into any buffer of at least 12 bytes, which then decodes
-- to the reply; the bytes behind it are kept.
pub decode_clock_reply-encode :
    (r : ClockReply) (out : List ℕ)
    → r.t0 < 2 ^ 32
    → r.t1 < 2 ^ 32
    → r.t2 < 2 ^ 32
    → clock_reply_bytes ≤ length out
    → (buf : List ℕ) × (encode_clock_reply r out ≡ some (clock_reply_bytes, buf))
      × (drop clock_reply_bytes buf ≡ drop clock_reply_bytes out)
      × (decode_clock_reply buf ≡ ok r)
unfolding encode_clock_reply decode_clock_reply at_offset put_u32 get_u32 Split
decode_clock_reply-encode r out h0 h1 h2 room =
    split 12
      (λ out.
        (buf : List ℕ) × (encode_clock_reply r out ≡ some (clock_reply_bytes, buf))
        × (drop clock_reply_bytes buf ≡ drop clock_reply_bytes out)
        × (decode_clock_reply buf ≡ ok r))
      (λ a0 a1 a2 a3 a4 a5 a6 a7 a8 a9 b0 b1 rest.
        let wide =
          ltb-false
            (length (
              a0
              ∷ (a1 ∷ (a2 ∷ (a3 ∷ (a4 ∷ (a5 ∷ (a6 ∷ (a7 ∷ (a8 ∷ (a9 ∷ (b0 ∷ (b1 ∷ rest)))))))))))))
            12 (omega arith) in
        (
          r.t0 % 2 ^ 8
              ∷ (r.t0 / 2 ^ 8 % 2 ^ 8
                  ∷ (r.t0 / 2 ^ 16 % 2 ^ 8
                      ∷ (r.t0 / 2 ^ 24 % 2 ^ 8
                          ∷ (r.t1 % 2 ^ 8
                              ∷ (r.t1 / 2 ^ 8 % 2 ^ 8
                                  ∷ (r.t1 / 2 ^ 16 % 2 ^ 8
                                      ∷ (r.t1 / 2 ^ 24 % 2 ^ 8
                                          ∷ (r.t2 % 2 ^ 8
                                              ∷ (r.t2 / 2 ^ 8 % 2 ^ 8
                                                  ∷ (r.t2 / 2 ^ 16 % 2 ^ 8
                                                      ∷ (r.t2 / 2 ^ 24 % 2 ^ 8 ∷ rest))))))))))),
          rw wide refl,
          refl,
          rw wide (λ i. ok (record {
            t0 = u32_bytes r.t0 h0 i;
            t1 = u32_bytes r.t1 h1 i;
            t2 = u32_bytes r.t2 h2 i;
          })),
        ))
      out room

-- A catalog tag is announced exactly where it has 8 bytes and they fit the buffer; the payload is then
-- the tag, and it is read back.
pub decode_catalog_ready-encode :
    (etag out : List ℕ)
    → length etag ≡ catalog_ready_bytes
    → catalog_ready_bytes ≤ length out
    → (buf : List ℕ) × (encode_catalog_ready etag out ≡ some (catalog_ready_bytes, buf))
      × (decode_catalog_ready (take catalog_ready_bytes buf) ≡ some etag)
unfolding encode_catalog_ready decode_catalog_ready
decode_catalog_ready-encode etag out size room =
    let written : take 8 (write_at 0 etag out) ≡ etag =
      ap (λ n. take n (write_at 0 etag out)) (sym size)
      ∙ take-write_at etag out (omega (arith, size)) in
    let eight = ==_true (length etag) catalog_ready_bytes size in
    let all : take 8 etag ≡ etag = ap (λ n. take n etag) (sym size) ∙ take_all etag in
    (
      write_at 0 etag out,
      rw (eight, ltb-false (length out) 8 room) refl,
      rw (written, eight, all) refl,
    )
