-- ===== src/Wire/BlobChunks/Header.antt =====
-- The chunks that `fillBlobChunk` of wire/blob_chunks.hpp writes.
use slop_sync.Base.{
  ℕ, ◌+◌, ◌*◌, ◌/◌, ◌%◌, ◌^◌, ◌≤◌, ◌<◌, ◌≡◌, refl, sym, ap, ◌∙◌, some, List, [], ◌∷◌, ◌++◌, arith,
  ltb-false, leb-false, ==_false, length, take, drop, length-take, length-drop, write_at,
  take-write_at, write_at-append, take_more-append,
}
use slop_sync.Wire.Bytes.{
  at_offset, put_u8, put_u16, put_u32, get_u8, get_u16, get_u32, u16_bytes, u32_bytes, Split, split,
}
use slop_sync.Wire.BlobChunks.{
  BlobChunkHeader, chunk_header_bytes, put_blob_chunk_header, get_blob_chunk_header,
  fill_blob_chunk, slice, BlobId, header_of, payload_length, chunk_count, chunk_payload,
}

-- The fields fit their machine integers.
pub record IsWord (h : BlobChunkHeader) : Type 0 where
  pub ns : h.id.ns < 2 ^ 8
  pub store_id : h.id.store_id < 2 ^ 8
  pub slot : h.id.slot < 2 ^ 8
  pub generation : h.id.generation < 2 ^ 16
  pub chunk_index : h.chunk_index < 2 ^ 16
  pub chunk_count : h.chunk_count < 2 ^ 16
  pub total_bytes : h.total_bytes < 2 ^ 32

-- The part of a header that the receiver compares.
pub record Agrees (g h : BlobChunkHeader) : Type 0 where
  pub ns : g.id.ns ≡ h.id.ns
  pub store_id : g.id.store_id ≡ h.id.store_id
  pub slot : g.id.slot ≡ h.id.slot
  pub chunk_index : g.chunk_index ≡ h.chunk_index
  pub chunk_count : g.chunk_count ≡ h.chunk_count
  pub total_bytes : g.total_bytes ≡ h.total_bytes

unfoldable pub header_bytes_of : BlobChunkHeader → List ℕ
header_bytes_of h =
    h.id.ns % 2 ^ 8
    ∷ (h.id.store_id % 2 ^ 8
        ∷ (h.id.slot % 2 ^ 8
            ∷ (0
                ∷ (h.id.generation % 2 ^ 8
                    ∷ (h.id.generation / 2 ^ 8 % 2 ^ 8
                        ∷ (h.chunk_index % 2 ^ 8
                            ∷ (h.chunk_index / 2 ^ 8 % 2 ^ 8
                                ∷ (h.chunk_count % 2 ^ 8
                                    ∷ (h.chunk_count / 2 ^ 8 % 2 ^ 8
                                        ∷ (h.total_bytes % 2 ^ 8
                                            ∷ (h.total_bytes / 2 ^ 8 % 2 ^ 8
                                                ∷ (h.total_bytes / 2 ^ 16 % 2 ^ 8
                                                    ∷ (h.total_bytes / 2 ^ 24 % 2 ^ 8
                                                        ∷ [])))))))))))))

put_blob_chunk_header-bytes :
    (h : BlobChunkHeader) (out : List ℕ)
    → chunk_header_bytes ≤ length out
    → put_blob_chunk_header out h
      ≡ some (chunk_header_bytes, header_bytes_of h ++ drop chunk_header_bytes out)
unfolding put_blob_chunk_header at_offset put_u8 put_u16 put_u32 header_bytes_of Split
put_blob_chunk_header-bytes h =
    split 14
      (λ out.
        put_blob_chunk_header out h
        ≡ some (chunk_header_bytes, header_bytes_of h ++ drop chunk_header_bytes out))
      (λ a b c d e f g i j k l m n o rest.
        rw
          (ltb-false
            (length (
              a
              ∷ (b ∷ (c ∷ (d ∷ (e ∷ (f ∷ (g ∷ (i ∷ (j ∷ (k ∷ (l ∷ (m ∷ (n ∷ (o ∷ rest)))))))))))))))
            14 (omega arith))
          refl)

pub get_blob_chunk_header-bytes :
    (h : BlobChunkHeader) (rest : List ℕ)
    → IsWord h
    → (g : BlobChunkHeader) × (get_blob_chunk_header (header_bytes_of h ++ rest) ≡ some g)
      × Agrees g h
unfolding get_blob_chunk_header get_u8 get_u16 get_u32 header_bytes_of
get_blob_chunk_header-bytes h rest w =
    rw (ltb-false (length (header_bytes_of h ++ rest)) 14 (omega arith)) (
      _,
      refl,
      record {
        ns = omega (arith, w.ns);
        store_id = omega (arith, w.store_id);
        slot = omega (arith, w.slot);
        chunk_index = u16_bytes h.chunk_index w.chunk_index;
        chunk_count = u16_bytes h.chunk_count w.chunk_count;
        total_bytes = u32_bytes h.total_bytes w.total_bytes;
      },
    )

pub length-slice :
    (encoded : List ℕ) (index : ℕ) → length (slice encoded index) ≡ payload_length encoded index
length-slice encoded index = omega (
  arith,
  length-take (payload_length encoded index) (drop (index * chunk_payload) encoded),
  length-drop (index * chunk_payload) encoded,
)

-- The bytes that a sender of the chunk hands to the transport.
unfoldable pub chunk_bytes : BlobId → List ℕ → ℕ → List ℕ
chunk_bytes id encoded index = header_bytes_of (header_of id encoded index) ++ slice encoded index

-- A chunk within the count is written to the front of any buffer with room for it, and nothing else of
-- it is sent.
pub fill_blob_chunk-bytes :
    (id : BlobId) (encoded : List ℕ) (index : ℕ) (out : List ℕ)
    → index < chunk_count (length encoded)
    → chunk_header_bytes + chunk_payload ≤ length out
    → (n : ℕ) × (buf : List ℕ) × (fill_blob_chunk id encoded index out ≡ some (n, buf))
      × (take n buf ≡ chunk_bytes id encoded index)
unfolding fill_blob_chunk chunk_bytes header_bytes_of
fill_blob_chunk-bytes id encoded index out h room =
    let rest = drop chunk_header_bytes out in
    let header = header_bytes_of (header_of id encoded index) in
    let payload = slice encoded index in
    let sized = length-slice encoded index in
    let fits : length payload ≤ length rest = omega (arith, sized, length-drop 14 out) in
    rw
      (
        ==_false (chunk_count (length encoded)) 0 (omega arith),
        leb-false (chunk_count (length encoded)) index h,
        ltb-false (length out) (chunk_header_bytes + payload_length encoded index) (omega arith),
        put_blob_chunk_header-bytes (header_of id encoded index) out (omega arith),
      )
      (
        chunk_header_bytes + payload_length encoded index,
        write_at 14 payload (header ++ rest),
        refl,
        ap (take (14 + payload_length encoded index)) (write_at-append header payload rest)
            ∙ (take_more-append (payload_length encoded index) header (write_at 0 payload rest)
                ∙ ap (◌++◌ header) (
                    (λ i. take (sym sized i) (write_at 0 payload rest))
                    ∙ take-write_at payload rest fits)),
      )
