-- ===== src/Wire/BlobChunks/Generations.antt =====
-- What `insert` of wire/blob_chunks.hpp does with a chunk of another generation of its blob.
use slop_sync.Base.{ℕ, ◌^◌, ◌≤◌, ◌<◌, ◌≡◌, sym, ap, ◌∙◌, true, List, arith, length}
use slop_sync.Wire.BlobChunks.{BlobId, Reassembler, chunk_count, header_of, slice, insert, copy_in}
use slop_sync.Wire.BlobChunks.Header.{
  IsWord, get_blob_chunk_header-bytes, chunk_bytes, length-slice,
}
use slop_sync.Wire.BlobChunks.Mirror.{Mirrors}
use slop_sync.Wire.BlobChunks.Transfer.{insert_accepts, same_target-true, drop-chunk_bytes}

-- A receiver of fewer than 2 ^ 16 chunks in a transfer takes in a chunk, with a header of machine
-- integers, of other contents and of any generation, where its namespace, store, slot and chunk count
-- are the transfer's: it is not reported as stale.
pub insert_other_generation :
    (id : BlobId) (encoded encoded' : List ℕ) (max_chunks : ℕ) (r : Reassembler)
    (generation i now : ℕ)
    → Mirrors id encoded max_chunks r
    → IsWord (header_of (record id { generation = generation }) encoded' i)
    → chunk_count (length encoded) ≤ max_chunks
    → max_chunks < 2 ^ 16
    → chunk_count (length encoded') ≡ chunk_count (length encoded)
    → i < chunk_count (length encoded)
    → insert r (chunk_bytes (record id { generation = generation }) encoded' i) now
      ≡ (true, copy_in r i (slice encoded' i) now)
unfolding chunk_bytes header_of
insert_other_generation id encoded encoded' max_chunks r generation i now v w fits small same h =
    let id' = record id { generation = generation } in
    let (g, e, a) = get_blob_chunk_header-bytes (header_of id' encoded' i) (slice encoded' i) w in
    let payload = drop-chunk_bytes id' encoded' i in
    let index : g.chunk_index ≡ i = a.chunk_index in
    let sized = ap length payload ∙ length-slice encoded' i in
    insert_accepts r (chunk_bytes id' encoded' i) now g v.active e
      (same_target-true g.id r.id (a.ns ∙ ap (λ b. b.ns) (sym v.target))
        (a.store_id ∙ ap (λ b. b.store_id) (sym v.target))
        (a.slot ∙ ap (λ b. b.slot) (sym v.target)))
      (omega (arith, a.chunk_count, v.count, same)) (omega (arith, index, v.count))
      (omega (arith, sized, index, v.sized))
    ∙ λ j. (true, copy_in r (index j) (payload j) now)
