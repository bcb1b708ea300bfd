-- ===== src/Wire/BlobChunks/Tests.antt =====
-- The theorems on blob transfers at a blob of one chunk.
use slop_sync.Base.{
  ℕ, ◌*◌, ◌<◌, ◌≡◌, refl, inl, true, List, [], ◌∷◌, arith, length, All, length-replicate,
}
use slop_sync.Wire.BlobChunks.{
  BlobId, no_blob, chunk_count, assembled, begin, insert, Reassembler, header_of, new_reassembler,
  complete, copy_in, slice,
}
use slop_sync.Wire.BlobChunks.Generations.{insert_other_generation}
use slop_sync.Wire.BlobChunks.Header.{IsWord, chunk_bytes}
use slop_sync.Wire.BlobChunks.Transfer.{
  Arrives, deliver, assembled-deliver, assembled-complete, begin-Mirrors,
}

abbrev preset : BlobId
preset = record no_blob { ns = 1; store_id = 3; slot = 2; generation = 5 }

abbrev document : List ℕ
document = 11 ∷ (22 ∷ [])

abbrev edited : List ℕ
edited = 33 ∷ (44 ∷ (55 ∷ []))

one_chunk : chunk_count 2 ≡ 1
unfolding chunk_count
one_chunk = refl

abbrev arrivals : List (ℕ × ℕ)
arrivals = (0, 7) ∷ ((0, 9) ∷ [])

within : All (λ (i, now). i < chunk_count (length document)) arrivals
within = (omega (arith, one_chunk), (omega (arith, one_chunk), tt))

each_arrival : (i : ℕ) → i < chunk_count (length document) → Arrives i arrivals
each_arrival i h = inl (omega (arith, h, one_chunk))

abbrev receiver : Reassembler
receiver = new_reassembler 2

receiver_sized : length receiver.buf ≡ 2 * 192
receiver_sized = length-replicate {A = ℕ} 384 0

assembled-deliver_example :
    let begun = begin 2 receiver preset (chunk_count (length document)) (length document) 3 in
    (complete (deliver preset document begun arrivals) ≡ true)
    × (assembled (deliver preset document begun arrivals) ≡ document)
assembled-deliver_example =
    assembled-deliver preset document 2 (omega arith) (omega (arith, one_chunk)) (omega arith)
      (omega arith) (omega arith) (omega arith) receiver 3 arrivals (omega arith) receiver_sized
      within each_arrival

assembled-complete_example :
    assembled (
      deliver preset document
        (begin 2 receiver preset (chunk_count (length document)) (length document) 3)
        arrivals)
    ≡ document
assembled-complete_example =
    assembled-complete preset document 2 (omega arith) (omega (arith, one_chunk)) (omega arith)
      (omega arith) (omega arith) (omega arith) receiver 3 arrivals (omega arith) receiver_sized
      within assembled-deliver_example.0

edited-IsWord : IsWord (header_of (record preset { generation = 6 }) edited 0)
unfolding header_of chunk_count
edited-IsWord = record {
  ns = omega arith;
  store_id = omega arith;
  slot = omega arith;
  generation = omega arith;
  chunk_index = omega arith;
  chunk_count = omega arith;
  total_bytes = omega arith;
}

same_count : chunk_count (length edited) ≡ chunk_count (length document)
unfolding chunk_count
same_count = refl

abbrev begun_receiver : Reassembler
begun_receiver = begin 2 receiver preset (chunk_count (length document)) (length document) 3

insert_other_generation_example :
    insert begun_receiver (chunk_bytes (record preset { generation = 6 }) edited 0) 8
    ≡ (true, copy_in begun_receiver 0 (slice edited 0) 8)
insert_other_generation_example =
    insert_other_generation preset document edited 2 begun_receiver 6 0 8
      (begin-Mirrors preset document 2 (omega arith) (omega (arith, one_chunk)) (omega arith)
        (omega arith) (omega arith) (omega arith) receiver 3 (omega arith) receiver_sized)
      edited-IsWord (omega (arith, one_chunk)) (omega arith) same_count (omega (arith, one_chunk))
