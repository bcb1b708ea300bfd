-- ===== src/Wire/BlobChunks/Transfer.antt =====
-- A whole transfer of wire/blob_chunks.hpp: chunks that arrive in any order, and more than once.
use slop_sync.Base.{
  ℕ, ◌+◌, ◌*◌, ◌/◌, ◌%◌, ◌^◌, ◌≤◌, ◌<◌, ◌≡◌, refl, sym, ap, ◌∙◌, subst, ◌⊎◌, inl, inr, Bool, true,
  false, ◌&&◌, none, some, List, [], ◌∷◌, arith, ltb, leb, ◌==◌, if◌then◌else◌, ltb-false,
  leb-false, ==_true, length, get_or, take, drop, replicate, All, length-replicate, length-take,
  list_ext, get_or-take,
}
use slop_sync.Wire.BlobChunks.{
  BlobId, BlobChunkHeader, Reassembler, chunk_header_bytes, chunk_payload, chunk_count,
  get_blob_chunk_header, same_target, header_of, slice, fill_blob_chunk, begin, insert, copy_in,
  complete, assembled,
}
use slop_sync.Wire.BlobChunks.Header.{
  IsWord, header_bytes_of, get_blob_chunk_header-bytes, chunk_bytes, fill_blob_chunk-bytes,
  length-slice,
}
use slop_sync.Wire.BlobChunks.Marks.{
  count_true_all, count_true_full, get_or-none, count_true-none, get_or-marked,
}
use slop_sync.Wire.BlobChunks.Mirror.{Mirrors, copy_in-Mirrors}

pub insert_accepts :
    (r : Reassembler) (chunk : List ℕ) (now : ℕ) (g : BlobChunkHeader)
    → r.active ≡ true
    → get_blob_chunk_header chunk ≡ some g
    → same_target g.id r.id ≡ true
    → g.chunk_count ≡ r.chunk_count
    → g.chunk_index < r.chunk_count
    → g.chunk_index * chunk_payload + length (drop chunk_header_bytes chunk) ≤ length r.buf
    → insert r chunk now ≡ (true, copy_in r g.chunk_index (drop chunk_header_bytes chunk) now)
unfolding insert
insert_accepts r chunk now g active e same count index room =
    simp
      (
        insert,
        active,
        e,
        same,
        ==_true g.chunk_count r.chunk_count count,
        leb-false r.chunk_count g.chunk_index index,
        ltb-false (length r.buf)
            (g.chunk_index * chunk_payload + length (drop chunk_header_bytes chunk)) room,
      )
      refl

pub same_target-true :
    (a b : BlobId)
    → a.ns ≡ b.ns
    → a.store_id ≡ b.store_id
    → a.slot ≡ b.slot
    → same_target a b ≡ true
unfolding same_target
same_target-true a b p q t = ground arith

-- The payload of a chunk is behind its header.
pub drop-chunk_bytes :
    (id : BlobId) (encoded : List ℕ) (i : ℕ)
    → drop chunk_header_bytes (chunk_bytes id encoded i) ≡ slice encoded i
unfolding chunk_bytes header_bytes_of
drop-chunk_bytes id encoded i = refl

-- What the sender hands over for chunk `i`, and the receiver after a series of arrivals: the numbers
-- of the chunks, with the times.
unfoldable pub sent : BlobId → List ℕ → ℕ → List ℕ
sent id encoded i =
    elim (fill_blob_chunk id encoded i (replicate (chunk_header_bytes + chunk_payload) 0)) [
      | none ↦ []
      | some (n, buf) ↦ take n buf
    ]

unfoldable pub deliver : BlobId → List ℕ → Reassembler → List (ℕ × ℕ) → Reassembler
deliver id encoded r [] = r
deliver id encoded r ((i, now) ∷ arrivals) =
    deliver id encoded (insert r (sent id encoded i) now).1 arrivals

-- Chunk `i` is among the arrivals.
abbrev pub Arrives : ℕ → List (ℕ × ℕ) → Type 0
Arrives i [] = ⊥
Arrives i ((j, now) ∷ arrivals) = (j ≡ i) ⊎ Arrives i arrivals

-- A chunk is taken in by the receiver of its blob.
module _ (id : BlobId) (encoded : List ℕ) (max_chunks : ℕ) (small : max_chunks < 2 ^ 16)
    (fits : chunk_count (length encoded) ≤ max_chunks) (ns : id.ns < 2 ^ 8)
    (store_id : id.store_id < 2 ^ 8) (slot : id.slot < 2 ^ 8)
    (generation : id.generation < 2 ^ 16) where
  length-encoded : length encoded ≤ max_chunks * chunk_payload
  unfolding chunk_count
  length-encoded = ground (arith, fits)

  sent-IsWord : (i : ℕ) → i < chunk_count (length encoded) → IsWord (header_of id encoded i)
  unfolding header_of
  sent-IsWord i h = record {
    ns = ns;
    store_id = store_id;
    slot = slot;
    generation = generation;
    chunk_index = omega arith;
    chunk_count = omega arith;
    total_bytes = omega arith;
  }

  insert-copy_in :
      (r : Reassembler) (i now : ℕ)
      → i < chunk_count (length encoded)
      → Mirrors id encoded max_chunks r
      → insert r (chunk_bytes id encoded i) now ≡ (true, copy_in r i (slice encoded i) now)
  unfolding chunk_bytes header_of
  insert-copy_in r i now h v =
      let (g, e, a) =
        get_blob_chunk_header-bytes (header_of id encoded i) (slice encoded i) (sent-IsWord i h) in
      let payload = drop-chunk_bytes id encoded i in
      let index : g.chunk_index ≡ i = a.chunk_index in
      let sized = ap length payload ∙ length-slice encoded i in
      insert_accepts r (chunk_bytes id encoded i) now g v.active e
        (same_target-true g.id r.id (a.ns ∙ ap (λ b. b.ns) (sym v.target))
          (a.store_id ∙ ap (λ b. b.store_id) (sym v.target))
          (a.slot ∙ ap (λ b. b.slot) (sym v.target)))
        (omega (arith, a.chunk_count, v.count)) (omega (arith, index, v.count))
        (omega (arith, sized, index, v.sized))
      ∙ λ j. (true, copy_in r (index j) (payload j) now)

  sent_bytes :
      (i : ℕ) → i < chunk_count (length encoded) → sent id encoded i ≡ chunk_bytes id encoded i
  unfolding sent
  sent_bytes i h =
      let (n, buf, e, t) = fill_blob_chunk-bytes id encoded i (replicate 206 0) h (omega arith) in
      rw (sent, e) t

  insert-sent :
      (r : Reassembler) (i now : ℕ)
      → i < chunk_count (length encoded)
      → Mirrors id encoded max_chunks r
      → (insert r (sent id encoded i) now).1 ≡ copy_in r i (slice encoded i) now
  insert-sent r i now h v =
      ap (λ c. (insert r c now).1) (sent_bytes i h) ∙ ap (λ a. a.1) (insert-copy_in r i now h v)

  deliver-Mirrors :
      (arrivals : List (ℕ × ℕ)) (r : Reassembler)
      → All (λ (i, now). i < chunk_count (length encoded)) arrivals
      → Mirrors id encoded max_chunks r
      → Mirrors id encoded max_chunks (deliver id encoded r arrivals)
  unfolding deliver
  deliver-Mirrors [] r h v = v
  deliver-Mirrors ((i, now) ∷ arrivals) r (h, hs) v =
      subst (λ r'. Mirrors id encoded max_chunks (deliver id encoded r' arrivals))
        (sym (insert-sent r i now h v))
        (deliver-Mirrors arrivals (copy_in r i (slice encoded i) now) hs
          (copy_in-Mirrors id encoded max_chunks r i now fits h v))

  begins :
      0 < length encoded
      → ltb 0 (chunk_count (length encoded))
          && leb (chunk_count (length encoded)) max_chunks
          && leb (length encoded) (max_chunks * chunk_payload)
        ≡ true
  unfolding chunk_count
  begins some_bytes = ground (arith, fits, length-encoded)

  pub begin-Mirrors :
      (r : Reassembler) (now : ℕ)
      → 0 < length encoded
      → length r.buf ≡ max_chunks * chunk_payload
      → Mirrors id encoded max_chunks
          (begin max_chunks r id (chunk_count (length encoded)) (length encoded) now)
  unfolding begin
  begin-Mirrors r now some_bytes sized =
      let ok = begins some_bytes in
      record {
        active = ok;
        sized = sized;
        marks = length-replicate max_chunks false;
        target = refl;
        count = rw ok refl;
        total = rw ok refl;
        counted = sym (count_true-none max_chunks);
        below = λ i e. absurd (ground (arith, e, get_or-none max_chunks i));
        content = λ i k l e. absurd (ground (arith, e, get_or-none max_chunks i));
      }

  content_at :
      (r : Reassembler) (j : ℕ)
      → Mirrors id encoded max_chunks r
      → ((i : ℕ) → i < chunk_count (length encoded) → get_or r.received i false ≡ true)
      → j < length encoded
      → get_or r.buf j 0 ≡ get_or encoded j 0
  unfolding chunk_count
  content_at r j v all h =
      let e : j / chunk_payload * chunk_payload + j % chunk_payload ≡ j = omega arith in
      (λ i. get_or r.buf (sym e i) 0)
      ∙ (v.content (j / chunk_payload) (j % chunk_payload) (omega arith)
            (all (j / chunk_payload) (ground arith))
          ∙ λ i. get_or encoded (e i) 0)

  assembled-Mirrors :
      (r : Reassembler)
      → Mirrors id encoded max_chunks r
      → complete r ≡ true
      → assembled r ≡ encoded
  unfolding complete assembled
  assembled-Mirrors r v c =
      let fits_in : ltb (length r.buf) r.total_bytes ≡ false =
        ltb-false (length r.buf) r.total_bytes (omega (arith, v.sized, v.total, length-encoded)) in
      let counted : r.received_count ≡ r.chunk_count = ground arith in
      let all =
        count_true_all r.received (chunk_count (length encoded)) v.below
          (omega (arith, v.counted, v.count, counted)) in
      let taken = length-take r.total_bytes r.buf in
      simp (v.active, fits_in)
        (list_ext (take r.total_bytes r.buf) encoded 0
          (omega (arith, taken, v.total, v.sized, length-encoded))
          (λ j h.
            get_or-take r.total_bytes j r.buf 0 (omega (arith, taken, h))
            ∙ content_at r j v all (omega (arith, taken, v.total, h))))

  deliver-received :
      (arrivals : List (ℕ × ℕ)) (r : Reassembler) (i : ℕ)
      → All (λ (j, now). j < chunk_count (length encoded)) arrivals
      → Mirrors id encoded max_chunks r
      → (get_or r.received i false ≡ true) ⊎ Arrives i arrivals
      → get_or (deliver id encoded r arrivals).received i false ≡ true
  unfolding deliver copy_in
  deliver-received [] r i h v (inl e) = e
  deliver-received [] r i h v (inr a) = absurd a
  deliver-received ((j, now) ∷ arrivals) r i (h, hs) v a =
      let r' = copy_in r j (slice encoded j) now in
      let marks : j < length r.received = omega (arith, h, v.marks) in
      subst (λ q. get_or (deliver id encoded q arrivals).received i false ≡ true)
        (sym (insert-sent r j now h v))
        (deliver-received arrivals r' i hs (copy_in-Mirrors id encoded max_chunks r j now fits h v)
          (carried (get_or-marked r.received j i marks) a))
    where
      carried :
          {b : Bool}
          → b ≡ (if j == i then true else get_or r.received i false)
          → (get_or r.received i false ≡ true) ⊎ ((j ≡ i) ⊎ Arrives i arrivals)
          → (b ≡ true) ⊎ Arrives i arrivals
      carried e (inl old) = inl (e ∙ ground (arith, old))
      carried e (inr (inl p)) = inl (e ∙ (rw (==_true j i p) refl))
      carried e (inr (inr later)) = inr later

  -- For an identity of machine integers and a receiver of fewer than 2 ^ 16 chunks: after a transfer is
  -- begun for a blob that is not empty and fits the receiver, and chunks of it arrive, in any order and
  -- any number of times, if every chunk is among them, the transfer is complete, and what it assembled
  -- is the blob.
  pub assembled-deliver :
      (r : Reassembler) (now : ℕ) (arrivals : List (ℕ × ℕ))
      → 0 < length encoded
      → length r.buf ≡ max_chunks * chunk_payload
      → All (λ (i, now). i < chunk_count (length encoded)) arrivals
      → ((i : ℕ) → i < chunk_count (length encoded) → Arrives i arrivals)
      → let begun = begin max_chunks r id (chunk_count (length encoded)) (length encoded) now in
        (complete (deliver id encoded begun arrivals) ≡ true)
        × (assembled (deliver id encoded begun arrivals) ≡ encoded)
  unfolding complete
  assembled-deliver r now arrivals some_bytes sized within every =
      let begun = begin max_chunks r id (chunk_count (length encoded)) (length encoded) now in
      let started = begin-Mirrors r now some_bytes sized in
      let v = deliver-Mirrors arrivals begun within started in
      let full =
        count_true_full (deliver id encoded begun arrivals).received (chunk_count (length encoded))
          v.below (λ i h. deliver-received arrivals begun i within started (inr (every i h))) in
      let done : complete (deliver id encoded begun arrivals) ≡ true =
        rw (complete, v.active)
          (==_true (deliver id encoded begun arrivals).received_count
            (deliver id encoded begun arrivals).chunk_count
            (omega (arith, v.counted, v.count, full))) in
      (done, assembled-Mirrors (deliver id encoded begun arrivals) v done)

  -- For an identity of machine integers and a receiver of fewer than 2 ^ 16 chunks: a transfer that was
  -- begun for a blob that is not empty and fits the receiver, and that says it is complete, has
  -- assembled the blob, whichever chunks of it arrived, in whatever order.
  pub assembled-complete :
      (r : Reassembler) (now : ℕ) (arrivals : List (ℕ × ℕ))
      → 0 < length encoded
      → length r.buf ≡ max_chunks * chunk_payload
      → All (λ (i, now). i < chunk_count (length encoded)) arrivals
      → let end =
          deliver id encoded
            (begin max_chunks r id (chunk_count (length encoded)) (length encoded) now)
            arrivals in
        complete end ≡ true → assembled end ≡ encoded
  assembled-complete r now arrivals some_bytes sized within done =
      assembled-Mirrors _ (deliver-Mirrors arrivals _ within (begin-Mirrors r now some_bytes sized))
        done
