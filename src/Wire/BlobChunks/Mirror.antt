-- ===== src/Wire/BlobChunks/Mirror.antt =====
-- The receiver of wire/blob_chunks.hpp holds what it has received.
use slop_sync.Base.{
  ℕ, ◌+◌, ◌-◌, ◌*◌, ◌≤◌, ◌<◌, ◌≡◌, sym, ap, ◌∙◌, subst, ◌≢◌, inl, inr, true, false, List, arith,
  length, get_or, drop, write_at, length-write_at, get_or-write_at, get_or-take, get_or-drop,
}
use native.Mathlib.Decide.{ℕ_discrete}
use slop_sync.Wire.BlobChunks.{
  BlobId, Reassembler, chunk_payload, chunk_count, payload_length, slice, copy_in,
}
use slop_sync.Wire.BlobChunks.Header.{length-slice}
use slop_sync.Wire.BlobChunks.Marks.{
  count_true, Below, marked-cases, count_true-marked, length-marked,
}

-- The receiver of `encoded`: what it has received is the blob's.
pub record Mirrors (id : BlobId) (encoded : List ℕ) (max_chunks : ℕ) (r : Reassembler)
    : Type 0 where
  pub active : r.active ≡ true
  pub sized : length r.buf ≡ max_chunks * chunk_payload
  pub marks : length r.received ≡ max_chunks
  pub target : r.id ≡ id
  pub count : r.chunk_count ≡ chunk_count (length encoded)
  pub total : r.total_bytes ≡ length encoded
  pub counted : r.received_count ≡ count_true r.received
  pub below : Below (chunk_count (length encoded)) r.received
  pub content :
      (i k : ℕ)
      → k < payload_length encoded i
      → get_or r.received i false ≡ true
      → get_or r.buf (i * chunk_payload + k) 0 ≡ get_or encoded (i * chunk_payload + k) 0

get_or-slice :
    (encoded : List ℕ) (i k : ℕ)
    → k < payload_length encoded i
    → get_or (slice encoded i) k 0 ≡ get_or encoded (i * chunk_payload + k) 0
get_or-slice encoded i k h =
    get_or-take (payload_length encoded i) k (drop (i * chunk_payload) encoded) 0 h
    ∙ get_or-drop (i * chunk_payload) k encoded 0

-- A byte of chunk `j` after a chunk was copied in: the same chunk, or another one.
get_or-copied_self :
    (encoded buf : List ℕ) (j k : ℕ)
    → k < payload_length encoded j
    → j * chunk_payload + k < length buf
    → get_or (write_at (j * chunk_payload) (slice encoded j) buf) (j * chunk_payload + k) 0
      ≡ get_or encoded (j * chunk_payload + k) 0
get_or-copied_self encoded buf j k h room =
    let e : j * chunk_payload + k - j * chunk_payload ≡ k = omega arith in
    let at_k = ap (λ t. get_or (slice encoded j) t 0) e ∙ get_or-slice encoded j k h in
    ground (
      arith,
      at_k,
      length-slice encoded j,
      get_or-write_at (j * chunk_payload) (slice encoded j) buf (j * chunk_payload + k) 0 room,
    )

get_or-copied_ne :
    (encoded buf : List ℕ) (i j k : ℕ)
    → i ≢ j
    → k < payload_length encoded j
    → j * chunk_payload + k < length buf
    → get_or (write_at (i * chunk_payload) (slice encoded i) buf) (j * chunk_payload + k) 0
      ≡ get_or buf (j * chunk_payload + k) 0
get_or-copied_ne encoded buf i j k n h room = ground (
  arith,
  length-slice encoded i,
  get_or-write_at (i * chunk_payload) (slice encoded i) buf (j * chunk_payload + k) 0 room,
)

pub copy_in-Mirrors :
    (id : BlobId) (encoded : List ℕ) (max_chunks : ℕ) (r : Reassembler) (i now : ℕ)
    → chunk_count (length encoded) ≤ max_chunks
    → i < chunk_count (length encoded)
    → Mirrors id encoded max_chunks r
    → Mirrors id encoded max_chunks (copy_in r i (slice encoded i) now)
unfolding copy_in
copy_in-Mirrors id encoded max_chunks r i now fits h v = record {
  active = v.active;
  sized = length-write_at (i * chunk_payload) (slice encoded i) r.buf ∙ v.sized;
  marks = length-marked r.received i ∙ v.marks;
  target = v.target;
  count = v.count;
  total = v.total;
  counted = count_true-marked r.received i r.received_count marks v.counted;
  below = λ j e. elim (marked-cases r.received i j marks e) [
    | inl p ↦ omega (arith, h, p)
    | inr old ↦ v.below j old
  ];
  content = λ j k l e. elim (ℕ_discrete i j) [
    | yes p ↦
        subst
          (λ m.
            get_or (write_at (m * chunk_payload) (slice encoded m) r.buf) (j * chunk_payload + k) 0
            ≡ get_or encoded (j * chunk_payload + k) 0)
          (sym p) (get_or-copied_self encoded r.buf j k l (omega (arith, h, p, v.sized)))
    | no n ↦ elim (marked-cases r.received i j marks e) [
      | inl p ↦ absurd (n p)
      | inr old ↦
          get_or-copied_ne encoded r.buf i j k n l (omega (arith, v.below j old, v.sized))
          ∙ v.content j k l old
    ]
  ];
}
  where
    marks : i < length r.received
    marks = omega (arith, v.marks)
