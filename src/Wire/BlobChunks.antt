-- ===== src/Wire/BlobChunks.antt =====
-- wire/blob_chunks.hpp: a blob in numbered chunks, and the receiver that puts them together; with the
-- identity of a blob from wire/messages/blob_req.hpp.
pub mod Header
pub mod Marks
pub mod Mirror
pub mod Transfer
pub mod Generations
mod Tests
use slop_sync.Base.{
  ℕ, zero, suc, ◌+◌, ◌-◌, ◌*◌, ◌/◌, ◌%◌, ◌^◌, ◌≤◌, ◌<◌, min, bit_and, bit_or, bit_xor, ◌≡◌, refl,
  sym, ap, ◌∙◌, subst, ◌≢◌, ◌↔◌, ◌⊎◌, inl, inr, Bool, true, false, not, ◌&&◌, ◌||◌, Option, none,
  some, List, [], ◌∷◌, ◌++◌, map, append-nil, append_assoc, arith, ltb, leb, ◌==◌, if◌then◌else◌,
  ==_iff, ltb-true, ltb-false, leb-true, leb-false, ==_true, ==_false, Bool-cases, Option-cases,
  length, get_elem?, get_or, set, take, drop, replicate, All, length-append, length-replicate,
  length-set, get_or-set_self, get_or-set_ne, take-append-drop, length-take, length-drop,
  drop-append, set-append, list_ext, write_at, length-write_at, get_or-write_at, take-write_at,
  drop-write_at, wrap-ne, wrap_round, wrap_add, wrap_next,
}
use slop_sync.Util.Serial.{u16_mod, u32_mod, time_reached}
use slop_sync.Wire.Bytes.{at_offset, put_u8, put_u16, put_u32, get_u8, get_u16, get_u32}

abbrev pub chunk_header_bytes : ℕ
chunk_header_bytes = 14

abbrev pub chunk_payload : ℕ
chunk_payload = 192

abbrev pub reassembly_timeout_ms : ℕ
reassembly_timeout_ms = 5000

abbrev pub chunk_gap_timeout_ms : ℕ
chunk_gap_timeout_ms = 500

pub record BlobId : Type 0 where
  pub ns : ℕ
  pub has_store_id : Bool
  pub store_id : ℕ
  pub has_slot : Bool
  pub slot : ℕ
  pub has_generation : Bool
  pub generation : ℕ

abbrev pub no_blob : BlobId
no_blob = record {
  ns = 0;
  has_store_id = false;
  store_id = 0;
  has_slot = false;
  slot = 0;
  has_generation = false;
  generation = 0;
}

unfoldable pub is_catalog : ℕ → Bool
is_catalog ns = ns == 0

unfoldable pub same_target : BlobId → BlobId → Bool
same_target a b = a.ns == b.ns && (a.store_id == b.store_id) && (a.slot == b.slot)

pub record BlobChunkHeader : Type 0 where
  pub id : BlobId
  pub chunk_index : ℕ
  pub chunk_count : ℕ
  pub total_bytes : ℕ

unfoldable pub chunk_count : ℕ → ℕ
chunk_count total = if total == 0 then 0 else (total + chunk_payload - 1) / chunk_payload

-- `none` is the answer 0.
unfoldable pub put_blob_chunk_header : List ℕ → BlobChunkHeader → Option (ℕ × List ℕ)
unfolding at_offset put_u8 put_u16 put_u32
put_blob_chunk_header out h =
    if ltb (length out) chunk_header_bytes
    then none
    else (let a = put_u8 h.id.ns out in
        let b = at_offset 1 (put_u8 h.id.store_id) a in
        let c = at_offset 2 (put_u8 h.id.slot) b in
        let d = at_offset 3 (put_u8 0) c in
        let e = at_offset 4 (put_u16 h.id.generation) d in
        let f = at_offset 6 (put_u16 h.chunk_index) e in
        let g = at_offset 8 (put_u16 h.chunk_count) f in
        some (chunk_header_bytes, at_offset 10 (put_u32 h.total_bytes) g))

unfoldable pub get_blob_chunk_header : List ℕ → Option BlobChunkHeader
unfolding get_u8 get_u16 get_u32 is_catalog
get_blob_chunk_header bytes =
    if ltb (length bytes) chunk_header_bytes
    then none
    else (let ns = get_u8 bytes in
        let generation = get_u16 (drop 4 bytes) in
        some (record {
          id = record {
            ns = ns;
            has_store_id = not (is_catalog ns);
            store_id = get_u8 (drop 1 bytes);
            has_slot = not (is_catalog ns);
            slot = get_u8 (drop 2 bytes);
            has_generation = not (generation == 0);
            generation = generation;
          };
          chunk_index = get_u16 (drop 6 bytes);
          chunk_count = get_u16 (drop 8 bytes);
          total_bytes = get_u32 (drop 10 bytes);
        }))

-- The header of chunk `index`, with the conversions to its field widths.
unfoldable pub header_of : BlobId → List ℕ → ℕ → BlobChunkHeader
unfolding chunk_count
header_of id encoded index = record {
  id = id;
  chunk_index = index;
  chunk_count = chunk_count (length encoded) % u16_mod;
  total_bytes = length encoded % u32_mod;
}

abbrev pub payload_length : List ℕ → ℕ → ℕ
payload_length encoded index = min (length encoded - index * chunk_payload) chunk_payload

-- The bytes of chunk `index`.
abbrev pub slice : List ℕ → ℕ → List ℕ
slice encoded index = take (payload_length encoded index) (drop (index * chunk_payload) encoded)

unfoldable pub fill_blob_chunk : BlobId → List ℕ → ℕ → List ℕ → Option (ℕ × List ℕ)
unfolding chunk_count put_blob_chunk_header header_of
fill_blob_chunk id encoded index out =
    let cc = chunk_count (length encoded) in
    let total = chunk_header_bytes + payload_length encoded index in
    if cc == 0 || leb cc index
    then none
    else if ltb (length out) total
    then none
    else elim (put_blob_chunk_header out (header_of id encoded index)) [
      | none ↦ none
      | some (n, out') ↦ some (total, write_at chunk_header_bytes (slice encoded index) out')
    ]

pub record Reassembler : Type 0 where
  pub buf : List ℕ
  pub received : List Bool
  pub id : BlobId
  pub chunk_count : ℕ
  pub received_count : ℕ
  pub total_bytes : ℕ
  pub start_ms : ℕ
  pub last_progress_ms : ℕ
  pub active : Bool

-- `MaxChunks` of the template.
module _ (max_chunks : ℕ) where
  abbrev pub max_total_bytes : ℕ
  max_total_bytes = max_chunks * chunk_payload

  abbrev pub new_reassembler : Reassembler
  new_reassembler = record {
    buf = replicate max_total_bytes 0;
    received = replicate max_chunks false;
    id = no_blob;
    chunk_count = 0;
    received_count = 0;
    total_bytes = 0;
    start_ms = 0;
    last_progress_ms = 0;
    active = false;
  }

  unfoldable pub begin : Reassembler → BlobId → ℕ → ℕ → ℕ → Reassembler
  begin r id count total now =
      let ok = ltb 0 count && leb count max_chunks && leb total max_total_bytes in
      record r {
        active = ok;
        id = id;
        chunk_count = if ok then count else 0;
        total_bytes = if ok then total else 0;
        received_count = 0;
        received = replicate max_chunks false;
        start_ms = now;
        last_progress_ms = now;
      }

  -- `begin` from the header of a chunk that was received.
  unfoldable pub begin_from : Reassembler → BlobChunkHeader → ℕ → Reassembler
  unfolding begin
  begin_from r h now = begin r h.id h.chunk_count h.total_bytes now

-- The end of `insert`: the payload is copied in and marked.
unfoldable pub copy_in : Reassembler → ℕ → List ℕ → ℕ → Reassembler
copy_in r index payload now =
    let fresh = not (get_or r.received index false) in
    record r {
      buf = write_at (index * chunk_payload) payload r.buf;
      received = if fresh then set r.received index true else r.received;
      received_count = if fresh then r.received_count + 1 else r.received_count;
      last_progress_ms = now;
    }

unfoldable pub insert : Reassembler → List ℕ → ℕ → Bool × Reassembler
unfolding get_blob_chunk_header same_target copy_in
insert r chunk now = if not r.active then (false, r) else elim (get_blob_chunk_header chunk) [
  | none ↦ (false, r)
  | some h ↦
      let payload = drop chunk_header_bytes chunk in
      if not (same_target h.id r.id)
      then (false, r)
      else if not (h.chunk_count == r.chunk_count) || leb r.chunk_count h.chunk_index
      then (false, r)
      else if ltb (length r.buf) (h.chunk_index * chunk_payload + length payload)
      then (false, r)
      else (true, copy_in r h.chunk_index payload now)
]

unfoldable pub complete : Reassembler → Bool
complete r = r.active && r.received_count == r.chunk_count

-- The loop of `missingIndices` from `i` on, with the places of `out` that are left.
unfoldable pub missing_from : ℕ → ℕ → List Bool → ℕ → List ℕ
missing_from count i [] room = []
missing_from count i (b ∷ bs) zero = []
missing_from count i (b ∷ bs) (suc room) =
    let skip = missing_from count (i + 1) bs (suc room) in
    let take_it = missing_from count (i + 1) bs room in
    if leb count i then [] else if b then skip else i ∷ take_it

unfoldable pub missing_indices : Reassembler → ℕ → List ℕ
unfolding missing_from
missing_indices r room = if not r.active then [] else missing_from r.chunk_count 0 r.received room

unfoldable pub timed_out : Reassembler → ℕ → Bool
timed_out r now = r.active && time_reached now ((r.start_ms + reassembly_timeout_ms) % u32_mod)

unfoldable pub gap_elapsed : Reassembler → ℕ → Bool
unfolding complete
gap_elapsed r now =
    r.active
    && not (complete r)
    && time_reached now ((r.last_progress_ms + chunk_gap_timeout_ms) % u32_mod)

unfoldable pub assembled : Reassembler → List ℕ
assembled r =
    if not r.active || ltb (length r.buf) r.total_bytes then [] else take r.total_bytes r.buf
