-- ===== src/Wire/Fragmentation.antt =====
-- wire/fragmentation.hpp: an oversized control frame in numbered fragments, and the slots that put
-- fragments together again.
use slop_sync.Base.{
  ℕ, zero, suc, ◌+◌, ◌-◌, ◌*◌, ◌/◌, ◌%◌, ◌^◌, min, bit_and, bit_or, Bool, true, false, not, ◌&&◌,
  ◌||◌, Option, none, some, List, [], ◌∷◌, ltb, leb, ◌==◌, if◌then◌else◌, length, get_or, set, take,
  drop, replicate, write_at, test_bit,
}
use slop_sync.Int.{ltb_ℤ, ℤ}
use slop_sync.Result.{Result, ok, err, capacity_exceeded}
use slop_sync.Util.Serial.{u16_mod, u32_mod, time_delta, time_reached}
use slop_sync.Wire.Bytes.{at_offset, put_u16, get_u16}
use slop_sync.Wire.Estop.{estop_frame_bytes, has_magic}
use slop_sync.Wire.FrameHeader.{FrameHeader, header_bytes, encode_frame_header, decode_frame_header}
use slop_sync.Wire.FrameBuffer.{FrameBuffer, frame_buffer_capacity, new_frame_buffer, set_size}
pub mod Image
pub mod Emit
pub mod Count
pub mod Placed
pub mod Collects
pub mod Slots
pub mod Complete
pub mod Deliver
pub mod RoundTrip
pub mod Bounds
mod Tests

abbrev pub frag_index_bytes : ℕ
frag_index_bytes = 2

-- flags::FRAG_START and flags::FRAG_MORE.
abbrev pub frag_start : ℕ
frag_start = 1

abbrev pub frag_more : ℕ
frag_more = 2

-- The flags of fragment `i` of `n`.
unfoldable pub frag_flags : ℕ → ℕ → ℕ
frag_flags n i =
    let start = if i == 0 then bit_or 0 frag_start else 0 in
    if ltb (i + 1) n then bit_or start frag_more else start

-- One round of the loop: the scratch buffer after it, and the bytes of it that are emitted.
unfoldable pub fragment : FrameHeader → List ℕ → ℕ → ℕ → List ℕ → ℕ → List ℕ × List ℕ
fragment header payload budget n scratch i =
    let offset = i * budget in
    let len = min budget (length payload - offset) in
    let fh = record header { flags = frag_flags n i; len = (frag_index_bytes + len) % u16_mod } in
    elim (encode_frame_header fh scratch) [
      | none ↦ (scratch, [])
      | some (pos, out) ↦
          let indexed = at_offset pos (put_u16 (i % u16_mod)) out in
          let filled = write_at (pos + 2) (take len (drop offset payload)) indexed in
          (filled, take (pos + 2 + len) filled)
    ]

-- The rounds from `i` on, `left` of them.
unfoldable pub fragments_from : FrameHeader → List ℕ → ℕ → ℕ → ℕ → ℕ → List ℕ → List (List ℕ)
fragments_from header payload budget n i zero scratch = []
fragments_from header payload budget n i (suc left) scratch =
    let (scratch', emitted) = fragment header payload budget n scratch i in
    emitted ∷ fragments_from header payload budget n (i + 1) left scratch'

abbrev pub num_fragments : ℕ → ℕ → ℕ
num_fragments budget total = (total + budget - 1) / budget

-- What is emitted, in order; `none` is the answer false, with nothing emitted. The assertion on ESTOP
-- frames is that of a release build.
unfoldable pub fragment_frame : List ℕ → ℕ → Option (List (List ℕ))
fragment_frame frame max_frame_bytes =
    if ltb frame_buffer_capacity max_frame_bytes
    then none
    else if leb (length frame) max_frame_bytes
    then some (frame ∷ [])
    else if length frame == estop_frame_bytes && has_magic frame
    then none
    else elim (decode_frame_header frame) [
      | none ↦ none
      | some header ↦
          if leb max_frame_bytes (header_bytes + frag_index_bytes)
          then none
          else (let payload = drop header_bytes frame in
              let budget = max_frame_bytes - header_bytes - frag_index_bytes in
              let n = num_fragments budget (length payload) in
              some (fragments_from header payload budget n 0 n (replicate frame_buffer_capacity 0)))
    ]

-- The receiver.
abbrev pub max_fragments : ℕ
max_fragments = 32

abbrev pub max_slot_payload : ℕ
max_slot_payload = frame_buffer_capacity - header_bytes

abbrev pub max_slots : ℕ
max_slots = 2

abbrev pub reassembly_timeout_ms : ℕ
reassembly_timeout_ms = 5000

pub record Slot : Type 0 where
  pub active : Bool
  pub type : ℕ
  pub channel : ℕ
  pub seq : ℕ
  pub start_ms : ℕ
  pub unit_len : ℕ
  pub total_fragments : ℕ
  pub last_frag_len : ℕ
  pub received_mask : ℕ
  pub received_count : ℕ
  pub have_pending_last : Bool
  pub pending_last_index : ℕ
  pub pending_last_len : ℕ
  pub pending_last_bytes : List ℕ
  pub content : List ℕ

abbrev pub empty_slot : Slot
empty_slot = record {
  active = false;
  type = 0;
  channel = 0;
  seq = 0;
  start_ms = 0;
  unit_len = 0;
  total_fragments = 0;
  last_frag_len = 0;
  received_mask = 0;
  received_count = 0;
  have_pending_last = false;
  pending_last_index = 0;
  pending_last_len = 0;
  pending_last_bytes = replicate max_slot_payload 0;
  content = replicate max_slot_payload 0;
}

pub record Stats : Type 0 where
  pub reassemblies_completed : ℕ
  pub timeouts : ℕ
  pub evictions : ℕ

-- A Slot* is its index in `slots`.
pub record Reassembler : Type 0 where
  pub slots : List Slot
  pub stats : Stats

abbrev pub new_reassembler : Reassembler
new_reassembler = record {
  slots = replicate max_slots empty_slot;
  stats = record { reassemblies_completed = 0; timeouts = 0; evictions = 0 };
}

abbrev pub is_for : Slot → ℕ → ℕ → Bool
is_for s type seq = s.active && (s.type == type) && (s.seq == seq)

unfoldable pub find_slot : List Slot → ℕ → ℕ → Option ℕ
find_slot [] type seq = none
find_slot (s ∷ slots) type seq =
    let rest = find_slot slots type seq in
    if is_for s type seq then some 0 else elim rest [ none ↦ none | some k ↦ some (k + 1) ]

unfoldable pub expire_one : Reassembler → ℕ → ℕ → ℕ → Reassembler
expire_one r type seq now = elim (find_slot r.slots type seq) [
  | none ↦ r
  | some k ↦
      let s = get_or r.slots k empty_slot in
      if time_reached now ((s.start_ms + reassembly_timeout_ms) % u32_mod)
      then record {
        slots = set r.slots k empty_slot;
        stats = record r.stats { timeouts = (r.stats.timeouts + 1) % u32_mod };
      }
      else r
]

-- The sweep from slot `k` on, `left` of them.
unfoldable pub expire_from : ℕ → ℕ → ℕ → Reassembler → Reassembler
expire_from now k zero r = r
expire_from now k (suc left) r =
    let s = get_or r.slots k empty_slot in
    expire_from now (k + 1) left (if not s.active then r else expire_one r s.type s.seq now)

unfoldable pub expire_stale : Reassembler → ℕ → Reassembler
expire_stale r now = expire_from now 0 (length r.slots) r

abbrev pub opened : ℕ → ℕ → ℕ → Slot
opened type seq now = record empty_slot { active = true; type = type; seq = seq; start_ms = now }

unfoldable pub find_idle : List Slot → Option ℕ
find_idle [] = none
find_idle (s ∷ slots) =
    let rest = find_idle slots in
    if not s.active then some 0 else elim rest [ none ↦ none | some k ↦ some (k + 1) ]

-- The slot of the greatest age among `slots`, which start at index `k`, and the best so far.
unfoldable pub oldest_from : ℕ → List Slot → ℕ → ℕ × ℤ → ℕ
oldest_from now [] k (best, best_age) = best
oldest_from now (s ∷ slots) k (best, best_age) =
    let age = time_delta now s.start_ms in
    oldest_from now slots (k + 1) (if ltb_ℤ best_age age then (k, age) else (best, best_age))

unfoldable pub alloc_slot : Reassembler → ℕ → ℕ → ℕ → Reassembler × ℕ
alloc_slot r type seq now = elim (find_idle r.slots) [
  | some k ↦ (record r { slots = set r.slots k (opened type seq now) }, k)
  | none ↦
      let first_age = time_delta now (get_or r.slots 0 empty_slot).start_ms in
      let k = oldest_from now r.slots 0 (0, first_age) in
      (
        record {
          slots = set r.slots k (opened type seq now);
          stats = record r.stats { evictions = (r.stats.evictions + 1) % u32_mod };
        },
        k,
      )
]

-- `none` is the answer false.
unfoldable pub place_fragment : Slot → ℕ → List ℕ → Option Slot
place_fragment s index bytes =
    if test_bit s.received_mask index
    then some s
    else (let offset = index * s.unit_len in
        if ltb (length s.content) (offset + length bytes)
        then none
        else some (record s {
          content = write_at offset bytes s.content;
          received_mask = bit_or s.received_mask (2 ^ index);
          received_count = (s.received_count + 1) % u16_mod;
        }))

-- The piece that waited for the unit size.
unfoldable pub place_pending : Slot → Option Slot
place_pending s =
    if s.have_pending_last && not (s.unit_len == 0)
    then elim (place_fragment s s.pending_last_index
        (take s.pending_last_len s.pending_last_bytes)) [
          | none ↦ none
          | some s' ↦ some (record s' { have_pending_last = false })
        ]
    else some s

-- The three kinds of fragments; `none` is an overflow.
unfoldable pub fill_slot : Slot → ℕ → ℕ → List ℕ → Option Slot
fill_slot s flags index slice =
    let is_start = not (bit_and flags frag_start == 0) in
    let is_more = not (bit_and flags frag_more == 0) in
    if is_start && not is_more
    then place_fragment (record s { total_fragments = 1; last_frag_len = length slice % u16_mod }) 0
        slice
    else if is_more
    then (let sized = record s {
      unit_len = if s.unit_len == 0 then length slice % u16_mod else s.unit_len;
    } in
        elim (place_fragment sized index slice) [ none ↦ none | some s' ↦ place_pending s' ])
    else (let last = record s {
      total_fragments = (index + 1) % u16_mod;
      last_frag_len = length slice % u16_mod;
    } in
        if not (s.unit_len == 0)
        then place_fragment last index slice
        else if ltb (length s.pending_last_bytes) (length slice)
        then none
        else some (record last {
          pending_last_bytes = write_at 0 slice s.pending_last_bytes;
          pending_last_len = length slice % u16_mod;
          pending_last_index = index;
          have_pending_last = true;
        }))

-- The frame of a slot whose payload has `total_len` bytes.
unfoldable pub assembled_frame : Slot → ℕ → FrameBuffer
assembled_frame s total_len =
    let header : FrameHeader = record {
      type = s.type;
      flags = 0;
      channel = s.channel;
      seq = s.seq;
      len = total_len % u16_mod;
    } in
    elim (encode_frame_header header new_frame_buffer.content) [
      | none ↦ new_frame_buffer
      | some (pos, out) ↦
          set_size (record { content = write_at pos (take total_len s.content) out; size = 0 })
            (pos + total_len)
    ]

unfoldable pub check_complete : Reassembler → ℕ → Reassembler × Result (Option FrameBuffer)
check_complete r k =
    let s = get_or r.slots k empty_slot in
    if s.total_fragments == 0 || not (s.received_count == s.total_fragments)
    then (r, ok none)
    else (let total_len = (s.total_fragments - 1) * s.unit_len + s.last_frag_len in
        let cleared = record r { slots = set r.slots k empty_slot } in
        if ltb max_slot_payload total_len then (cleared, err capacity_exceeded) else (
          record cleared {
            stats = record r.stats {
              reassemblies_completed = (r.stats.reassemblies_completed + 1) % u32_mod;
            };
          },
          ok (some (assembled_frame s total_len)),
        ))

-- The slot for a header: the one that is open, or a new one.
unfoldable pub slot_for : Reassembler → ℕ → ℕ → ℕ → Reassembler × ℕ
slot_for r type seq now = elim (find_slot r.slots type seq) [
  | some k ↦ (r, k)
  | none ↦ alloc_slot r type seq now
]

-- What is done with the slot that was found.
unfoldable pub accept_in :
    FrameHeader → ℕ → List ℕ → Reassembler × ℕ → Reassembler × Result (Option FrameBuffer)
accept_in header index slice (found, k) =
    let s = record (get_or found.slots k empty_slot) { channel = header.channel } in
    elim (fill_slot s header.flags index slice) [
      | none ↦ (record found { slots = set found.slots k empty_slot }, err capacity_exceeded)
      | some s' ↦ check_complete (record found { slots = set found.slots k s' }) k
    ]

unfoldable pub accept :
    FrameHeader → List ℕ → ℕ → Reassembler → Reassembler × Result (Option FrameBuffer)
accept header payload now r =
    if ltb (length payload) frag_index_bytes
    then (r, ok none)
    else (let index = get_u16 payload in
        if leb max_fragments index
        then (r, err capacity_exceeded)
        else (let slice = drop frag_index_bytes payload in
            let unexpired = expire_one r header.type header.seq now in
            accept_in header index slice (slot_for unexpired header.type header.seq now)))
