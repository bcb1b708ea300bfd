-- ===== src/Wire/Fragmentation/Emit.antt =====
-- What `fragmentFrame` of wire/fragmentation.hpp emits.
use slop_sync.Base.{
  ℕ, zero, suc, ◌+◌, ◌-◌, ◌*◌, ◌/◌, ◌%◌, ◌^◌, ◌≤◌, ◌<◌, min, ◌≡◌, refl, sym, ap, ◌∙◌, List, [], ◌∷◌,
  ◌++◌, append_assoc, arith, length, get_or, take, drop, length-append, length-take, length-drop,
  write_at, length-write_at, take-write_at, write_at-append, take_more-append,
}
use slop_sync.Wire.Bytes.{at_offset, put_u16, Split, split, at_offset-append}
use slop_sync.Wire.FrameHeader.{FrameHeader}
use slop_sync.Wire.FrameBuffer.{frame_buffer_capacity}
use slop_sync.Wire.Fragmentation.{frag_index_bytes, frag_flags, fragment, fragments_from}
use slop_sync.Wire.Fragmentation.Image.{header_image, encode_frame_header-image}

-- The part of the payload in fragment `i`.
abbrev pub slice_length : ℕ → ℕ → ℕ → ℕ
slice_length budget total i = min budget (total - i * budget)

unfoldable pub slice : ℕ → List ℕ → ℕ → List ℕ
slice budget payload i = take (slice_length budget (length payload) i) (drop (i * budget) payload)

pub length-slice :
    (budget : ℕ) (payload : List ℕ) (i : ℕ)
    → length (slice budget payload i) ≡ slice_length budget (length payload) i
unfolding slice
length-slice budget payload i = omega (
  arith,
  length-take (slice_length budget (length payload) i) (drop (i * budget) payload),
  length-drop (i * budget) payload,
)

unfoldable pub fragment_header : FrameHeader → ℕ → ℕ → ℕ → ℕ → FrameHeader
fragment_header header budget total n i = record header {
  flags = frag_flags n i;
  len = (frag_index_bytes + slice_length budget total i) % 2 ^ 16;
}

unfoldable pub fragment_bytes : FrameHeader → List ℕ → ℕ → ℕ → ℕ → List ℕ
fragment_bytes header payload budget n i =
    header_image (fragment_header header budget (length payload) n i)
    ++ (i % 2 ^ 16 % 2 ^ 8 ∷ (i % 2 ^ 16 / 2 ^ 8 % 2 ^ 8 ∷ slice budget payload i))

-- The index and the slice behind the header, and what is taken of the buffer.
indexed_lem :
    (image slice : List ℕ) (i : ℕ) (out : List ℕ)
    → length image ≡ 8
    → 2 + length slice ≤ length out
    → (take (8 + 2 + length slice) (write_at 10 slice (at_offset 8 (put_u16 i) (image ++ out)))
        ≡ image ++ (i % 2 ^ 8 ∷ (i / 2 ^ 8 % 2 ^ 8 ∷ slice)))
      × (length (write_at 10 slice (at_offset 8 (put_u16 i) (image ++ out))) ≡ 8 + length out)
unfolding put_u16 Split
indexed_lem image slice i out eight room =
    split 2
      (λ out.
        2 + length slice ≤ length out
        → (take (8 + 2 + length slice) (write_at 10 slice (at_offset 8 (put_u16 i) (image ++ out)))
            ≡ image ++ (i % 2 ^ 8 ∷ (i / 2 ^ 8 % 2 ^ 8 ∷ slice)))
          × (length (write_at 10 slice (at_offset 8 (put_u16 i) (image ++ out))) ≡ 8 + length out))
      (λ a b rest room.
        let low = i % 2 ^ 8 in
        let high = i / 2 ^ 8 % 2 ^ 8 in
        let front = image ++ (low ∷ (high ∷ [])) in
        let ten : 10 ≡ length front =
          omega (arith, eight, length-append image (low ∷ (high ∷ []))) in
        let indexed : at_offset 8 (put_u16 i) (image ++ (a ∷ (b ∷ rest))) ≡ front ++ rest =
          (λ j. at_offset (sym eight j) (put_u16 i) (image ++ (a ∷ (b ∷ rest))))
          ∙ (at_offset-append (put_u16 i) image (a ∷ (b ∷ rest))
              ∙ sym (append_assoc image (low ∷ (high ∷ [])) rest)) in
        let filled : write_at 10 slice (front ++ rest) ≡ front ++ write_at 0 slice rest =
          (λ j. write_at (ten j) slice (front ++ rest)) ∙ write_at-append front slice rest in
        let taken : take (10 + length slice) (front ++ write_at 0 slice rest) ≡ front ++ slice =
          (λ j. take (ten j + length slice) (front ++ write_at 0 slice rest))
          ∙ (take_more-append (length slice) front (write_at 0 slice rest)
              ∙ ap (◌++◌ front) (take-write_at slice rest (omega (arith, room)))) in
        rw (indexed, filled)
          (
            taken ∙ append_assoc image (low ∷ (high ∷ [])) slice,
            omega (
              arith,
              ten,
              length-append front (write_at 0 slice rest),
              length-write_at 0 slice rest,
            ),
          ))
      out (omega (arith, room)) room

-- A round emits the fragment and keeps the size of the scratch buffer.
fragment_lem :
    (header : FrameHeader) (payload : List ℕ) (budget n : ℕ) (scratch : List ℕ) (i : ℕ)
    → length scratch ≡ frame_buffer_capacity
    → budget ≤ 502
    → (length (fragment header payload budget n scratch i).0 ≡ frame_buffer_capacity)
      × ((fragment header payload budget n scratch i).1 ≡ fragment_bytes header payload budget n i)
unfolding fragment fragment_bytes fragment_header slice header_image
fragment_lem header payload budget n scratch i sized small =
    let piece = slice budget payload i in
    let fh = fragment_header header budget (length payload) n i in
    let measured = length-slice budget payload i in
    let written = encode_frame_header-image fh scratch (omega (arith, sized)) in
    let room : 2 + length piece ≤ length (drop 8 scratch) =
      omega (arith, measured, sized, length-drop 8 scratch) in
    let image : length (header_image fh) ≡ 8 = refl in
    let filled =
      write_at 10 piece (at_offset 8 (put_u16 (i % 2 ^ 16)) (header_image fh ++ drop 8 scratch)) in
    let laid = indexed_lem (header_image fh) piece (i % 2 ^ 16) (drop 8 scratch) image room in
    rw (written, fragment)
      (
        laid.1 ∙ omega (arith, sized, length-drop 8 scratch),
        (λ j. take (8 + 2 + sym measured j) filled) ∙ laid.0,
      )

-- The fragments from `i` on.
unfoldable pub all_fragments : FrameHeader → List ℕ → ℕ → ℕ → ℕ → ℕ → List (List ℕ)
all_fragments header payload budget n i zero = []
all_fragments header payload budget n i (suc left) =
    fragment_bytes header payload budget n i ∷ all_fragments header payload budget n (i + 1) left

pub fragments_from-all :
    (header : FrameHeader) (payload : List ℕ) (budget n i left : ℕ) (scratch : List ℕ)
    → length scratch ≡ frame_buffer_capacity
    → budget ≤ 502
    → fragments_from header payload budget n i left scratch
      ≡ all_fragments header payload budget n i left
unfolding fragments_from all_fragments
fragments_from-all header payload budget n i zero scratch sized small = refl
fragments_from-all header payload budget n i (suc left) scratch sized small =
    let round = fragment_lem header payload budget n scratch i sized small in
    λ j.
      round.1 j
      ∷ fragments_from-all header payload budget n (i + 1) left
          (fragment header payload budget n scratch i).0 round.0 small j

pub length-all_fragments :
    (header : FrameHeader) (payload : List ℕ) (budget n i left : ℕ)
    → length (all_fragments header payload budget n i left) ≡ left
unfolding all_fragments
length-all_fragments header payload budget n i zero = refl
length-all_fragments header payload budget n i (suc left) =
    ap suc (length-all_fragments header payload budget n (i + 1) left)

pub get_or-all_fragments :
    (header : FrameHeader) (payload : List ℕ) (budget n i left k : ℕ)
    → k < left
    → get_or (all_fragments header payload budget n i left) k []
      ≡ fragment_bytes header payload budget n (i + k)
unfolding all_fragments
get_or-all_fragments header payload budget n i zero k h = absurd (omega arith)
get_or-all_fragments header payload budget n i (suc left) zero h =
    ap (fragment_bytes header payload budget n) (omega arith)
get_or-all_fragments header payload budget n i (suc left) (suc k) h =
    get_or-all_fragments header payload budget n (i + 1) left k (omega arith)
    ∙ ap (fragment_bytes header payload budget n) (omega arith)
