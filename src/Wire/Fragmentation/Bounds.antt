-- ===== src/Wire/Fragmentation/Bounds.antt =====
-- The size of what `fragmentFrame` of wire/fragmentation.hpp emits.
use slop_sync.Base.{
  ℕ, zero, suc, ◌+◌, ◌-◌, ◌≤◌, ◌≡◌, refl, subst, inl, inr, ◌&&◌, some, List, [], ◌∷◌, arith, ltb,
  leb, ◌==◌, Bool-cases, Option-cases, length, drop, replicate, All,
}
use slop_sync.Wire.Estop.{estop_frame_bytes, has_magic}
use slop_sync.Wire.FrameHeader.{FrameHeader, header_bytes, decode_frame_header}
use slop_sync.Wire.FrameBuffer.{frame_buffer_capacity}
use slop_sync.Wire.Fragmentation.{num_fragments, fragments_from, fragment_frame, frag_index_bytes}
use slop_sync.Wire.Fragmentation.Image.{header_image}
use slop_sync.Wire.Fragmentation.Emit.{
  length-slice, fragment_bytes, fragment_header, all_fragments, fragments_from-all,
}

all_fragments-bound :
    (header : FrameHeader) (payload : List ℕ) (budget n i left : ℕ)
    → All (λ (f : List ℕ). length f ≤ 10 + budget) (all_fragments header payload budget n i left)
unfolding all_fragments fragment_bytes fragment_header header_image
all_fragments-bound header payload budget n i zero = tt
all_fragments-bound header payload budget n i (suc left) = (
  omega (arith, length-slice budget payload i),
  all_fragments-bound header payload budget n (i + 1) left,
)

-- Every piece that is emitted has at most the allowed number of bytes, whatever the frame.
pub fragment_frame-bound :
    (frame : List ℕ) (max_bytes : ℕ) (frags : List (List ℕ))
    → fragment_frame frame max_bytes ≡ some frags
    → All (λ (f : List ℕ). length f ≤ max_bytes) frags
unfolding fragment_frame
fragment_frame-bound frame max_bytes frags h =
    elim (Bool-cases (ltb frame_buffer_capacity max_bytes)) [
      | inl e ↦ absurd (ground (arith, h, e))
      | inr e ↦ elim (Bool-cases (leb (length frame) max_bytes)) [
        | inl whole ↦
            let one : frame ∷ [] ≡ frags = ground (arith, h, e, whole) in
            subst (All (λ (f : List ℕ). length f ≤ max_bytes)) one (ground (arith, whole), tt)
        | inr cut ↦ elim (Bool-cases (length frame == estop_frame_bytes && has_magic frame)) [
          | inl g ↦ absurd (ground (arith, h, e, cut, g))
          | inr g ↦ elim (Option-cases (decode_frame_header frame)) [
            | inl n ↦ absurd (ground (arith, h, e, cut, g, n))
            | inr (header, q) ↦ elim (Bool-cases (leb max_bytes 10)) [
              | inl f ↦ absurd (ground (arith, h, e, cut, g, q, f))
              | inr f ↦
                  let payload = drop header_bytes frame in
                  let budget = max_bytes - header_bytes - frag_index_bytes in
                  let n = num_fragments budget (length payload) in
                  let emitted =
                    fragments_from header payload budget n 0 n
                      (replicate frame_buffer_capacity 0) in
                  let done : fragment_frame frame max_bytes ≡ some emitted =
                    rw (e, cut, g, q, f, fragment_frame) refl in
                  let listed : all_fragments header payload budget n 0 n ≡ frags = cc (
                    done,
                    h,
                    fragments_from-all header payload budget n 0 n
                        (replicate frame_buffer_capacity 0) refl (ground (arith, e)),
                  ) in
                  let sum : 10 + budget ≡ max_bytes = ground (arith, f) in
                  subst (All (λ (f : List ℕ). length f ≤ max_bytes)) listed (
                    subst
                      (λ m.
                        All (λ (f : List ℕ). length f ≤ m)
                          (all_fragments header payload budget n 0 n))
                      sum (all_fragments-bound header payload budget n 0 n))
            ]
          ]
        ]
      ]
    ]
