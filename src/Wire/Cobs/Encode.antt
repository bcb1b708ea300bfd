-- ===== src/Wire/Cobs/Encode.antt =====
-- What `cobsEncode` of wire/serial_cobs.hpp writes, without the buffer.
use slop_sync.Base.{
  set-append, ℕ, suc, ◌+◌, ◌-◌, ◌/◌, ◌≤◌, ◌<◌, ◌≡◌, refl, sym, ap, ◌∙◌, ◌≢◌, inl, inr, Bool, true,
  false, not, ◌||◌, Option, some, List, [], ◌∷◌, ◌++◌, append-nil, append_assoc, arith, leb, ◌==◌,
  leb-false, ==_true, ==_false, Bool-cases, length, set, length-append, length-set, drop,
  length-drop,
}
use native.Mathlib.Decide.{ℕ_discrete}
use slop_sync.Wire.Cobs.{Encoder, encode_byte, encode_end, encode_loop, cobs_encode}
use slop_sync.Wire.Cobs.Blocks.{
  blocks, room, room-le, room_pos, blocks_zero, blocks_full, blocks_plain,
}

-- The buffer holds what is finished, a place for the code, the current run, and what is free.
pub record At (out : List ℕ) (run : List ℕ) (free : List ℕ) (owed : Bool) (e : Encoder)
    : Type 0 where
  pub buffer : (p : ℕ) × (e.dst ≡ out ++ (p ∷ (run ++ free)))
  pub writing : e.write_index ≡ length out + 1 + length run
  pub coding : e.code_index ≡ length out
  pub coded : e.code ≡ length run + 1
  pub short : length run < 254
  pub owing : e.final_zero ≡ owed

-- The answer: the finished bytes and the blocks of the rest, with the buffer's length kept.
abbrev pub Wrote : List ℕ → List ℕ → Option (ℕ × List ℕ) → Type 0
Wrote bytes dst answer =
    (n : ℕ) × (buf : List ℕ) × (tail : List ℕ) × (answer ≡ some (n, buf))
    × (n ≡ length bytes)
    × (buf ≡ bytes ++ tail)
    × (length buf ≡ length dst)

encode_end-blocks :
    (out run free : List ℕ) (owed : Bool) (e : Encoder)
    → At out run free owed e
    → Wrote (out ++ blocks run owed []) e.dst (some (encode_end e))
unfolding encode_end blocks
encode_end-blocks out run free owed e a = elim (Bool-cases (owed || not (length run == 0))) [
  | inl due ↦
      let owed_code : (e.final_zero || not (e.code == 1)) ≡ true = ground arith in
      let (p, d) = a.buffer in
      rw (due, owed_code)
        (
          e.write_index,
          set e.dst e.code_index e.code,
          free,
          refl,
          omega (arith, a.writing, length-append out ((length run + 1) ∷ run)),
          rw (d, a.coded)
              (set-append out (run ++ free) p _ e.code_index a.coding
                ∙ sym (append_assoc out ((length run + 1) ∷ run) free)),
          length-set e.dst e.code_index e.code,
        )
  | inr idle ↦
      let no_code : (e.final_zero || not (e.code == 1)) ≡ false = ground arith in
      let (p, d) = a.buffer in
      rw (idle, no_code)
        (
          e.write_index - 1,
          e.dst,
          p ∷ (run ++ free),
          refl,
          rw append-nil (ground (arith, a.writing)),
          rw append-nil d,
          refl,
        )
]

-- One round, on each of its branches, with the places that it takes.
abbrev Moves : List ℕ → List ℕ → List ℕ → Bool → Encoder → ℕ → Type 0
Moves out run free owed e b =
    (e' : Encoder) × (encode_byte e b ≡ some e')
    × At out run free owed e'
    × (length e'.dst ≡ length e.dst)

length-buffer :
    (out run free : List ℕ) (p : ℕ)
    → length (out ++ (p ∷ (run ++ free))) ≡ length out + 1 + length run + length free
length-buffer out run free p =
    omega (arith, length-append out (p ∷ (run ++ free)), length-append run free)

-- A byte that is written behind the run joins it.
set_run :
    (out run free : List ℕ) (p f b i : ℕ)
    → i ≡ length out + 1 + length run
    → set (out ++ (p ∷ (run ++ (f ∷ free)))) i b ≡ out ++ (p ∷ ((run ++ (b ∷ [])) ++ free))
set_run out run free p f b i h = rw (← append_assoc out (p ∷ run) (f ∷ free)) (
    set-append (out ++ (p ∷ run)) free f b i (omega (arith, h, length-append out (p ∷ run)))
    ∙ rw (append_assoc out (p ∷ run) (b ∷ free), append_assoc run (b ∷ []) free))

encode_zero :
    (out run free : List ℕ) (f : ℕ) (owed : Bool) (e : Encoder) (b : ℕ)
    → At out run (f ∷ free) owed e
    → b ≡ 0
    → Moves (out ++ ((length run + 1) ∷ run)) [] free true e b
unfolding encode_byte
encode_zero out run free f owed e b a z =
    let (p, d) = a.buffer in
    let fits : leb (length e.dst) e.write_index ≡ false =
      rw d (leb-false _ _ (omega (arith, a.writing, length-buffer out run (f ∷ free) p))) in
    rw (z, fits)
      (
        record {
          dst = set e.dst e.code_index e.code;
          write_index = e.write_index + 1;
          code_index = e.write_index;
          code = 1;
          final_zero = true;
        },
        refl,
        record {
          buffer = (
            f,
            rw (d, a.coded)
                (set-append out (run ++ (f ∷ free)) p _ e.code_index a.coding
                  ∙ sym (append_assoc out ((length run + 1) ∷ run) (f ∷ free))),
          );
          writing = omega (arith, a.writing, length-append out ((length run + 1) ∷ run));
          coding = omega (arith, a.writing, length-append out ((length run + 1) ∷ run));
          coded = refl;
          short = omega arith;
          owing = refl;
        },
        length-set e.dst e.code_index e.code,
      )

encode_full :
    (out run free : List ℕ) (f g : ℕ) (owed : Bool) (e : Encoder) (b : ℕ)
    → At out run (f ∷ (g ∷ free)) owed e
    → b ≢ 0
    → length run + 2 ≡ 0xff
    → Moves (out ++ (0xff ∷ (run ++ (b ∷ [])))) [] free false e b
unfolding encode_byte
encode_full out run free f g owed e b a nz full =
    let (p, d) = a.buffer in
    let fits : leb (length e.dst) e.write_index ≡ false =
      rw d (leb-false _ _ (omega (arith, a.writing, length-buffer out run (f ∷ (g ∷ free)) p))) in
    let fits' : leb (length e.dst) (e.write_index + 1) ≡ false =
      rw d (leb-false _ _ (omega (arith, a.writing, length-buffer out run (f ∷ (g ∷ free)) p))) in
    let code : e.code + 1 ≡ 0xff = omega (arith, a.coded) in
    rw (==_false b 0 nz, fits, ==_true (e.code + 1) 0xff code, fits')
      (
        record {
          dst = set (set e.dst e.write_index b) e.code_index (e.code + 1);
          write_index = e.write_index + 2;
          code_index = e.write_index + 1;
          code = 1;
          final_zero = false;
        },
        refl,
        record {
          buffer = (
            g,
            rw (d, set_run out run (g ∷ free) p f b e.write_index a.writing, code)
                (set-append out ((run ++ (b ∷ [])) ++ (g ∷ free)) p _ e.code_index a.coding
                  ∙ sym (append_assoc out (0xff ∷ (run ++ (b ∷ []))) (g ∷ free))),
          );
          writing = omega (
            arith,
            a.writing,
            length-append out (0xff ∷ (run ++ (b ∷ []))),
            length-append run (b ∷ []),
          );
          coding = omega (
            arith,
            a.writing,
            length-append out (0xff ∷ (run ++ (b ∷ []))),
            length-append run (b ∷ []),
          );
          coded = refl;
          short = omega arith;
          owing = refl;
        },
        length-set (set e.dst e.write_index b) e.code_index (e.code + 1)
            ∙ length-set e.dst e.write_index b,
      )

encode_plain :
    (out run free : List ℕ) (f : ℕ) (owed : Bool) (e : Encoder) (b : ℕ)
    → At out run (f ∷ free) owed e
    → b ≢ 0
    → length run + 2 ≢ 0xff
    → Moves out (run ++ (b ∷ [])) free owed e b
unfolding encode_byte
encode_plain out run free f owed e b a nz more =
    let (p, d) = a.buffer in
    let fits : leb (length e.dst) e.write_index ≡ false =
      rw d (leb-false _ _ (omega (arith, a.writing, length-buffer out run (f ∷ free) p))) in
    rw (==_false b 0 nz, fits, ==_false (e.code + 1) 0xff (omega (arith, a.coded)))
      (
        record e {
          dst = set e.dst e.write_index b;
          write_index = e.write_index + 1;
          code = e.code + 1;
        },
        refl,
        record {
          buffer = (p, rw d (set_run out run free p f b e.write_index a.writing));
          writing = omega (arith, a.writing, length-append run (b ∷ []));
          coding = a.coding;
          coded = omega (arith, a.coded, length-append run (b ∷ []));
          short = omega (arith, a.short, length-append run (b ∷ []));
          owing = a.owing;
        },
        length-set e.dst e.write_index b,
      )

-- The end of a round: the rest of the source continues with the state that the round left.
encode_loop-step :
    (b : ℕ) (src : List ℕ) (e e' : Encoder) (bytes bytes' : List ℕ)
    → encode_byte e b ≡ some e'
    → length e'.dst ≡ length e.dst
    → bytes' ≡ bytes
    → Wrote bytes' e'.dst (encode_loop src e')
    → Wrote bytes e.dst (encode_loop (b ∷ src) e)
unfolding encode_loop
encode_loop-step b src e e' bytes bytes' s k q (n, buf, tail, answer, count, shape, size) =
    rw (s, encode_loop)
      (n, buf, tail, answer, count ∙ ap length q, shape ∙ ap (λ l. l ++ tail) q, size ∙ k)

encode_full_any :
    (out run free : List ℕ) (f : ℕ) (owed : Bool) (e : Encoder) (b : ℕ)
    → 1 ≤ length free
    → At out run (f ∷ free) owed e
    → b ≢ 0
    → length run + 2 ≡ 0xff
    → Moves (out ++ (0xff ∷ (run ++ (b ∷ [])))) [] (drop 1 free) false e b
encode_full_any out run [] f owed e b h a nz full = absurd (omega arith)
encode_full_any out run (g ∷ free) f owed e b h a nz full =
    encode_full out run free f g owed e b a nz full

encode_loop-blocks :
    (src out run free : List ℕ) (owed : Bool) (e : Encoder)
    → At out run free owed e
    → room (length run) src ≤ length free
    → Wrote (out ++ blocks run owed src) e.dst (encode_loop src e)
encode_loop-blocks [] out run free owed e a h =
    unfold encode_loop in encode_end-blocks out run free owed e a
encode_loop-blocks (b ∷ src) out run [] owed e a h = absurd (room_pos (length run) b src h)
encode_loop-blocks (b ∷ src) out run (f ∷ free) owed e a h = elim (ℕ_discrete b 0) [
  | yes z ↦
      let (q, r) = blocks_zero run owed b src z in
      let (e', s, a', k) = encode_zero out run free f owed e b a z in
      encode_loop-step b src e e' _ _ s k
        (append_assoc out ((length run + 1) ∷ run) (blocks [] true src) ∙ ap (◌++◌ out) (sym q))
        (encode_loop-blocks src _ [] free true e' a' (omega (arith, r)))
  | no nz ↦ elim (ℕ_discrete (length run + 2) 0xff) [
    | yes full ↦
        let (q, r) = blocks_full run owed b src nz full in
        let (e', s, a', k) = encode_full_any out run free f owed e b (omega (arith, r)) a nz full in
        encode_loop-step b src e e' _ _ s k
          (append_assoc out (0xff ∷ (run ++ (b ∷ []))) (blocks [] false src)
            ∙ ap (λ l. out ++ (0xff ∷ l)) (append_assoc run (b ∷ []) (blocks [] false src))
            ∙ ap (◌++◌ out) (sym q))
          (encode_loop-blocks src _ [] (drop 1 free) false e' a'
            (omega (arith, r, length-drop 1 free)))
    | no more ↦
        let (q, r) = blocks_plain run owed b src nz more in
        let (e', s, a', k) = encode_plain out run free f owed e b a nz more in
        encode_loop-step b src e e' _ _ s k (ap (◌++◌ out) (sym q)) (
          encode_loop-blocks src out (run ++ (b ∷ [])) free owed e' a'
            (rw (length-append run (b ∷ [])) (omega (arith, r))))
  ]
]

-- With a buffer of the documented worst-case size, `cobs_encode` does not fail, and it writes the
-- blocks of the source at the front of the buffer, whose length it keeps.
pub cobs_encode-blocks :
    (src dst : List ℕ)
    → length src + length src / 254 + 1 ≤ length dst
    → Wrote (blocks [] true src) dst (cobs_encode src dst)
unfolding cobs_encode
cobs_encode-blocks src [] h = absurd (omega arith)
cobs_encode-blocks src (p ∷ free) h = rw (==_false (suc (length free)) 0 (omega arith)) (
    encode_loop-blocks src [] [] free true _
      (record {
        buffer = (p, refl);
        writing = refl;
        coding = refl;
        coded = refl;
        short = omega arith;
        owing = refl;
      })
      (omega (arith, room-le 0 src)))
