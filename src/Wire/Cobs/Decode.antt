-- ===== src/Wire/Cobs/Decode.antt =====
-- What `cobsDecode` of wire/serial_cobs.hpp does with the blocks of a source, and on any input.
use native.Mathlib.Nat.{add-zero}
use native.Mathlib.Decide.{ℕ_discrete}
use slop_sync.Base.{
  ℕ, zero, suc, ◌+◌, ◌-◌, ◌≤◌, ◌<◌, ◌≡◌, refl, sym, ap, ◌∙◌, ◌≢◌, inl, inr, Bool, true, false, not,
  ◌||◌, Option, some, List, [], ◌∷◌, ◌++◌, append-nil, append_assoc, arith, leb, ◌==◌, leb-false,
  ==_true, ==_false, Bool-cases, length, set, drop, length-append, length-drop, set-append,
}
use slop_sync.Result.{Result, ok}
use slop_sync.Wire.Cobs.{copy_run, put_zero, decode_loop, cobs_decode}
use slop_sync.Wire.Cobs.Blocks.{blocks, blocks_zero, blocks_full, blocks_plain}

copy_run-append :
    (run src out free : List ℕ) (w : ℕ)
    → w ≡ length out
    → length run ≤ length free
    → copy_run (length run) (run ++ src) (out ++ free) w
      ≡ ok (src, out ++ (run ++ drop (length run) free), w + length run)
unfolding copy_run
copy_run-append [] src out free w e h = λ i. ok (src, out ++ free, sym (add-zero w) i)
copy_run-append (b ∷ run) src out [] w e h = absurd (omega arith)
copy_run-append (b ∷ run) src out (f ∷ free) w e h =
    rw
      (
        leb-false (length (out ++ (f ∷ free))) w (omega (arith, e, length-append out (f ∷ free))),
        set-append out free f b w e,
        ← append_assoc out (b ∷ []) free,
      )
      (copy_run-append run src (out ++ (b ∷ [])) free (w + 1)
          (omega (arith, e, length-append out (b ∷ []))) (omega arith)
        ∙ λ i. ok (
          src,
          append_assoc out (b ∷ []) (run ++ drop (length run) free) i,
          shifted w (length run) i,
        ))
  where
    shifted : (w n : ℕ) → w + 1 + n ≡ w + suc n
    shifted w n = omega arith

decode_loop-nil : (fuel : ℕ) (dst : List ℕ) (w : ℕ) → decode_loop fuel [] dst w ≡ some (ok (w, dst))
unfolding decode_loop
decode_loop-nil zero dst w = refl
decode_loop-nil (suc fuel) dst w = refl

-- One round that reads a run, by the results of its two parts.
decode_loop-step :
    (fuel code : ℕ) (src dst : List ℕ) (w : ℕ) (src' dst' : List ℕ) (w' : ℕ) (src'' dst'' : List ℕ)
    (w'' : ℕ)
    → code ≢ 0
    → copy_run (code - 1) src dst w ≡ ok (src', dst', w')
    → put_zero code src' dst' w' ≡ ok (src'', dst'', w'')
    → decode_loop (suc fuel) (code ∷ src) dst w ≡ decode_loop fuel src'' dst'' w''
unfolding decode_loop
decode_loop-step fuel code src dst w src' dst' w' src'' dst'' w'' n p q =
    rw (==_false code 0 n, p, q) refl

module _ (fuel : ℕ) (run out free : List ℕ) (w : ℕ) (here : w ≡ length out) where
  copied :
      (code : ℕ) (src : List ℕ)
      → code ≡ length run + 1
      → length run ≤ length free
      → copy_run (code - 1) (run ++ src) (out ++ free) w
        ≡ ok (src, out ++ (run ++ drop (length run) free), w + length run)
  copied code src coded h =
      let e : code - 1 ≡ length run = omega arith in
      rw e (copy_run-append run src out free w here h)

  decode_loop-last :
      (code : ℕ)
      → code ≡ length run + 1
      → length run ≤ length free
      → decode_loop (suc fuel) (code ∷ run) (out ++ free) w
        ≡ some (ok (w + length run, out ++ (run ++ drop (length run) free)))
  unfolding put_zero
  decode_loop-last code coded h =
      decode_loop-step fuel code run (out ++ free) w _ _ _ []
        (out ++ (run ++ drop (length run) free)) (w + length run) (omega arith)
        (ap (λ l. copy_run (code - 1) l (out ++ free) w) (sym (append-nil run))
          ∙ copied code [] coded h)
        refl
      ∙ decode_loop-nil fuel _ _

  decode_loop-full :
      (rest : List ℕ)
      → length run + 1 ≡ 0xff
      → length run ≤ length free
      → decode_loop (suc fuel) (0xff ∷ (run ++ rest)) (out ++ free) w
        ≡ decode_loop fuel rest (out ++ (run ++ drop (length run) free)) (w + length run)
  unfolding put_zero
  decode_loop-full rest e h =
      decode_loop-step fuel 0xff (run ++ rest) (out ++ free) w _ _ _ rest
        (out ++ (run ++ drop (length run) free)) (w + length run) (omega arith)
        (copied 0xff rest (omega arith) h) (put rest)
    where
      put :
          (rest : List ℕ)
          → put_zero 0xff rest (out ++ (run ++ drop (length run) free)) (w + length run)
            ≡ ok (rest, out ++ (run ++ drop (length run) free), w + length run)
      put [] = refl
      put (b ∷ rest) = refl

  zero_put :
      (free' : List ℕ)
      → 1 ≤ length free'
      → (leb (length (out ++ (run ++ free'))) (w + length run) ≡ false)
        × (set (out ++ (run ++ free')) (w + length run) 0 ≡ out ++ (run ++ (0 ∷ drop 1 free')))
  zero_put [] h = absurd (omega arith)
  zero_put (f ∷ free') h =
      rw (← append_assoc out run (f ∷ free'), ← append_assoc out run (0 ∷ free'))
        (
          leb-false _ _
              (omega (arith, here, length-append (out ++ run) (f ∷ free'), length-append out run)),
          set-append (out ++ run) free' f 0 (w + length run)
              (omega (arith, here, length-append out run)),
        )

  decode_loop-zero :
      (code c : ℕ) (rest : List ℕ)
      → code ≡ length run + 1
      → code ≢ 0xff
      → length run + 1 ≤ length free
      → decode_loop (suc fuel) (code ∷ (run ++ (c ∷ rest))) (out ++ free) w
        ≡ decode_loop fuel
            (c ∷ rest)
            (out ++ (run ++ (0 ∷ drop 1 (drop (length run) free))))
            (w + length run + 1)
  unfolding put_zero
  decode_loop-zero code c rest coded n h =
      let (fits, put) =
        zero_put (drop (length run) free) (omega (arith, length-drop (length run) free)) in
      decode_loop-step fuel code (run ++ (c ∷ rest)) (out ++ free) w _ _ _ (c ∷ rest)
        (out ++ (run ++ (0 ∷ drop 1 (drop (length run) free)))) (w + length run + 1) (omega arith)
        (copied code (c ∷ rest) coded (omega arith)) (rw (==_false code 0xff n, fits, put) refl)

-- A block that owes a code byte is not empty.
blocks-cons : (src run : List ℕ) → (c : ℕ) × (rest : List ℕ) × (blocks run true src ≡ c ∷ rest)
unfolding blocks
blocks-cons [] run = (length run + 1, run, refl)
blocks-cons (b ∷ src) run = elim (ℕ_discrete b 0) [
  | yes z ↦ rw (==_true b 0 z) (length run + 1, run ++ blocks [] true src, refl)
  | no nz ↦ elim (Bool-cases (length run + 2 == 0xff)) [
    | inl full ↦ rw (==_false b 0 nz, full) (0xff, run ++ (b ∷ blocks [] false src), refl)
    | inr more ↦ rw (==_false b 0 nz, more) (blocks-cons src (run ++ (b ∷ [])))
  ]
]

-- The answer: `bytes` at the front of the buffer, and their count.
abbrev pub Reads : List ℕ → Option (Result (ℕ × List ℕ)) → Type 0
Reads bytes answer =
    (n : ℕ) × (tail : List ℕ) × (answer ≡ some (ok (n, bytes ++ tail))) × (n ≡ length bytes)

Reads-step :
    {bytes bytes' : List ℕ} {answer answer' : Option (Result (ℕ × List ℕ))}
    → answer ≡ answer'
    → bytes' ≡ bytes
    → Reads bytes' answer'
    → Reads bytes answer
Reads-step p q (n, tail, a, c) =
    (n, tail, p ∙ (a ∙ λ i. some (ok (n, q i ++ tail))), c ∙ ap length q)

regroup :
    (out run src : List ℕ) (b : ℕ) → (out ++ (run ++ (b ∷ []))) ++ src ≡ out ++ (run ++ (b ∷ src))
regroup out run src b =
    rw (append_assoc out (run ++ (b ∷ [])) src, append_assoc run (b ∷ []) src) refl

decode_loop-blocks_end :
    (run out free : List ℕ) (owed : Bool) (w fuel : ℕ)
    → w ≡ length out
    → length run ≤ length free
    → (owed || not (length run == 0)) ≡ true
    → length (blocks run owed []) ≤ fuel
    → Reads (out ++ (run ++ [])) (decode_loop fuel (blocks run owed []) (out ++ free) w)
unfolding blocks
decode_loop-blocks_end run out free owed w fuel here room due enough =
    let q : blocks run owed [] ≡ (length run + 1) ∷ run = rw due refl in
    let count = ap length q in
    let f : fuel ≡ suc (fuel - 1) = omega (arith, count) in
    let tail = drop (length run) free in
    Reads-step
      ((λ i. decode_loop (f i) (q i) (out ++ free) w)
        ∙ decode_loop-last (fuel - 1) run out free w here (length run + 1) refl room)
      (ap (◌++◌ out) (sym (append-nil run)))
      (
        w + length run,
        tail,
        ap (λ l. some (ok (w + length run, l))) (sym (append_assoc out run tail)),
        omega (arith, here, length-append out run),
      )

decode_loop-blocks :
    (src run : List ℕ) (owed : Bool) (out free : List ℕ) (w fuel : ℕ)
    → w ≡ length out
    → length run < 254
    → length run + length src ≤ length free
    → length (blocks run owed src) ≤ fuel
    → Reads (out ++ (run ++ src)) (decode_loop fuel (blocks run owed src) (out ++ free) w)
unfolding blocks
decode_loop-blocks [] [] false out free w fuel here short room enough = (
  w,
  free,
  decode_loop-nil fuel _ _ ∙ ap (λ l. some (ok (w, l ++ free))) (sym (append-nil out)),
  here ∙ ap length (sym (append-nil out)),
)
decode_loop-blocks [] [] true out free w fuel here short room enough =
    decode_loop-blocks_end [] out free true w fuel here room refl enough
decode_loop-blocks [] (x ∷ run) owed out free w fuel here short room enough =
    decode_loop-blocks_end (x ∷ run) out free owed w fuel here (omega arith) (ground arith) enough
decode_loop-blocks (b ∷ src) run owed out free w fuel here short room enough =
    elim (ℕ_discrete b 0) [
      | yes z ↦
          let (q, r) = blocks_zero run owed b src z in
          let (c, rest, s) = blocks-cons src [] in
          let count = ap length q ∙ ap suc (length-append run (blocks [] true src)) in
          let f : fuel ≡ suc (fuel - 1) = omega (arith, count) in
          let free' = drop 1 (drop (length run) free) in
          Reads-step
            ((λ i. decode_loop (f i) (q i) (out ++ free) w)
              ∙ (λ i.
                  decode_loop (suc (fuel - 1)) ((length run + 1) ∷ (run ++ s i)) (out ++ free) w)
              ∙ decode_loop-zero (fuel - 1) run out free w here (length run + 1) c rest refl
                  (omega arith) (omega arith)
              ∙ (λ i.
                  decode_loop (fuel - 1) (sym s i) (sym (regroup out run free' 0) i)
                    (w + length run + 1)))
            (regroup out run src 0 ∙ ap (λ x. out ++ (run ++ (x ∷ src))) (sym z))
            (decode_loop-blocks src [] true (out ++ (run ++ (0 ∷ []))) free' (w + length run + 1)
              (fuel - 1)
              (omega (arith, here, length-append out (run ++ (0 ∷ [])), length-append run (0 ∷ [])))
              (omega arith)
              (omega (arith, length-drop 1 (drop (length run) free), length-drop (length run) free))
              (omega (arith, count)))
      | no nz ↦ elim (ℕ_discrete (length run + 2) 0xff) [
        | yes full ↦
            let (q, r) = blocks_full run owed b src nz full in
            let count = ap length q ∙ ap suc (length-append run (b ∷ blocks [] false src)) in
            let f : fuel ≡ suc (fuel - 1) = omega (arith, count) in
            let run' = run ++ (b ∷ []) in
            let size = length-append run (b ∷ []) in
            let free' = drop (length run') free in
            Reads-step
              ((λ i. decode_loop (f i) (q i) (out ++ free) w)
                ∙ (λ i.
                    decode_loop (suc (fuel - 1))
                      (0xff ∷ sym (append_assoc run (b ∷ []) (blocks [] false src)) i) (out ++ free)
                      w)
                ∙ decode_loop-full (fuel - 1) run' out free w here (blocks [] false src)
                    (omega (arith, size)) (omega (arith, size))
                ∙ (λ i.
                    decode_loop (fuel - 1) (blocks [] false src)
                      (sym (append_assoc out run' free') i) (w + length run')))
              (regroup out run src b)
              (decode_loop-blocks src [] false (out ++ run') free' (w + length run') (fuel - 1)
                (omega (arith, here, length-append out run')) (omega arith)
                (omega (arith, size, length-drop (length run') free)) (omega (arith, count)))
        | no more ↦
            let (q, r) = blocks_plain run owed b src nz more in
            let size = length-append run (b ∷ []) in
            Reads-step (λ i. decode_loop fuel (q i) (out ++ free) w)
              (ap (◌++◌ out) (append_assoc run (b ∷ []) src))
              (decode_loop-blocks src (run ++ (b ∷ [])) owed out free w fuel here
                (omega (arith, size)) (omega (arith, size)) (omega (arith, ap length q)))
      ]
    ]

-- Decoding the blocks of a source into a buffer with room for the source gives the source.
pub cobs_decode-blocks :
    (src dst : List ℕ) → length src ≤ length dst → Reads src (cobs_decode (blocks [] true src) dst)
unfolding cobs_decode
cobs_decode-blocks src dst room =
    decode_loop-blocks src [] true [] dst 0 (length (blocks [] true src)) refl (omega arith)
      (omega (arith, room)) (omega arith)
