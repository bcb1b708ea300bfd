-- ===== src/Wire/Cbor/RoundTrip.antt =====
-- The writer and the reader of wire/cbor/ against each other.
use slop_sync.Base.{
  ℕ, ◌+◌, ◌≤◌, ◌≡◌, refl, sym, ap, ◌∙◌, inl, inr, false, Option, none, some, List, [], ◌∷◌, ◌++◌,
  append-nil, append_assoc, arith, Option-cases, length, take, drop, All, length-append,
  drop_all-append, drop-drop,
}
use slop_sync.Result.{Result, ok, ◌>>=◌}
use slop_sync.Wire.Cbor.{Stack}
use slop_sync.Wire.Cbor.Writer.{CborWriter, new_writer, size}
use slop_sync.Wire.Cbor.Reader.{CborReader, new_reader, ahead}
use slop_sync.Wire.Cbor.Token.{Token, IsWord, write_token, read_token, token_bytes, token_stack}
use slop_sync.Wire.Cbor.Writes.{Appends, Appends-trans, write_token-Writes}
use slop_sync.Wire.Cbor.Reads.{behind, read_token-Reads}

-- Calls in a row.
unfoldable pub write_all : List Token → CborWriter → CborWriter
write_all [] w = w
write_all (t ∷ ts) w = write_all ts (write_token t w)

unfoldable pub read_all : List Token → CborReader → Result (List Token × CborReader)
read_all [] r = ok ([], r)
read_all (t ∷ ts) r = do (u, r') ← read_token t r; (us, r'') ← read_all ts r'; ok (u ∷ us, r'')

all_bytes : List Token → List ℕ
all_bytes [] = []
all_bytes (t ∷ ts) = token_bytes t ++ all_bytes ts

all_stack : List Token → Stack → Option Stack
all_stack [] stack = some stack
all_stack (t ∷ ts) stack = elim (token_stack t stack) [ none ↦ none | some st ↦ all_stack ts st ]

write_all_sound :
    (ts : List Token) (w : CborWriter) → (write_all ts w).failed ≡ false → w.failed ≡ false
unfolding write_all
write_all_sound [] w h = h
write_all_sound (t ∷ ts) w h = (write_token-Writes t w (write_all_sound ts (write_token t w) h)).2

write_all-Writes :
    (ts : List Token) (w : CborWriter)
    → w.position ≤ length w.out
    → (write_all ts w).failed ≡ false
    → Appends (all_bytes ts) w (write_all ts w)
      × (all_stack ts w.stack ≡ some (write_all ts w).stack)
      × (w.failed ≡ false)
unfolding write_all all_bytes all_stack
write_all-Writes [] w room h = (
  record {
    sound = h;
    moved = omega arith;
    written = sym (append-nil (take w.position w.out));
    sized = refl;
    room = room;
  },
  refl,
  h,
)
write_all-Writes (t ∷ ts) w room h =
    let w' = write_token t w in
    let (p, q, e) = write_token-Writes t w (write_all_sound ts w' h) in
    let (p', q', e') = write_all-Writes ts w' p.room h in
    (
      Appends-trans (token_bytes t) (all_bytes ts) w w' (write_all ts w') p p',
      rw (q, all_stack) q',
      e,
    )

read_all-Reads :
    (ts : List Token) (r : CborReader) (st : Stack) (rest : List ℕ)
    → All IsWord ts
    → ahead r ≡ all_bytes ts ++ rest
    → all_stack ts r.stack ≡ some st
    → read_all ts r ≡ ok (ts, behind r (all_bytes ts) st)
unfolding read_all all_bytes all_stack
read_all-Reads [] r st rest w e o =
    let known : r.stack ≡ st = cc o in
    λ i. ok ([], record r { position = no_more r.position i; stack = known i })
  where
    no_more : (n : ℕ) → n ≡ n + 0
    no_more n = omega arith
read_all-Reads (t ∷ ts) r st rest w e o = elim (Option-cases (token_stack t r.stack)) [
  | inl n ↦ absurd (ground (arith, o, n))
  | inr (mid, q) ↦
      let r' = behind r (token_bytes t) mid in
      let first : read_token t r ≡ ok (t, r') =
        read_token-Reads t r mid (all_bytes ts ++ rest) w.0
          (e ∙ append_assoc (token_bytes t) (all_bytes ts) rest) q in
      let next : ahead r' ≡ all_bytes ts ++ rest =
        drop-drop r.position (length (token_bytes t)) r.input
        ∙ (ap (drop (length (token_bytes t))) (e ∙ append_assoc (token_bytes t) (all_bytes ts) rest)
            ∙ drop_all-append (token_bytes t) (all_bytes ts ++ rest)) in
      let onward : all_stack ts mid ≡ some st = ground (arith, o, q) in
      let later = read_all-Reads ts r' st rest w.1 next onward in
      let size : r.position + length (token_bytes t) + length (all_bytes ts)
          ≡ r.position + length (token_bytes t ++ all_bytes ts) =
        omega (arith, length-append (token_bytes t) (all_bytes ts)) in
      rw (first, later, read_all) (λ i. ok (t ∷ ts, record r { position = size i; stack = st }))
]

-- Whatever calls the writer accepts, in whatever order, with arguments that fit their machine types: where no
-- call failed, the same calls of the reader on the bytes written answer the same values, read exactly those
-- bytes, and leave the same containers open.
pub read_all-write_all :
    (ts : List Token) (out : List ℕ)
    → All IsWord ts
    → (write_all ts (new_writer out)).failed ≡ false
    → (r : CborReader) × (read_all ts (
          new_reader
            (take (size (write_all ts (new_writer out))) (write_all ts (new_writer out)).out))
        ≡ ok (ts, r))
      × (r.position ≡ size (write_all ts (new_writer out)))
      × (r.stack ≡ (write_all ts (new_writer out)).stack)
unfolding new_writer new_reader size
read_all-write_all ts out words h =
    let w = write_all ts (new_writer out) in
    let (p, q, e) = write_all-Writes ts (new_writer out) (omega arith) h in
    let measured : size w ≡ w.position = rw (h, size) refl in
    let input : take (size w) w.out ≡ all_bytes ts ++ [] =
      (λ i. take (measured i) w.out) ∙ (p.written ∙ sym (append-nil (all_bytes ts))) in
    (
      behind (new_reader (take (size w) w.out)) (all_bytes ts) w.stack,
      read_all-Reads ts (new_reader (take (size w) w.out)) w.stack [] words input q,
      sym (measured ∙ p.moved),
      refl,
    )
