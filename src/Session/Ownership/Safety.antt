-- ===== src/Session/Ownership/Safety.antt =====
-- Runs of calls on the ownership table of session/safety.hpp.
use slop_sync.Base.{ℕ, ◌<◌, ◌≡◌, ap, ◌∙◌, subst, ◌≢◌, ◌⊎◌, Bool, false, List, [], ◌∷◌, arith, All}
use native.Mathlib.Decide.{ℕ_discrete}
use slop_sync.Session.Access.{AccessLevel, rank}
use slop_sync.Session.Ownership.{
  AcquireResult, acquired, already_owner, conflict, taken_over, Table, acquire, release,
  release_all_of, owner_of, owner_role_of,
}
use slop_sync.Session.Ownership.Laws.{Acquires, acquire-Acquires, release_lem, release_all_of_lem}

-- The calls that the hub makes for its sessions: source, session, role and takeover flag.
pub data Call : Type 0 where
  acquires : ℕ → ℕ → AccessLevel → Bool → Call
  releases : ℕ → ℕ → Call
  releases_all : ℕ → Call

unfoldable pub step : Table → Call → Table
step t (acquires s id role takeover) = (acquire t s id role takeover).1
step t (releases s id) = (release t s id).1
step t (releases_all id) = (release_all_of t id).1

unfoldable pub run : Table → List Call → Table
unfolding step
run t [] = t
run t (c ∷ cs) = run (step t c) cs

-- A call that may not end the ownership of `s` by session `o` under role `r`: the session itself does
-- not let go of `s`, and no takeover of `s` comes from another session with a role at least as high.
abbrev pub Respects : ℕ → ℕ → AccessLevel → Call → Type 0
Respects s o r (acquires s' id role takeover) =
    (s' ≢ s) ⊎ ((id ≡ o) ⊎ ((takeover ≡ false) ⊎ (rank role < rank r)))
Respects s o r (releases s' id) = (s' ≢ s) ⊎ (id ≢ o)
Respects s o r (releases_all id) = id ≢ o

-- Session `o` owns source `s` under role `r`.
abbrev pub Owns : Table → ℕ → ℕ → AccessLevel → Type 0
Owns t s o r = (owner_of t s ≡ o) × (owner_role_of t s ≡ r)

acquired-Owns :
    (t t' : Table) (s o : ℕ) (r : AccessLevel) (id : ℕ) (role : AccessLevel) (takeover : Bool)
    (answer : AcquireResult)
    → o ≢ 0
    → (id ≡ o) ⊎ ((takeover ≡ false) ⊎ (rank role < rank r))
    → Owns t s o r
    → Acquires t s id role takeover answer t'
    → Owns t' s o r
acquired-Owns t t' s o r id role takeover acquired n a w f = ground arith
acquired-Owns t t' s o r id role takeover already_owner n a w f = ground arith
acquired-Owns t t' s o r id role takeover conflict n a w f = (f.0 ∙ w.0, f.1 ∙ w.1)
acquired-Owns t t' s o r id role takeover taken_over n a w f = ground arith

step-Owns :
    (t : Table) (s o : ℕ) (r : AccessLevel) (c : Call)
    → o ≢ 0
    → Respects s o r c
    → Owns t s o r
    → Owns (step t c) s o r
unfolding step
step-Owns t s o r (acquires s' id role takeover) n a w = elim (ℕ_discrete s s') [
  | yes same ↦
      subst (λ k. Owns (acquire t k id role takeover).1 s o r) same
        (acquired-Owns t _ s o r id role takeover (acquire t s id role takeover).0 n (ground arith)
          w (acquire-Acquires t s id role takeover s).0)
  | no other ↦ let (p, q) = (acquire-Acquires t s' id role takeover s).1 other in (p ∙ w.0, q ∙ w.1)
]
step-Owns t s o r (releases s' id) n a w = elim (ℕ_discrete s s') [
  | yes same ↦ ground (arith, release_lem t s' id s, ap (owner_of t) same)
  | no other ↦ let (p, q) = (release_lem t s' id s).1 other in (p ∙ w.0, q ∙ w.1)
]
step-Owns t s o r (releases_all id) n a w = ground (arith, release_all_of_lem t id s)

-- Once a session owns a source, it owns it under the same role after any run of calls in which it does
-- not itself release the source, and no other session requests a takeover of it with a role at
-- least as high.
pub run-Owns :
    (t : Table) (s o : ℕ) (r : AccessLevel) (cs : List Call)
    → o ≢ 0
    → All (Respects s o r) cs
    → Owns t s o r
    → Owns (run t cs) s o r
unfolding run
run-Owns t s o r [] n a w = w
run-Owns t s o r (c ∷ cs) n (a, rest) w =
    run-Owns (step t c) s o r cs n rest (step-Owns t s o r c n a w)
