-- ===== src/Activation/Fingerprint.antt =====
-- src/server/modules/activation/fingerprint.ts: the identity of a machine and its K-of-N match. A
-- signal hash is a number, in the order in which its text sorts; `updatedAt` is in milliseconds.
use license_srv.Prelude.{
  ℕ, Bool, false, ◌&&◌, ◌||◌, Option, none, some, List, [], ◌∷◌, ltb, ◌==◌, if◌then◌else◌, find,
  any_by, count_by, dedup,
}
use license_srv.Lease.HolderKey.{canonical_machine}

-- `saltedHash` of the signals joined by "|", with the salt of the configuration.
abbrev pub SignalDigest : Type 0
SignalDigest = List ℕ → ℕ

unfoldable pub derive_machine_id : SignalDigest → List ℕ → ℕ
unfolding canonical_machine
derive_machine_id digest signal_hashes = digest (canonical_machine signal_hashes)

abbrev pub has : List ℕ → ℕ → Bool
has b s = any_by (λ t. t == s) b

unfoldable pub overlap_count : List ℕ → List ℕ → ℕ
overlap_count a b = count_by (has b) (dedup a)

pub record MatchCandidate : Type 0 where
  pub id : ℕ
  pub machine_id : ℕ
  pub signal_hashes : List ℕ
  pub updated_at : ℕ

abbrev pub is_machine : ℕ → MatchCandidate → Bool
is_machine machine_id c = MatchCandidate.machine_id c == machine_id

abbrev pub is_newer : MatchCandidate → Option MatchCandidate → Bool
is_newer c none = false
is_newer c (some best) = ltb best.updated_at c.updated_at

-- One turn of the loop, on `best` and `bestOverlap`, for a candidate that shares `o` signals.
unfoldable pub consider :
    (o k : ℕ) → MatchCandidate → Option MatchCandidate × ℕ → Option MatchCandidate × ℕ
consider o k c (best, best_overlap) =
    if ltb o k
    then (best, best_overlap)
    else if ltb best_overlap o || (o == best_overlap && is_newer c best)
    then (some c, o)
    else (best, best_overlap)

unfoldable pub best_match :
    (incoming : List ℕ)
    → (k : ℕ) → Option MatchCandidate × ℕ
    → List MatchCandidate
    → Option MatchCandidate
unfolding consider overlap_count
best_match incoming k acc [] = acc.0
best_match incoming k acc (c ∷ cs) =
    best_match incoming k (consider (overlap_count incoming c.signal_hashes) k c acc) cs

abbrev pub or_else : {A : Type 0} → Option A → Option A → Option A
or_else none b = b
or_else (some a) b = some a

unfoldable pub choose_match :
    (incoming : List ℕ) → (machine_id : ℕ) → List MatchCandidate → (k : ℕ) → Option MatchCandidate
unfolding best_match
choose_match incoming machine_id candidates k =
    or_else (find (is_machine machine_id) candidates) (best_match incoming k (none, 0) candidates)
