-- ===== src/Activation/Match.antt =====
-- What `chooseMatch` of src/server/modules/activation/fingerprint.ts chooses.
use mathlib.Core.Path.{subst}
use license_srv.Prelude.{
  ℕ, ◌≤◌, ◌<◌, ◌≡◌, refl, ◌⊎◌, inl, inr, true, false, Option, none, some, List, [], ◌∷◌, arith, ltb,
  ◌==◌, All, find, find-eq-some, count_by, Option-cases, Bool-cases, Mem, find-Mem, find-eq-none,
}
use license_srv.Activation.Fingerprint.{
  overlap_count, MatchCandidate, is_machine, is_newer, consider, best_match, choose_match,
}

by_id : (a b : ℕ) → (a == b) ≡ true → a ≡ b
by_id a b e = ground arith

module _ (incoming : List ℕ) (k : ℕ) where
  shared : MatchCandidate → ℕ
  shared c = overlap_count incoming c.signal_hashes

  -- `c` is no better a match than `b`: fewer shared signals, or as many and no later activity.
  pub NoBetter : MatchCandidate → MatchCandidate → Type 0
  NoBetter b c = (shared c < shared b) ⊎ ((shared c ≡ shared b) × (c.updated_at ≤ b.updated_at))

  -- What the loop has established of the candidates so far.
  Best : Option MatchCandidate → MatchCandidate → Type 0
  Best none c = shared c < k
  Best (some b) c = NoBetter b c

  Counted : Option MatchCandidate → ℕ → Type 0
  Counted none n = n ≡ 0
  Counted (some b) n = (n ≡ shared b) × (k ≤ n)

  -- A turn of the loop either passes the candidate over or takes it.
  data Turn (c : MatchCandidate) (best : Option MatchCandidate) (n : ℕ) : Type 0 where
    passed :
        consider (shared c) k c (best, n) ≡ (best, n)
        → (shared c < k) ⊎ ((shared c < n) ⊎ ((shared c ≡ n) × (is_newer c best ≡ false)))
        → Turn c best n
    taken :
        consider (shared c) k c (best, n) ≡ (some c, shared c)
        → k ≤ shared c
        → (n < shared c) ⊎ ((shared c ≡ n) × (is_newer c best ≡ true))
        → Turn c best n

  consider-Turn : (c : MatchCandidate) (best : Option MatchCandidate) (n : ℕ) → Turn c best n
  unfolding consider
  consider-Turn c best n = elim (Bool-cases (ltb (shared c) k)) [
    | inl few ↦ passed (ground arith) (inl (ground arith))
    | inr enough ↦ elim (Bool-cases (ltb n (shared c))) [
      | inl more ↦ taken (ground arith) (ground arith) (inl (ground arith))
      | inr fewer ↦ elim (Bool-cases (shared c == n)) [
        | inr apart ↦ passed (ground arith) (inr (inl (ground arith)))
        | inl level ↦ elim (Bool-cases (is_newer c best)) [
          | inl newer ↦ taken (ground arith) (ground arith) (inr (ground arith, newer))
          | inr older ↦ passed (ground arith) (inr (inr (ground arith, older)))
        ]
      ]
    ]
  ]

  module _ (positive : 0 < k) (c : MatchCandidate) where
    passed-Best :
        (best : Option MatchCandidate) (n : ℕ)
        → Counted best n
        → (shared c < k) ⊎ ((shared c < n) ⊎ ((shared c ≡ n) × (is_newer c best ≡ false)))
        → Best best c
    unfolding Counted Best NoBetter
    passed-Best none n h (inl few) = few
    passed-Best none n h (inr (inl fewer)) = omega arith
    passed-Best none n h (inr (inr (level, older))) = omega arith
    passed-Best (some b) n h (inl few) = inl (omega (arith, h.0, h.1))
    passed-Best (some b) n h (inr (inl fewer)) = inl (omega (arith, h.0))
    passed-Best (some b) n h (inr (inr (level, older))) = inr (omega (arith, h.0), ground arith)

    taken-Best :
        (best : Option MatchCandidate) (n : ℕ) (d : MatchCandidate)
        → Counted best n
        → k ≤ shared c
        → (n < shared c) ⊎ ((shared c ≡ n) × (is_newer c best ≡ true))
        → Best best d
        → NoBetter c d
    unfolding Counted Best NoBetter
    taken-Best none n d h le more p = inl (omega arith)
    taken-Best (some b) n d h le (inl more) (inl p) = inl (omega (arith, h.0))
    taken-Best (some b) n d h le (inl more) (inr p) = inl (omega (arith, h.0, p.0))
    taken-Best (some b) n d h le (inr (level, newer)) (inl p) = inl (omega (arith, h.0))
    taken-Best (some b) n d h le (inr (level, newer)) (inr p) =
        inr (omega (arith, h.0, p.0), ground arith)

  -- The result of the loop over `cs`, begun with `best`.
  record Selected (best : Option MatchCandidate) (cs : List MatchCandidate)
      (r : Option MatchCandidate) : Type 0 where
    all : All (Best r) cs
    keeps : (d : MatchCandidate) → Best best d → Best r d
    from : (r ≡ best) ⊎ ((b : MatchCandidate) × (r ≡ some b) × Mem b cs × (k ≤ shared b))

  best_match-Selected :
      0 < k
      → (best : Option MatchCandidate) (n : ℕ) (cs : List MatchCandidate) → Counted best n
      → Selected best cs (best_match incoming k (best, n) cs)
  unfolding best_match Counted Best NoBetter shared
  best_match-Selected positive best n [] h = record { all = tt; keeps = λ d p. p; from = inl refl }
  best_match-Selected positive best n (c ∷ cs) h = elim (consider-Turn c best n) [
    | passed e why ↦
        let rest = best_match-Selected positive best n cs h in
        rw e (record {
          all = (rest.keeps c (passed-Best positive c best n h why), rest.all);
          keeps = rest.keeps;
          from = elim rest.from [ inl same ↦ inl same | inr (b, r, m, le) ↦ inr (b, r, inr m, le) ];
        })
    | taken e le why ↦
        let rest = best_match-Selected positive (some c) (shared c) cs (refl, le) in
        rw e (record {
          all = (rest.keeps c (inr (refl, omega arith)), rest.all);
          keeps = λ d p. rest.keeps d (taken-Best positive c best n d h le why p);
          from = elim rest.from [
            | inl same ↦ inr (c, same, inl refl, le)
            | inr (b, r, m, le') ↦ inr (b, r, inr m, le')
          ];
        })
  ]

  -- The three ways of a match: by the machine's id, by the signals that it shares, not at all.
  pub data Choice (machine_id : ℕ) (cs : List MatchCandidate) (r : Option MatchCandidate)
      : Type 0 where
    exact :
        (c : MatchCandidate)
        → r ≡ some c
        → Mem c cs
        → c.machine_id ≡ machine_id
        → Choice machine_id cs r
    drifted :
        (c : MatchCandidate)
        → r ≡ some c
        → Mem c cs
        → count_by (is_machine machine_id) cs ≡ 0
        → k ≤ overlap_count incoming c.signal_hashes
        → All (NoBetter c) cs
        → Choice machine_id cs r
    unmatched :
        r ≡ none
        → count_by (is_machine machine_id) cs ≡ 0
        → All (λ c. overlap_count incoming (MatchCandidate.signal_hashes c) < k) cs
        → Choice machine_id cs r

  by_signals :
      (machine_id : ℕ) (cs : List MatchCandidate) (r : Option MatchCandidate)
      → count_by (is_machine machine_id) cs ≡ 0
      → Selected none cs r
      → Choice machine_id cs r
  unfolding Best shared
  by_signals machine_id cs none absent s = unmatched refl absent s.all
  by_signals machine_id cs (some b) absent s = elim s.from [
    | inl e ↦ cc
    | inr (c, e, m, le) ↦
        let same : c ≡ b = cc in
        drifted b refl (subst (λ x. Mem x cs) same m) absent (subst (λ x. k ≤ shared x) same le)
          s.all
  ]

  -- Where `k` is at least 1, a returning machine is matched with the active machine of its own id
  -- where there is one; else with one that shares at least `k` signals, such that none shares more and none that shares as
  -- many was active later; and with none only where all share fewer than `k`.
  pub choose_match-Choice :
      0 < k
      → (machine_id : ℕ) (cs : List MatchCandidate)
      → Choice machine_id cs (choose_match incoming machine_id cs k)
  unfolding choose_match Counted
  choose_match-Choice positive machine_id cs =
      elim (Option-cases (find (is_machine machine_id) cs)) [
        | inr (c, found) ↦
            let own : c.machine_id ≡ machine_id =
              by_id c.machine_id machine_id (find-eq-some (is_machine machine_id) cs found) in
            rw found (exact c refl (find-Mem _ cs found) own)
        | inl absent ↦ rw absent (
            by_signals machine_id cs (best_match incoming k (none, 0) cs) (find-eq-none _ cs absent)
              (best_match-Selected positive none 0 cs refl))
      ]
