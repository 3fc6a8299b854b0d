-- ===== src/Canon/Agreement/Apart.antt =====
-- The merges of one proposal that the other does not share, stated without the agreed partition.
use aimesh.Base.{
  ℕ, ◌≡◌, refl, sym, ap, ◌∙◌, String, Bool, true, false, Bool-cases, not, ◌||◌, List, [], ◌∷◌, map,
  inl, inr, length, ltb, All, arith, ◌==◌, String_comparable, keep,
}
use aimesh.Base.Int.{ℤ, pos, negsuc, ℤ_comparable}
use aimesh.Base.Sets.{contains}
use aimesh.Canon.Ledger.{ProposedCluster}
use aimesh.Canon.Dual.Grouped.{together}
use aimesh.Canon.Agreement.{landed}
use aimesh.Canon.Agreement.Held.{agreed_id, landed_iff}
use aimesh.Canon.Agreement.Agreed.{split_ids}

-- The nomination of an index that is in range.
abbrev pub index : ℤ → ℕ
index (pos i) = i
index (negsuc i) = i

abbrev pub any_apart : List ProposedCluster → ℤ → List ℤ → Bool
any_apart other m [] = false
any_apart other m (n ∷ ns) = not (together other (index m) (index n)) || any_apart other m ns

abbrev pub pairs_apart : List ProposedCluster → List ℤ → List ℤ → Bool
pairs_apart other ns [] = false
pairs_apart other ns (m ∷ ms) = any_apart other m ns || pairs_apart other ns ms

-- Whether a cluster holds two nominations that the other proposal keeps apart.
abbrev pub is_apart : List ProposedCluster → ProposedCluster → Bool
is_apart other c = pairs_apart other c.members c.members

-- The ids of a proposal's clusters that do.
abbrev pub apart_ids : List ProposedCluster → List ProposedCluster → List String
apart_ids other cs = map (λ c. c.canonical_id) (keep (is_apart other) cs)

module _ (other : List ProposedCluster) where
  any_apart-at :
      (m n : ℤ) (ns : List ℤ)
      → contains ns n ≡ true
      → together other (index m) (index n) ≡ false
      → any_apart other m ns ≡ true
  any_apart-at m n [] h k = cc
  any_apart-at m n (x ∷ ns) h k = elim (Bool-cases (x == n)) [
    | inl e ↦ let same : x ≡ n = (ℤ_comparable.same_iff x n).0 e in rw same (rw k refl)
    | inr e ↦ ground (arith, any_apart-at m n ns)
  ]

  any_apart-from :
      (m : ℤ) (ns : List ℤ)
      → any_apart other m ns ≡ true
      → (n : ℤ) × (contains ns n ≡ true) × (together other (index m) (index n) ≡ false)
  any_apart-from m [] h = cc
  any_apart-from m (n ∷ ns) h = elim (Bool-cases (together other (index m) (index n))) [
    | inl e ↦
        let (k, among, apart) = any_apart-from m ns (ground arith) in
        (k, ground (arith, among), apart)
    | inr e ↦ (n, ground (arith, ℤ_comparable.same_iff n n), e)
  ]

  pairs_apart-at :
      (ns : List ℤ) (m n : ℤ) (ms : List ℤ)
      → contains ms m ≡ true
      → contains ns n ≡ true
      → together other (index m) (index n) ≡ false
      → pairs_apart other ns ms ≡ true
  pairs_apart-at ns m n [] h k e = cc
  pairs_apart-at ns m n (x ∷ ms) h k e = elim (Bool-cases (x == m)) [
    | inl f ↦
        let same : x ≡ m = (ℤ_comparable.same_iff x m).0 f in
        rw same (ground (arith, any_apart-at m n ns k e))
    | inr f ↦ ground (arith, pairs_apart-at ns m n ms)
  ]

  pairs_apart-from :
      (ns ms : List ℤ)
      → pairs_apart other ns ms ≡ true
      → (m : ℤ) × (n : ℤ) × (contains ms m ≡ true)
        × (contains ns n ≡ true)
        × (together other (index m) (index n) ≡ false)
  pairs_apart-from ns [] h = cc
  pairs_apart-from ns (m ∷ ms) h = elim (Bool-cases (any_apart other m ns)) [
    | inl e ↦
        let (n, among, apart) = any_apart-from m ns e in
        (m, n, ground (arith, ℤ_comparable.same_iff m m), among, apart)
    | inr e ↦
        let (k, n, among_k, among_n, apart) = pairs_apart-from ns ms (ground arith) in
        (k, n, ground (arith, among_k), among_n, apart)
  ]

  -- The members of a cluster have one agreed id exactly where the other proposal has them together.
  abbrev pub IsJudged : List ProposedCluster → ProposedCluster → Type 0
  IsJudged agreed c =
      (m n : ℤ)
      → contains c.members m ≡ true
      → contains c.members n ≡ true
      → (agreed_id agreed c m == agreed_id agreed c n) ≡ together other (index m) (index n)

  judged_apart :
      (agreed : List ProposedCluster) (c : ProposedCluster)
      → IsJudged agreed c
      → not (ltb (length (landed agreed c)) 2) ≡ is_apart other c
  judged_apart agreed c j = elim (Bool-cases (is_apart other c)) [
    | inl e ↦
        let (m, n, p, q, apart) = pairs_apart-from c.members c.members e in
        rw ((landed_iff agreed c).1 (m, n, p, q, j m n p q ∙ apart)) (sym e)
    | inr e ↦ elim (Bool-cases (ltb (length (landed agreed c)) 2)) [
      | inl h ↦ rw h (sym e)
      | inr h ↦
          let (m, n, p, q, apart) = (landed_iff agreed c).0 h in
          cc (e, pairs_apart-at c.members m n c.members p q (sym (j m n p q) ∙ apart))
    ]
  ]

  pub judged_ids :
      (agreed cs : List ProposedCluster)
      → All (IsJudged agreed) cs
      → split_ids agreed cs ≡ apart_ids other cs
  judged_ids agreed [] h = refl
  judged_ids agreed (c ∷ cs) h =
      let later = judged_ids agreed cs h.1 in
      elim (Bool-cases (is_apart other c)) [
        | inl e ↦ rw (judged_apart agreed c h.0, e) (ap (λ ids. c.canonical_id ∷ ids) later)
        | inr e ↦ rw (judged_apart agreed c h.0, e) later
      ]
