-- ===== src/Canon/Agreement/Held.antt =====
-- `contestedMerges` of dual.go: the agreed clusters in which a proposed cluster lands.
use aimesh.Base.{
  ℕ, ◌≤◌, ◌≡◌, ◌↔◌, refl, sym, ◌∙◌, String, true, false, Bool-cases, List, [], ◌∷◌, map, inl, inr,
  length, ltb, arith, if◌then◌else◌, ◌==◌, String_comparable,
}
use aimesh.Base.Int.{ℤ, pos, ℤ_comparable}
use aimesh.Base.Sets.{contains, contains-key_set, key_set-IsUnique, IsUnique}
use aimesh.Canon.Ledger.{ProposedCluster}
use aimesh.Canon.Build.Members.{occurrences, occurrences-append, all_members}
use aimesh.Canon.Dual.Grouped.{together, together-held, together_comm, contains-occurrences}
use aimesh.Canon.Agreement.{held, landed}

abbrev pub ids : List ProposedCluster → List String
ids = map λ c. c.canonical_id

held-other :
    (cs : List ProposedCluster) (k : ℤ) (id : String)
    → occurrences (all_members cs) k ≡ 0
    → held cs k id ≡ id
unfolding held
held-other [] k id h = refl
held-other (c ∷ cs) k id h = ground (
  arith,
  held-other cs k id,
  occurrences-append c.members (all_members cs) k,
  contains-occurrences c.members k,
)

-- Where the index is held, what was held before does not count, and the id is one of the partition's.
held-among :
    (cs : List ProposedCluster) (k : ℤ) (id : String)
    → 1 ≤ occurrences (all_members cs) k
    → contains (ids cs) (held cs k id) ≡ true
unfolding held
held-among [] k id h = absurd (omega arith)
held-among (c ∷ cs) k id h = elim (Bool-cases (ltb 0 (occurrences (all_members cs) k))) [
  | inl e ↦
      let later =
        held-among cs k (if contains c.members k then c.canonical_id else id) (ground arith) in
      ground (arith, later)
  | inr e ↦ ground (
    arith,
    occurrences-append c.members (all_members cs) k,
    contains-occurrences c.members k,
    held-other cs k (if contains c.members k then c.canonical_id else id),
    String_comparable.same_iff c.canonical_id c.canonical_id,
  )
]

id-absent :
    (id s : String) (cs : List ProposedCluster)
    → contains (ids cs) id ≡ false
    → contains (ids cs) s ≡ true
    → (id == s) ≡ false
id-absent id s cs h k = elim (Bool-cases (id == s)) [
  | inl e ↦ cc (h, k, (String_comparable.same_iff id s).0 e)
  | inr e ↦ e
]

-- One holds the head, the other does not.
held-apart :
    (c : ProposedCluster) (cs : List ProposedCluster) (i j : ℕ) (id : String)
    → IsUnique (ids (c ∷ cs))
    → occurrences (all_members (c ∷ cs)) (pos i) ≡ 1
    → occurrences (all_members (c ∷ cs)) (pos j) ≡ 1
    → contains c.members (pos i) ≡ true
    → contains c.members (pos j) ≡ false
    → ((c.canonical_id == held cs (pos j) id) ≡ false)
      × (together cs i j ≡ false)
      × (held cs (pos i) c.canonical_id ≡ c.canonical_id)
held-apart c cs i j id u a b p q =
    let none_i : occurrences (all_members cs) (pos i) ≡ 0 = ground (
      arith,
      occurrences-append c.members (all_members cs) (pos i),
      contains-occurrences c.members (pos i),
    ) in
    let one_j : occurrences (all_members cs) (pos j) ≡ 1 = ground (
      arith,
      occurrences-append c.members (all_members cs) (pos j),
      contains-occurrences c.members (pos j),
    ) in
    (
      id-absent c.canonical_id (held cs (pos j) id) cs u.0 (held-among cs (pos j) id (omega arith)),
      ground (arith, together-held cs i j),
      held-other cs (pos i) c.canonical_id none_i,
    )

-- In a partition with distinct ids, two nominations that stand once have one id exactly if they are
-- together.
pub held-together :
    (cs : List ProposedCluster) (i j : ℕ) (id : String)
    → IsUnique (ids cs)
    → occurrences (all_members cs) (pos i) ≡ 1
    → occurrences (all_members cs) (pos j) ≡ 1
    → (held cs (pos i) id == held cs (pos j) id) ≡ together cs i j
unfolding held
held-together [] i j id u a b = absurd (omega arith)
held-together (c ∷ cs) i j id u a b = elim (Bool-cases (contains c.members (pos i))) [
  | inl p ↦ elim (Bool-cases (contains c.members (pos j))) [
    | inl q ↦
        let here_i = held-other cs (pos i) c.canonical_id (
          ground (
            arith,
            occurrences-append c.members (all_members cs) (pos i),
            contains-occurrences c.members (pos i),
          )) in
        let here_j = held-other cs (pos j) c.canonical_id (
          ground (
            arith,
            occurrences-append c.members (all_members cs) (pos j),
            contains-occurrences c.members (pos j),
          )) in
        rw (p, q, here_i, here_j)
          ((String_comparable.same_iff c.canonical_id c.canonical_id).1 refl)
    | inr q ↦
        let (apart, split, same) = held-apart c cs i j id u a b p q in rw (p, q, same, split) apart
  ]
  | inr p ↦ elim (Bool-cases (contains c.members (pos j))) [
    | inl q ↦
        let (apart, split, same) = held-apart c cs j i id u b a q p in
        ground (
          arith,
          apart,
          split,
          same,
          together_comm cs i j,
          String_comparable.same_iff c.canonical_id (held cs (pos i) id),
          String_comparable.same_iff (held cs (pos i) id) c.canonical_id,
        )
    | inr q ↦
        let later =
          held-together cs i j id u.1
            (ground (
              arith,
              occurrences-append c.members (all_members cs) (pos i),
              contains-occurrences c.members (pos i),
            ))
            (ground (
              arith,
              occurrences-append c.members (all_members cs) (pos j),
              contains-occurrences c.members (pos j),
            )) in
        rw (p, q) later
  ]
]

-- Of fewer than two distinct texts, all are one.
few_same :
    (xs : List String)
    → ltb (length xs) 2 ≡ true
    → (a b : String) → contains xs a ≡ true
    → contains xs b ≡ true
    → a ≡ b
few_same [] h a b p q = cc
few_same (x ∷ []) h a b p q =
    ground (arith, String_comparable.same_iff x a, String_comparable.same_iff x b)
few_same (x ∷ y ∷ xs) h a b p q = absurd (ground arith)

many_differ :
    (xs : List String)
    → IsUnique xs
    → ltb (length xs) 2 ≡ false
    → (a : String) × (b : String) × (contains xs a ≡ true)
      × (contains xs b ≡ true)
      × ((a == b) ≡ false)
many_differ [] u h = absurd (ground arith)
many_differ (x ∷ []) u h = absurd (ground arith)
many_differ (x ∷ y ∷ xs) u h = (
  x,
  y,
  ground (arith, String_comparable.same_iff x x),
  ground (arith, String_comparable.same_iff y y),
  ground (arith, u.0, String_comparable.same_iff x y, String_comparable.same_iff y x),
)

contains-map :
    (f : ℤ → String) (ms : List ℤ) (m : ℤ) → contains ms m ≡ true → contains (map f ms) (f m) ≡ true
contains-map f [] m h = cc
contains-map f (n ∷ ms) m h = elim (Bool-cases (n == m)) [
  | inl e ↦
      let same : n ≡ m = (ℤ_comparable.same_iff n m).0 e in
      rw same (ground (arith, String_comparable.same_iff (f m) (f m)))
  | inr e ↦ ground (arith, contains-map f ms m)
]

contains-map-from :
    (f : ℤ → String) (ms : List ℤ) (s : String)
    → contains (map f ms) s ≡ true
    → (m : ℤ) × (contains ms m ≡ true) × (f m ≡ s)
contains-map-from f [] s h = cc
contains-map-from f (n ∷ ms) s h = elim (Bool-cases (f n == s)) [
  | inl e ↦ (n, ground (arith, ℤ_comparable.same_iff n n), (String_comparable.same_iff (f n) s).0 e)
  | inr e ↦
      let (m, among, same) = contains-map-from f ms s (ground arith) in
      (m, ground (arith, among), same)
]

module _ (agreed : List ProposedCluster) (c : ProposedCluster) where
  abbrev pub agreed_id : ℤ → String
  agreed_id idx = held agreed idx ""

  -- Two members under different agreed ids.
  abbrev pub IsApart : Type 0
  IsApart =
      (m : ℤ) × (n : ℤ) × (contains c.members m ≡ true)
      × (contains c.members n ≡ true)
      × ((agreed_id m == agreed_id n) ≡ false)

  landed_apart : ltb (length (landed agreed c)) 2 ≡ false → IsApart
  landed_apart h =
      let (a, b, p, q, apart) =
        many_differ (landed agreed c) (key_set-IsUnique (map agreed_id c.members)) h in
      let (m, mem_m, same_m) =
        contains-map-from agreed_id c.members a
          (sym (contains-key_set (map agreed_id c.members) a) ∙ p) in
      let (n, mem_n, same_n) =
        contains-map-from agreed_id c.members b
          (sym (contains-key_set (map agreed_id c.members) b) ∙ q) in
      (m, n, mem_m, mem_n, rw (same_m, same_n) apart)

  apart_landed : IsApart → ltb (length (landed agreed c)) 2 ≡ false
  apart_landed (m, n, p, q, apart) = elim (Bool-cases (ltb (length (landed agreed c)) 2)) [
    | inl h ↦
        let same =
          few_same (landed agreed c) h (agreed_id m) (agreed_id n)
            (contains-key_set (map agreed_id c.members) (agreed_id m)
              ∙ contains-map agreed_id c.members m p)
            (contains-key_set (map agreed_id c.members) (agreed_id n)
              ∙ contains-map agreed_id c.members n q) in
        cc (apart, (String_comparable.same_iff (agreed_id m) (agreed_id n)).1 same)
    | inr h ↦ h
  ]

  -- A proposed cluster lands in two agreed clusters exactly if it holds two indices with different ids.
  pub landed_iff : (ltb (length (landed agreed c)) 2 ≡ false) ↔ IsApart
  landed_iff = (landed_apart, apart_landed)
