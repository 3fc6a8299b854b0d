-- ===== src/Canon/Build/Members.antt =====
-- The inner loop of `buildLedger` (canon.go): the members of one cluster.
use aimesh.Base.{
  ℕ, zero, suc, ◌+◌, ◌<◌, ◌≡◌, refl, sym, ap, ◌∙◌, List, [], ◌∷◌, ◌++◌, none, some, Option-cases,
  inl, inr, length, eqb, All, All-append, arith, if◌then◌else◌, String_comparable,
}
use mathlib.Core.Path.{subst}
use mathlib.Core.List.{append-nil, append_assoc}
use aimesh.Base.Chain.{chain, chain-append}
use aimesh.Base.Int.{ℤ, pos, negsuc, same_int}
use aimesh.Base.Outcome.{ok, err, IsOk}
use aimesh.Base.Text.{trim_space}
use aimesh.Canon.Ledger.{Nomination, ProposedCluster, LedgerRow, append}
use aimesh.Canon.Build.{
  index_out_of_range, Building, Job, nomination_at, increment, increment_at, row_for, add_members,
}

-- How often an index occurs.
abbrev pub occurrences : List ℤ → ℤ → ℕ
occurrences [] k = 0
occurrences (m ∷ ms) k = (if same_int m k then 1 else 0) + occurrences ms k

abbrev pub all_members : List ProposedCluster → List ℤ
all_members [] = []
all_members (c ∷ cs) = c.members ++ all_members cs

abbrev pub InRange : List Nomination → ℤ → Type 0
InRange noms idx = (n : Nomination) × (nomination_at noms idx ≡ some n)

-- The count at an index, 0 past the end.
abbrev pub count_at : List ℕ → ℕ → ℕ
count_at [] i = 0
count_at (n ∷ ns) zero = n
count_at (n ∷ ns) (suc i) = count_at ns i

length-increment : (k : ℕ) (ns : List ℕ) → length (increment k ns) ≡ length ns
length-increment k [] = refl
length-increment zero (n ∷ ns) = refl
length-increment (suc k) (n ∷ ns) = ap suc (length-increment k ns)

length-increment_at : (k : ℤ) (ns : List ℕ) → length (increment_at k ns) ≡ length ns
length-increment_at (pos k) ns = length-increment k ns
length-increment_at (negsuc k) ns = refl

count_at-increment :
    (k : ℕ) (ns : List ℕ) (i : ℕ)
    → i < length ns
    → count_at (increment k ns) i ≡ (if eqb k i then 1 else 0) + count_at ns i
count_at-increment k [] i h = absurd (omega arith)
count_at-increment zero (n ∷ ns) zero h = omega arith
count_at-increment zero (n ∷ ns) (suc i) h = ground arith
count_at-increment (suc k) (n ∷ ns) zero h = ground arith
count_at-increment (suc k) (n ∷ ns) (suc i) h = ground (arith, count_at-increment k ns i)

count_at-increment_at :
    (k : ℤ) (ns : List ℕ) (i : ℕ)
    → i < length ns
    → count_at (increment_at k ns) i ≡ (if same_int k (pos i) then 1 else 0) + count_at ns i
count_at-increment_at (pos k) ns i h = count_at-increment k ns i h
count_at-increment_at (negsuc k) ns i h = omega arith

pub occurrences-append :
    (xs ys : List ℤ) (k : ℤ) → occurrences (xs ++ ys) k ≡ occurrences xs k + occurrences ys k
occurrences-append [] ys k = omega arith
occurrences-append (x ∷ xs) ys k = omega (arith, occurrences-append xs ys k)

-- The rows of some members of one cluster, in order.
abbrev pub rows_for : Job → ProposedCluster → List ℤ → List LedgerRow
rows_for j c [] = []
rows_for j c (m ∷ ms) =
    let rest = rows_for j c ms in
    elim (nomination_at j.nominations m) [ none ↦ rest | some n ↦ row_for j c n ∷ rest ]

abbrev pub all_rows : Job → List ProposedCluster → List LedgerRow
all_rows j [] = []
all_rows j (c ∷ cs) = rows_for j c c.members ++ all_rows j cs

module _ (j : Job) where
  -- What some rows and member indices leave behind in the loop's variables.
  pub record Added (ms : List ℤ) (rs : List LedgerRow) (b b' : Building) : Type 0 where
    pub in_range : All (InRange j.nominations) ms
    pub size : length b'.assigned ≡ length b.assigned
    pub counts :
        (i : ℕ)
        → i < length b.assigned
        → count_at b'.assigned i ≡ occurrences ms (pos i) + count_at b.assigned i
    pub rows : b'.led.rows ≡ b.led.rows ++ rs
    pub head : b'.led.revision_hash ≡ chain j.digest.row b.led.revision_hash rs

  pub Added-none : (b : Building) → Added [] [] b b
  Added-none b = record {
    in_range = tt;
    size = refl;
    counts = λ i h. omega arith;
    rows = sym (append-nil b.led.rows);
    head = refl;
  }

  pub Added-more :
      {ms ns : List ℤ} {rs ss : List LedgerRow} {a b b' : Building}
      → Added ms rs a b
      → Added ns ss b b'
      → Added (ms ++ ns) (rs ++ ss) a b'
  Added-more {ms} {ns} {rs} {ss} {a} {b} {b'} h k = record {
    in_range = All-append (InRange j.nominations) ms ns h.in_range k.in_range;
    size = k.size ∙ h.size;
    counts = λ i l.
        omega (
          arith,
          occurrences-append ms ns (pos i),
          h.counts i l,
          k.counts i (omega (arith, h.size)),
        );
    rows = k.rows ∙ ap (λ rows. rows ++ ss) h.rows ∙ append_assoc a.led.rows rs ss;
    head =
        k.head
        ∙ ap (λ head. chain j.digest.row head ss) h.head
        ∙ sym (chain-append j.digest.row a.led.revision_hash rs ss);
  }

  -- The loop's variables after one member.
  abbrev pub next : ProposedCluster → ℤ → Nomination → Building → Building
  next c m n b = record b {
    led = append j.digest b.led (row_for j c n);
    assigned = increment_at m b.assigned;
  }

  next-Added :
      (c : ProposedCluster) (m : ℤ) (n : Nomination) (b : Building)
      → nomination_at j.nominations m ≡ some n
      → Added (m ∷ []) (row_for j c n ∷ []) b (next c m n b)
  unfolding append
  next-Added c m n b h = record {
    in_range = ((n, h), tt);
    size = length-increment_at m b.assigned;
    counts = λ i l. omega (arith, count_at-increment_at m b.assigned i l);
    rows = refl;
    head = refl;
  }

  pub add_members_step :
      (c : ProposedCluster) (m : ℤ) (ms : List ℤ) (n : Nomination) (b : Building)
      → nomination_at j.nominations m ≡ some n
      → add_members j c (m ∷ ms) b ≡ add_members j c ms (next c m n b)
  unfolding add_members
  add_members_step c m ms n b h = rw (h, add_members)

  pub add_members-out :
      (c : ProposedCluster) (m : ℤ) (ms : List ℤ) (b : Building)
      → nomination_at j.nominations m ≡ none
      → add_members j c (m ∷ ms) b ≡ err (index_out_of_range (trim_space c.canonical_id) m)
  unfolding add_members
  add_members-out c m ms b h = rw (h, add_members)

  pub add_members-nil : (c : ProposedCluster) (b : Building) → add_members j c [] b ≡ ok b
  unfolding add_members
  add_members-nil c b = refl

  pub rows_for-cons :
      (c : ProposedCluster) (m : ℤ) (ms : List ℤ) (n : Nomination)
      → nomination_at j.nominations m ≡ some n
      → rows_for j c (m ∷ ms) ≡ row_for j c n ∷ rows_for j c ms
  rows_for-cons c m ms n h = rw (h, rows_for)

  pub add_members-Added :
      (c : ProposedCluster) (ms : List ℤ) (b b' : Building)
      → add_members j c ms b ≡ ok b'
      → Added ms (rows_for j c ms) b b' × (b'.seen_id ≡ b.seen_id)
  add_members-Added c [] b b' e =
      let same : b ≡ b' = cc (add_members-nil c b) in
      (subst (Added [] [] b) same (Added-none b), ap (λ (x : Building). x.seen_id) (sym same))
  add_members-Added c (m ∷ ms) b b' e = elim (Option-cases (nomination_at j.nominations m)) [
    | inl h ↦ cc (add_members-out c m ms b h)
    | inr (n, h) ↦
        let (later, seen) =
          add_members-Added c ms (next c m n b) b' (sym (add_members_step c m ms n b h) ∙ e) in
        (rw (rows_for-cons c m ms n h) (Added-more (next-Added c m n b h) later), seen)
  ]

  pub add_members_total :
      (c : ProposedCluster) (ms : List ℤ) (b : Building)
      → All (InRange j.nominations) ms
      → IsOk (add_members j c ms b)
  add_members_total c [] b h = (b, add_members-nil c b)
  add_members_total c (m ∷ ms) b h =
      let (n, found) = h.0 in
      rw (add_members_step c m ms n b found) (add_members_total c ms (next c m n b) h.1)
