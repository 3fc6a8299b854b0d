-- ===== src/Canon/Dual/Assigned.antt =====
-- What the loops of `assignments` leave behind, and what they accept.
use mathlib.Core.Path.{subst}
use aimesh.Base.{
  ℕ, zero, suc, ◌+◌, ◌≤◌, ◌<◌, ◌≡◌, refl, sym, ap, ◌∙◌, String, true, false, not, List, [], ◌∷◌,
  some, length, eqb, All, arith, if◌then◌else◌,
}
use aimesh.Base.Int.{ℤ, pos, negsuc, same_int}
use aimesh.Base.Outcome.{ok, IsOk, refuse, >>=-eq-ok}
use aimesh.Canon.Build.Members.{occurrences}
use aimesh.Canon.Dual.{
  outside, in_two, Homes, in_range, home_of, home_at, settle, settle_at, is_some, assign_members,
}

length-settle : (ci i : ℕ) (out : Homes) → length (settle ci i out) ≡ length out
length-settle ci i [] = refl
length-settle ci zero (h ∷ out) = refl
length-settle ci (suc i) (h ∷ out) = ap suc (length-settle ci i out)

pub length-settle_at : (ci : ℕ) (k : ℤ) (out : Homes) → length (settle_at ci k out) ≡ length out
length-settle_at ci (pos i) out = length-settle ci i out
length-settle_at ci (negsuc i) out = refl

home_of-settle :
    (ci i : ℕ) (out : Homes) (j : ℕ)
    → i < length out
    → home_of (settle ci i out) j ≡ (if eqb i j then some ci else home_of out j)
home_of-settle ci i [] j h = absurd (omega arith)
home_of-settle ci zero (x ∷ out) zero h = refl
home_of-settle ci zero (x ∷ out) (suc j) h = ground arith
home_of-settle ci (suc i) (x ∷ out) zero h = ground arith
home_of-settle ci (suc i) (x ∷ out) (suc j) h = ground (arith, home_of-settle ci i out j)

pub home_of-settle_at :
    (ci : ℕ) (k : ℤ) (out : Homes) (j : ℕ)
    → in_range (length out) k ≡ true
    → home_of (settle_at ci k out) j ≡ (if same_int k (pos j) then some ci else home_of out j)
home_of-settle_at ci (pos i) out j h = home_of-settle ci i out j (ground arith)
home_of-settle_at ci (negsuc i) out j h = cc

home_at-same :
    (out : Homes) (m : ℤ) (i : ℕ) → same_int m (pos i) ≡ true → home_at out m ≡ home_of out i
home_at-same out (pos k) i h = let same : k ≡ i = ground arith in ap (home_of out) same
home_at-same out (negsuc k) i h = cc

-- 1 for a nomination that has a cluster.
abbrev pub taken : Homes → ℕ → ℕ
taken out i = if is_some (home_of out i) then 1 else 0

-- From `out` to `out'`, the members `ms` were settled in cluster `ci`.
pub record Settled (ci : ℕ) (ms : List ℤ) (out out' : Homes) : Type 0 where
  pub size : length out' ≡ length out
  pub ranged : All (λ m. in_range (length out) m ≡ true) ms
  pub once : (i : ℕ) → occurrences ms (pos i) + taken out i ≡ taken out' i
  pub homed :
      (i : ℕ) → home_of out' i ≡ (if eqb (occurrences ms (pos i)) 0 then home_of out i else some ci)

module _ (id : String) (ci : ℕ) where
  pub assign_members-Settled :
      (ms : List ℤ) (out out' : Homes)
      → assign_members id ci ms out ≡ ok out'
      → Settled ci ms out out'
  unfolding assign_members
  assign_members-Settled [] out out' e =
      let same : out ≡ out' = cc in
      subst (λ (x : Homes). Settled ci [] out x) same
        (record { size = refl; ranged = tt; once = λ i. omega arith; homed = λ i. refl })
  assign_members-Settled (m ∷ ms) out out' e =
      let (_, inside, e1) = >>=-eq-ok (refuse (not (in_range (length out) m)) (outside id m)) _ e in
      let (_, free, e2) = >>=-eq-ok (refuse (is_some (home_at out m)) (in_two m)) _ e1 in
      let within : in_range (length out) m ≡ true = ground (arith, inside) in
      let next = settle_at ci m out in
      let later = assign_members-Settled ms next out' e2 in
      let same_size = length-settle_at ci m out in
      record {
        size = later.size ∙ same_size;
        ranged = (within, subst (λ n. All (λ k. in_range n k ≡ true) ms) same_size later.ranged);
        once = λ i.
            ground (
              arith,
              later.once i,
              home_of-settle_at ci m out i within,
              home_at-same out m i,
              free,
            );
        homed = λ i. ground (arith, later.homed i, home_of-settle_at ci m out i within);
      }

  first_free :
      (out : Homes) (m : ℤ) (ms : List ℤ)
      → in_range (length out) m ≡ true
      → ((i : ℕ) → occurrences (m ∷ ms) (pos i) + taken out i ≤ 1)
      → is_some (home_at out m) ≡ false
  first_free out (pos k) ms r h = ground (arith, h k)
  first_free out (negsuc k) ms r h = refl

  pub assign_members_total :
      (ms : List ℤ) (out : Homes)
      → All (λ m. in_range (length out) m ≡ true) ms
      → ((i : ℕ) → occurrences ms (pos i) + taken out i ≤ 1)
      → IsOk (assign_members id ci ms out)
  unfolding assign_members
  assign_members_total [] out r h = (out, refl)
  assign_members_total (m ∷ ms) out r h =
      let next = settle_at ci m out in
      let same_size = length-settle_at ci m out in
      let free = first_free out m ms r.0 h in
      let later =
        assign_members_total ms next
          (subst (λ n. All (λ k. in_range n k ≡ true) ms) (sym same_size) r.1)
          (λ i. ground (arith, h i, home_of-settle_at ci m out i r.0, home_at-same out m i)) in
      (later.0, ground (arith, r.0, free, later.1))
