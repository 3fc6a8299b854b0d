-- ===== src/Canon/Parsed/Judged.antt =====
-- The challenges of `ParseChallenges` in the first loop of `Confirm` (confirm.go).
use aimesh.Base.{◌≤◌, length, ◌≡◌, refl, sym, ap, ◌∙◌, String, List, [], ◌∷◌}
use aimesh.Base.Outcome.{ok, ok-injective, IsOk, >>=-eq-ok}
use aimesh.Schema.{ExplorerIdentity}
use aimesh.Canon.View.{Result}
use aimesh.Canon.Challenge.{Challenge, validate_challenge}
use aimesh.Canon.Parsed.{ChallengeWire, challenge_of, parse_challenges}
use aimesh.Canon.Confirmation.Total.{misreads-within}
use aimesh.Canon.Confirmation.{Review, judge_challenge, judge_challenges}

module _ (known : List String) (by : ExplorerIdentity) (prov : Result) (assign : List String)
    (covered : length assign ≤ length prov.nominations) where
  judges_one :
      (ch : Challenge) (chs : List Challenge) (v : Review)
      → validate_challenge known ch ≡ ok tt
      → judge_challenges known prov assign (ch ∷ chs) v
        ≡ judge_challenges known prov assign chs (judge_challenge prov assign ch ch.type v)
  unfolding judge_challenges
  judges_one ch chs v h = rw (h, misreads-within prov assign covered ch ch.type) refl

  judges_none : (v : Review) → judge_challenges known prov assign [] v ≡ ok v
  unfolding judge_challenges
  judges_none v = refl

  parsed_cases :
      (w : ChallengeWire) (ws : List ChallengeWire) (out : List Challenge)
      → parse_challenges known by (w ∷ ws) ≡ ok out
      → (rest : List Challenge) × (validate_challenge known (challenge_of by w) ≡ ok tt)
        × (parse_challenges known by ws ≡ ok rest)
        × (challenge_of by w ∷ rest ≡ out)
  unfolding parse_challenges
  parsed_cases w ws out e =
      let (_, valid, e1) = >>=-eq-ok (validate_challenge known (challenge_of by w)) _ e in
      let (rest, later, e2) = >>=-eq-ok (parse_challenges known by ws) _ e1 in
      (rest, valid, later, ok-injective e2)

  parsed_nil : (out : List Challenge) → parse_challenges known by [] ≡ ok out → [] ≡ out
  unfolding parse_challenges
  parsed_nil out e = ok-injective e

  -- What an explorer's answer was parsed to is judged without a refusal, where no more ids are held
  -- than there are nominations.
  pub judge_challenges-parsed :
      (ws : List ChallengeWire) (chs : List Challenge) (v : Review)
      → parse_challenges known by ws ≡ ok chs
      → IsOk (judge_challenges known prov assign chs v)
  judge_challenges-parsed [] chs v e = (
    v,
    ap (λ cs. judge_challenges known prov assign cs v) (sym (parsed_nil chs e)) ∙ judges_none v,
  )
  judge_challenges-parsed (w ∷ ws) chs v e =
      let (rest, valid, later, same) = parsed_cases w ws chs e in
      let ch = challenge_of by w in
      let (out, run) =
        judge_challenges-parsed ws rest (judge_challenge prov assign ch ch.type v) later in
      (
        out,
        ap (λ cs. judge_challenges known prov assign cs v) (sym same)
            ∙ judges_one ch rest v valid
            ∙ run,
      )
