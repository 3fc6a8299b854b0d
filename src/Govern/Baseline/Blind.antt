-- ===== src/Govern/Baseline/Blind.antt =====
-- Only blind round 1 counts, and no reference of a later round is in the baseline.
use aimesh.Base.{
  ℕ, ◌≤◌, ◌≡◌, ◌↔◌, refl, ◌∙◌, String, true, false, List, [], ◌∷◌, map, is_empty, arith,
  String_comparable, ◌||◌, same_refl,
}
use aimesh.Base.Maps.{put, has_key, has_key-put}
use aimesh.Base.Outcome.{ok, IsOk}
use aimesh.Base.Sets.{contains}
use aimesh.Schema.{ExplorerIdentity, Envelope, envelope_ref}
use aimesh.Schema.Refs.{envelope_ref-injective}
use aimesh.Round.{Round}
use aimesh.Govern.Baseline.{
  BlindBaseline, record_envelopes, baseline_of, new_blind_baseline, contains_ref,
}

abbrev pub refs_of : List Envelope → List String
refs_of = map λ e. envelope_ref 1 e.order

has_key-record_envelopes :
    (ref : String) (es : List Envelope) (refs : List (String × ExplorerIdentity))
    → has_key ref (record_envelopes es refs) ≡ (contains (refs_of es) ref || has_key ref refs)
unfolding record_envelopes
has_key-record_envelopes ref [] refs = refl
has_key-record_envelopes ref (e ∷ es) refs = ground (
  arith,
  has_key-record_envelopes ref es (put (envelope_ref 1 e.order) e.identity refs),
  has_key-put (envelope_ref 1 e.order) ref e.identity refs,
)

has_key-empty :
    (ref : String) (m : List (String × ExplorerIdentity))
    → is_empty m ≡ true
    → has_key ref m ≡ false
unfolding has_key
has_key-empty ref [] h = refl
has_key-empty ref (x ∷ m) h = cc

record_envelopes-nonempty : (es : List Envelope) → is_empty (record_envelopes es []) ≡ is_empty es
unfolding record_envelopes
record_envelopes-nonempty [] = refl
record_envelopes-nonempty (e ∷ es) = ground (
  arith,
  has_key-empty (envelope_ref 1 e.order) (record_envelopes (e ∷ es) []),
  has_key-record_envelopes (envelope_ref 1 e.order) (e ∷ es) [],
  same_refl (envelope_ref 1 e.order),
)

-- A baseline is built exactly from a blind round 1 with an envelope.
pub new_blind_baseline_iff :
    (r : Round)
    → IsOk (new_blind_baseline r)
      ↔ ((r.index ≡ 1) × (r.blind ≡ true) × (is_empty r.envelopes ≡ false))
unfolding new_blind_baseline
new_blind_baseline_iff r = (
  λ e. (
    ground (arith, e.1),
    ground (arith, e.1),
    ground (arith, e.1, record_envelopes-nonempty r.envelopes),
  ),
  λ h. (baseline_of r, ground (arith, record_envelopes-nonempty r.envelopes)),
)

-- A baseline holds the round-1 references of its round's envelopes and no others.
pub contains_ref-baseline :
    (r : Round) (b : BlindBaseline) (ref : String)
    → new_blind_baseline r ≡ ok b
    → contains_ref b ref ≡ contains (refs_of r.envelopes) ref
unfolding new_blind_baseline contains_ref has_key
contains_ref-baseline r b ref e = ground (arith, has_key-record_envelopes ref r.envelopes [])

refs_of-later :
    (es : List Envelope) (later order : ℕ)
    → 2 ≤ later
    → contains (refs_of es) (envelope_ref later order) ≡ false
refs_of-later [] later order h = refl
refs_of-later (e ∷ es) later order h = ground (
  arith,
  refs_of-later es later order h,
  String_comparable.same_iff (envelope_ref 1 e.order) (envelope_ref later order),
  envelope_ref-injective 1 later e.order order,
)

-- In a baseline that was built from a round there is no reference of an envelope of a later round.
pub later_round-excluded :
    (r : Round) (b : BlindBaseline) (later order : ℕ)
    → new_blind_baseline r ≡ ok b
    → 2 ≤ later
    → contains_ref b (envelope_ref later order) ≡ false
later_round-excluded r b later order e h =
    contains_ref-baseline r b (envelope_ref later order) e ∙ refs_of-later r.envelopes later order h
