-- ===== src/Tests/Registry.antt =====
-- The registry of runs on two runs.
use aimesh.Base.{ℕ, ◌≡◌, ◌≤◌, refl, none, some}
use aimesh.Base.Maps.{put, lookup}
use aimesh.Runs.{
  RunRecord, Registry, Request, complete, new_registry, get, started_at, admit, admitted, prior,
  reserve, existing, existing_for_source, finish, release, count_finished, retain_finished,
}
use aimesh.Runs.Released.{IsWellFormed, release-running, release_bounds, release_forgets}
use aimesh.Runs.Reached.{
  Reached, starts, steps, reserves, admits, finishes, Reached-IsWellFormed, reserve_again,
}

abbrev report : Request
report = record {
  id = "run-1";
  tool = "review_report";
  mode = "report";
  key = "k";
  source_run_id = "";
}

abbrev remediation : Request
remediation = record {
  id = "run-2";
  tool = "review_remediate";
  mode = "apply";
  key = "";
  source_run_id = "run-1";
}

abbrev retry : Request
retry = record remediation { id = "run-3" }

abbrev soon : ℕ
soon = 5

abbrev later : ℕ
later = 10

abbrev much_later : ℕ
much_later = 3600000000011

abbrev with_report : Registry
with_report = admit soon report new_registry

abbrev with_remediation : Registry
with_remediation = admit later remediation with_report

new_id : get new_registry "run-1" ≡ none
unfolding lookup
new_id = refl

other_id : get with_report "run-2" ≡ none
unfolding lookup admit put
other_id = refl

Reached-report : Reached with_report
Reached-report = steps starts (admits soon report new_id refl)

reserved : reserve later remediation with_report ≡ admitted with_remediation
unfolding reserve existing existing_for_source lookup admit put
reserved = refl

Reached-both : Reached with_remediation
Reached-both = steps Reached-report (reserves later remediation other_id reserved)

abbrev ended : RunRecord
ended = record (started_at soon report) { state = complete; end = later }

abbrev with_ended : Registry
with_ended = finish "run-1" complete later with_report

held_report : get with_report "run-1" ≡ some (started_at soon report)
unfolding lookup admit put
held_report = refl

held_remediation : get with_remediation "run-2" ≡ some (started_at later remediation)
unfolding lookup admit put
held_remediation = refl

held_ended : get with_ended "run-1" ≡ some ended
unfolding lookup admit put finish
held_ended = refl

Reached-ended : Reached with_ended
Reached-ended = steps Reached-report (finishes "run-1" complete later refl)

Reached-IsWellFormed_example : IsWellFormed with_remediation
Reached-IsWellFormed_example = Reached-IsWellFormed Reached-both

reserve_again_example :
    reserve much_later retry with_remediation ≡ prior (started_at later remediation)
reserve_again_example =
    reserve_again later much_later remediation retry with_report with_remediation Reached-report
      other_id reserved refl refl refl

well_formed : IsWellFormed with_ended
well_formed = Reached-IsWellFormed Reached-ended

release-running_example : get (release later with_report) "run-1" ≡ some (started_at soon report)
release-running_example =
    release-running later with_report "run-1" (started_at soon report)
      (Reached-IsWellFormed Reached-report) held_report refl

release_bounds_example :
    count_finished (release later with_ended).order (release later with_ended) ≤ retain_finished
release_bounds_example = release_bounds later with_ended well_formed

release_forgets_example : get (release much_later with_ended) "run-1" ≡ none
release_forgets_example =
    release_forgets much_later with_ended "run-1" ended well_formed held_ended refl
