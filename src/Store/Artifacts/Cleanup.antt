-- ===== src/Store/Artifacts/Cleanup.antt =====
-- The cleanup of expired artifacts.
use nice_agent.Prelude.{
  ℕ, suc, ◌≤◌, ◌<◌, String, Bool, ◌≡◌, refl, true, ◌∙◌, sym, ap, subst, inl, inr, Option, none,
  some, List, [], ◌∷◌, Map, lookup, lookup-put, keys, contains, contains-keys, leb, eqb, length,
  length-append, pos_or, ℤ, arith, eq_iff, Bool-cases, Option-cases, if◌then◌else◌, ◌||◌, ◌==◌,
}
use nice_agent.Protocol.Chat.{Artifact}
use nice_agent.Store.{Store, Result, ok, err, not_found, ok-injective}
use nice_agent.Store.Artifacts.{
  artifact_visible_at, get_artifact, stays, mark_deleted, sweep_one, sweep, insert_by_creation,
  sort_by_creation, delete_expired_artifacts,
}

-- What a client can see of an entry.
abbrev seen_at : ℕ → Option Artifact → Option Artifact
seen_at now none = none
seen_at now (some a) = if artifact_visible_at a now then some a else none

sweep_one_seen :
    (now later : ℕ) (id : String) (expired : List Artifact) (m : Map Artifact) (j : String)
    → now ≤ later
    → seen_at later (lookup j (sweep_one now id (lookup id m) expired m).1)
      ≡ seen_at later (lookup j m)
sweep_one_seen now later id expired m j le = grind (arith, lookup-put, eq_iff)

sweep_seen :
    (now later limit : ℕ) (ids : List String) (expired : List Artifact) (m : Map Artifact)
    (j : String)
    → now ≤ later
    → seen_at later (lookup j (sweep now limit ids expired m).1) ≡ seen_at later (lookup j m)
unfolding sweep
sweep_seen now later limit [] expired m j le = refl
sweep_seen now later limit (id ∷ ids) expired m j le =
    elim (Bool-cases (leb limit (length expired))) [
      | inl stop ↦ rw stop
      | inr go ↦ rw go (
          sweep_seen now later limit ids (sweep_one now id (lookup id m) expired m).0
            (sweep_one now id (lookup id m) expired m).1 j le
          ∙ sweep_one_seen now later id expired m j le)
    ]

sweep_one_grows :
    (now limit : ℕ) (id : String) (expired : List Artifact) (m : Map Artifact) (o : Option Artifact)
    → length expired < limit
    → length (sweep_one now id o expired m).0 ≤ limit
sweep_one_grows now limit id expired m none lt = omega arith
sweep_one_grows now limit id expired m (some a) lt =
    ground (arith, length-append expired (mark_deleted now a ∷ []))

sweep_limit :
    (now limit : ℕ) (ids : List String) (expired : List Artifact) (m : Map Artifact)
    → length expired ≤ limit
    → length (sweep now limit ids expired m).0 ≤ limit
unfolding sweep
sweep_limit now limit [] expired m le = le
sweep_limit now limit (id ∷ ids) expired m le = elim (Bool-cases (leb limit (length expired))) [
  | inl stop ↦ rw stop le
  | inr go ↦ rw go (
      sweep_limit now limit ids (sweep_one now id (lookup id m) expired m).0
        (sweep_one now id (lookup id m) expired m).1
        (sweep_one_grows now limit id expired m (lookup id m) (ground arith)))
]

-- Nothing is left to do for an entry.
abbrev pub settled : ℕ → Option Artifact → Bool
settled now none = true
settled now (some a) = stays now a

sweep_one_settles :
    (now : ℕ) (id : String) (expired : List Artifact) (m : Map Artifact) (j : String)
    → (settled now (lookup j m) || id == j) ≡ true
    → settled now (lookup j (sweep_one now id (lookup id m) expired m).1) ≡ true
sweep_one_settles now id expired m j h = grind (arith, lookup-put, eq_iff)

sweep_settles :
    (now limit : ℕ) (ids : List String) (expired : List Artifact) (m : Map Artifact) (j : String)
    → length (sweep now limit ids expired m).0 < limit
    → (settled now (lookup j m) || contains j ids) ≡ true
    → settled now (lookup j (sweep now limit ids expired m).1) ≡ true
unfolding sweep
sweep_settles now limit [] expired m j few h = ground arith
sweep_settles now limit (id ∷ ids) expired m j few h =
    elim (Bool-cases (leb limit (length expired))) [
      | inl stop ↦ absurd (ground arith)
      | inr go ↦ rw go (
          sweep_settles now limit ids (sweep_one now id (lookup id m) expired m).0
            (sweep_one now id (lookup id m) expired m).1 j (rw go at few)
            (ground (arith, sweep_one_settles now id expired m j)))
    ]

length-insert :
    (a : Artifact) (bs : List Artifact) → length (insert_by_creation a bs) ≡ suc (length bs)
unfolding insert_by_creation
length-insert a [] = refl
length-insert a (b ∷ bs) = ground (arith, length-insert a bs)

length-sort : (bs : List Artifact) → length (sort_by_creation bs) ≡ length bs
unfolding sort_by_creation
length-sort [] = refl
length-sort (b ∷ bs) = length-insert b (sort_by_creation bs) ∙ ap suc (length-sort bs)

-- The time that the cleanup goes by.
abbrev pub cleanup_time : ℕ → ℕ → ℕ
cleanup_time clock at = if eqb at 0 then clock else at

or_not_found : Option Artifact → Result Artifact
or_not_found none = err not_found
or_not_found (some a) = ok a

get_artifact-eq-seen :
    (now : ℕ) (id : String) (s : Store)
    → get_artifact now id s ≡ or_not_found (seen_at now (lookup id s.artifacts))
unfolding get_artifact or_not_found
get_artifact-eq-seen now id s = ground arith

-- The cleanup takes no artifact away from a reader: from its own time on, `GetArtifact` returns for
-- every identifier, found or not, what it would have returned without the cleanup.
pub get_artifact-delete_expired :
    (clock at later : ℕ) (limit : ℤ) (id : String) (s : Store)
    → cleanup_time clock at ≤ later
    → get_artifact later id (delete_expired_artifacts clock at limit s).1 ≡ get_artifact later id s
unfolding delete_expired_artifacts
get_artifact-delete_expired clock at later limit id s le =
    get_artifact-eq-seen later id (delete_expired_artifacts clock at limit s).1
    ∙ ap or_not_found (
        sweep_seen (cleanup_time clock at) later (pos_or limit 100) (keys s.artifacts) []
          s.artifacts id le)
    ∙ sym (get_artifact-eq-seen later id s)

length-taken :
    (clock at : ℕ) (limit : ℤ) (s : Store) {taken : List Artifact}
    → (delete_expired_artifacts clock at limit s).0 ≡ ok taken
    → length taken
      ≡ length
          (sweep (cleanup_time clock at) (pos_or limit 100) (keys s.artifacts) [] s.artifacts).0
unfolding delete_expired_artifacts
length-taken clock at limit s q = rw (← ok-injective q) (length-sort _)

-- A cleanup returns at most as many artifacts as its limit, which is 100 where none is given.
delete_expired_limit :
    (clock at : ℕ) (limit : ℤ) (s : Store) {taken : List Artifact}
    → (delete_expired_artifacts clock at limit s).0 ≡ ok taken
    → length taken ≤ pos_or limit 100
delete_expired_limit clock at limit s q = omega (
  arith,
  length-taken clock at limit s q,
  sweep_limit (cleanup_time clock at) (pos_or limit 100) (keys s.artifacts) [] s.artifacts,
)

-- If a cleanup returns fewer artifacts than its limit, then in the store that it leaves every
-- artifact is marked as deleted, has no expiry, or expires after the time of the cleanup.
pub delete_expired_complete :
    (clock at : ℕ) (limit : ℤ) (s : Store) {taken : List Artifact} (id : String) (a : Artifact)
    → (delete_expired_artifacts clock at limit s).0 ≡ ok taken
    → length taken < pos_or limit 100
    → lookup id (delete_expired_artifacts clock at limit s).1.artifacts ≡ some a
    → stays (cleanup_time clock at) a ≡ true
delete_expired_complete clock at limit s {taken} id a q few e =
    subst (λ o. settled (cleanup_time clock at) o ≡ true) e
      (unfold delete_expired_artifacts in
        sweep_settles (cleanup_time clock at) (pos_or limit 100) (keys s.artifacts) [] s.artifacts
          id (omega (arith, length-taken clock at limit s q)) (known s.artifacts id))
  where
    known :
        (m : Map Artifact) (j : String)
        → (settled (cleanup_time clock at) (lookup j m) || contains j (keys m)) ≡ true
    known m j = elim (Option-cases (lookup j m)) [
      | inl none_there ↦ rw none_there
      | inr (b, there) ↦ rw (contains-keys j m there) (ground arith)
    ]
