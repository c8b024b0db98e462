-- ===== src/Tools/Summary.antt =====
-- services/agent-runtime/internal/tools/tool_bridge.go: the summary that workspace.read gives of the
-- artifacts of a run. `lower` is the table of `strings.ToLower`, `format` writes a time in RFC 3339; the
-- zero time is 0.
use Prim.Native.Char.{code}
use nice_agent.Prelude.{
  ℕ, ◌+◌, ◌≤◌, String, Bool, ◌||◌, true, Option, none, some, ◌≡◌, refl, List, [], ◌∷◌, ◌++◌, ◌==◌,
  if◌then◌else◌, arith, Map, Char, length, lookup, put, trim_space, to_lower, value_or, eqb, ltb,
  has_prefix,
}
use nice_agent.Protocol.Chat.{Artifact}

pub record ArtifactBrief : Type 0 where
  pub id : String
  pub path : String
  pub name : String
  pub mime_type : String
  pub size_bytes : ℕ
  pub created_at : String

pub record ArtifactSummary : Type 0 where
  pub count : ℕ
  pub total_size_bytes : ℕ
  pub mime_type_counts : Map ℕ
  pub text_artifact_count : ℕ
  pub latest_artifact : Option ArtifactBrief
  pub artifacts : List ArtifactBrief

-- `strings.Split(s, ";")[0]`
unfoldable pub before_semicolon : String → String
before_semicolon String.[] = ""
before_semicolon (String.◌∷◌ c s) =
    let rest = before_semicolon s in if eqb (code c) 59 then "" else String.◌∷◌ c rest

module _ (lower : Char → Char) (format : ℕ → String) where
  unfoldable pub is_text_mime_type : String → Bool
  is_text_mime_type mime_type =
      let m = to_lower lower (trim_space (before_semicolon mime_type)) in
      has_prefix "text/" m
      || m == "application/json"
      || m == "application/xml"
      || m == "application/yaml"
      || m == "application/x-yaml"
      || m == "application/csv"
      || m == "application/javascript"

  unfoldable pub mime_of : Artifact → String
  mime_of a = if trim_space a.mime_type == "" then "unknown" else trim_space a.mime_type

  unfoldable pub brief_of : Artifact → ArtifactBrief
  brief_of a = record {
    id = a.id;
    path = a.path;
    name = a.name;
    mime_type = mime_of a;
    size_bytes = a.size_bytes;
    created_at = if eqb a.created_at 0 then "" else format a.created_at;
  }

  abbrev text_count : Artifact → ℕ
  text_count a = if is_text_mime_type (mime_of a) then 1 else 0

  abbrev is_latest : Option ArtifactBrief → ℕ → Artifact → Bool
  is_latest none latest_time a = true
  is_latest (some b) latest_time a = ltb latest_time a.created_at

  -- A turn of the loop, with `latestTime`.
  unfoldable pub summarize_one : Artifact → ArtifactSummary → ℕ → ArtifactSummary × ℕ
  summarize_one a s latest_time =
      let newer = is_latest s.latest_artifact latest_time a in
      (
        record s {
          total_size_bytes = s.total_size_bytes + a.size_bytes;
          mime_type_counts =
              put (mime_of a) (value_or 0 (lookup (mime_of a) s.mime_type_counts) + 1)
                s.mime_type_counts;
          text_artifact_count = s.text_artifact_count + text_count a;
          latest_artifact = if newer then some (brief_of a) else s.latest_artifact;
          artifacts = s.artifacts ++ brief_of a ∷ [];
        },
        if newer then a.created_at else latest_time,
      )

  unfoldable pub summarize_from : List Artifact → ArtifactSummary → ℕ → ArtifactSummary
  summarize_from [] s latest_time = s
  summarize_from (a ∷ artifacts) s latest_time =
      let next = summarize_one a s latest_time in summarize_from artifacts next.0 next.1

  -- The summary before the loop.
  abbrev pub start_summary : ℕ → ArtifactSummary
  start_summary n = record {
    count = n;
    total_size_bytes = 0;
    mime_type_counts = [];
    text_artifact_count = 0;
    latest_artifact = none;
    artifacts = [];
  }

  unfoldable pub summarize_artifacts : List Artifact → ArtifactSummary
  summarize_artifacts artifacts = summarize_from artifacts (start_summary (length artifacts)) 0

  text_count_le : (a : Artifact) → text_count a ≤ 1
  text_count_le a = ground arith

  -- The loop counts at most each of its artifacts as text, and never changes the number of all.
  summarize_from_counts :
      (artifacts : List Artifact) (s : ArtifactSummary) (latest_time : ℕ)
      → ((summarize_from artifacts s latest_time).count ≡ s.count)
        × ((summarize_from artifacts s latest_time).text_artifact_count
            ≤ s.text_artifact_count + length artifacts)
  unfolding summarize_from summarize_one
  summarize_from_counts [] s latest_time = (refl, omega arith)
  summarize_from_counts (a ∷ artifacts) s latest_time =
      let next = summarize_one a s latest_time in
      let rest = summarize_from_counts artifacts next.0 next.1 in
      (rest.0, omega (arith, rest.1, text_count_le a))

  -- The summary counts every artifact, and no more of them as text.
  pub summarize_artifacts_counts :
      (artifacts : List Artifact)
      → ((summarize_artifacts artifacts).count ≡ length artifacts)
        × ((summarize_artifacts artifacts).text_artifact_count ≤ length artifacts)
  unfolding summarize_artifacts
  summarize_artifacts_counts artifacts =
      let counts = summarize_from_counts artifacts (start_summary (length artifacts)) 0 in
      (counts.0, omega (arith, counts.1))
