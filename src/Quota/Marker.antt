-- ===== src/Quota/Marker.antt =====
-- The marker of a run, under which redis_limiter.go keeps what the run has reserved.
use nice_agent.Prelude.{
  ℤ, pos, String, Bool, ◌||◌, true, false, Option, none, some, List, [], ◌∷◌, ◌==◌, if◌then◌else◌,
  Char, trim_space, to_lower, eqb,
}
use Prim.Native.Char.{code}
use Prim.Native.Nat.{ℕ}

pub record RunMarker : Type 0 where
  pub active_reserved : Bool
  pub token_key : String
  pub token_reserved : ℤ

abbrev pub zero_marker : RunMarker
zero_marker = record { active_reserved = false; token_key = ""; token_reserved = pos 0 }

-- encoding/json and strconv. `unmarshal` gives what it has decoded and whether it met no error,
-- `parse_int` the number that `strconv.ParseInt` returns, with an error or without.
pub record MarkerLibrary : Type 0 where
  pub marshal : RunMarker → Option String
  pub unmarshal : String → RunMarker × Bool
  pub parse_int : String → ℤ
  pub lower : Char → Char

-- `strings.Split(s, sep)` for a separator of one character
unfoldable pub split : ℕ → String → List String
split sep String.[] = "" ∷ []
split sep (String.◌∷◌ c s) = elim (split sep s) [
  | [] ↦ []
  | part ∷ parts ↦ if eqb (code c) sep then "" ∷ part ∷ parts else String.◌∷◌ c part ∷ parts
]

-- `strings.Cut(s, sep)`; `none` where the separator is not found
unfoldable pub cut : ℕ → String → Option (String × String)
cut sep String.[] = none
cut sep (String.◌∷◌ c s) =
    let rest = cut sep s in
    if eqb (code c) sep
    then some ("", s)
    else elim rest [ none ↦ none | some (before, after) ↦ some (String.◌∷◌ c before, after) ]

module _ (lib : MarkerLibrary) where
  -- A part of the older layout.
  unfoldable pub set_part : String → String → RunMarker → RunMarker
  set_part key value marker =
      if trim_space key == "active"
      then record marker {
        active_reserved =
            trim_space value == "1" || to_lower lib.lower (trim_space value) == "true";
      }
      else if trim_space key == "token_key"
      then record marker { token_key = trim_space value }
      else if trim_space key == "token_reserved"
      then record marker { token_reserved = lib.parse_int (trim_space value) }
      else marker

  unfoldable pub read_parts : List String → RunMarker → RunMarker
  read_parts [] marker = marker
  read_parts (part ∷ parts) marker =
      read_parts parts
        (elim (cut 61 part) [ none ↦ marker | some (key, value) ↦ set_part key value marker ])

  unfoldable pub parse_run_marker : String → RunMarker
  parse_run_marker raw =
      let decoded = lib.unmarshal raw in
      if decoded.1
      then decoded.0
      else if trim_space raw == "1"
      then record zero_marker { active_reserved = true }
      else read_parts (split 59 raw) decoded.0
