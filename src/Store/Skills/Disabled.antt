-- ===== src/Store/Skills/Disabled.antt =====
-- A skill that its owner has disabled reaches no runtime.
use nice_agent.Prelude.{
  String, Bool, true, false, Option, none, some, ◌≡◌, sym, List, [], ◌∷◌, Map, lookup, put,
  lookup-put, value_or, ◌||◌, pair_key, ◌==◌, eq_iff, arith, All, All-sort_by, Bool-cases,
  Option-cases, inl, inr, ap, ◌∙◌,
}
use nice_agent.Protocol.Skill.{Skill, RuntimeSkill}
use nice_agent.Store.{Store, ok}
use nice_agent.Store.Skills.{
  is_enabled_status, hidden, granted_skills, list_skills_for_user, runtime_skill, runtime_skills,
  list_runtime_skills_for_user, set_skill_enabled, with_enabled, id_before,
}

-- Every skill stands under its identifier, as `CreateHTTPSkill` and `CreateMCPSkill` write it.
abbrev pub SkillsKeyed : Map Skill → Type 0
SkillsKeyed skills =
    (key : String) (skill : Skill) → lookup key skills ≡ some skill → skill.id ≡ key

-- Whether the skill is enabled by its status.
abbrev status_of : Option Skill → Bool
status_of none = false
status_of (some skill) = is_enabled_status skill.status

module _ (skill_id : String) where
  -- The skill is another one, or it is not enabled.
  abbrev OtherOrOff : Skill → Type 0
  OtherOrOff skill = (skill.id == skill_id) ≡ true → is_enabled_status skill.status ≡ false

  abbrev pub IsOther : RuntimeSkill → Type 0
  IsOther s = (s.skill.id == skill_id) ≡ false

  off_in_put :
      (skills : Map Skill) (old : Skill)
      → SkillsKeyed skills
      → (key : String) (skill : Skill)
      → lookup key (put skill_id (with_enabled false old) skills) ≡ some skill
      → OtherOrOff skill
  off_in_put skills old keyed key skill q same = elim (Bool-cases (skill_id == key)) [
    | inl here ↦
        let found =
          sym (rw here at (lookup-put skill_id key (with_enabled false old) skills)) ∙ q in
        sym (ap status_of found)
    | inr there ↦
        let found : lookup key skills ≡ some skill =
          sym (rw there at (lookup-put skill_id key (with_enabled false old) skills)) ∙ q in
        let at_key = sym ((eq_iff skill.id skill_id).0 same) ∙ keyed key skill found in
        absurd (ground (arith, (eq_iff skill_id key).1 at_key))
  ]

  granted_skills-OtherOrOff :
      (skills : Map Skill)
      → ((key : String) (skill : Skill) → lookup key skills ≡ some skill → OtherOrOff skill)
      → (ids : List String) → All OtherOrOff (granted_skills skills ids)
  unfolding granted_skills
  granted_skills-OtherOrOff skills h [] = tt
  granted_skills-OtherOrOff skills h (id ∷ ids) =
      let rest = granted_skills-OtherOrOff skills h ids in
      elim (Option-cases (lookup id skills)) [
        | inl q ↦ rw (q, granted_skills) rest
        | inr (skill, q) ↦ elim (Bool-cases (hidden skill)) [
          | inl out ↦ rw (q, out, granted_skills) rest
          | inr shown ↦ rw (q, shown, granted_skills) (h id skill q, rest)
        ]
      ]

  runtime_skills-IsOther :
      (s : Store) (skills : List Skill)
      → All OtherOrOff skills
      → All IsOther (runtime_skills s skills)
  unfolding runtime_skills runtime_skill
  runtime_skills-IsOther s [] h = tt
  runtime_skills-IsOther s (skill ∷ skills) (p, h) =
      let rest = runtime_skills-IsOther s skills h in ground (arith, p, rest)

  listed-OtherOrOff :
      (user_id project_id : String) (s : Store)
      → ((key : String) (skill : Skill) → lookup key s.skills ≡ some skill → OtherOrOff skill)
      → All OtherOrOff (list_skills_for_user user_id project_id s)
  unfolding list_skills_for_user
  listed-OtherOrOff user_id project_id s h =
      let granted = value_or [] (lookup (pair_key user_id project_id) s.skill_grants) in
      elim (Bool-cases (user_id == "" || project_id == "")) [
        | inl missing ↦ rw (missing, list_skills_for_user) tt
        | inr given ↦
            rw (given, list_skills_for_user)
              (All-sort_by OtherOrOff id_before (granted_skills s.skills granted)
                (granted_skills-OtherOrOff s.skills h granted))
      ]

-- What `SetSkillEnabled` writes.
skills-set_skill_enabled :
    (owner skill_id : String) (enabled : Bool) (s : Store) {skill : Skill}
    → (set_skill_enabled owner skill_id enabled s).0 ≡ ok skill
    → (old : Skill) × ((set_skill_enabled owner skill_id enabled s).1.skills
        ≡ put skill_id (with_enabled enabled old) s.skills)
unfolding set_skill_enabled
skills-set_skill_enabled owner skill_id enabled s q =
    elim (Option-cases (lookup skill_id s.skills)) [
      | inl missing ↦ absurd (ground arith)
      | inr (old, found) ↦ (old, ground arith)
    ]

-- After a user has disabled a skill, no runtime gets it, whoever asks and in whatever project, if every
-- skill stands under its identifier.
pub list_runtime-set_skill_enabled :
    (owner skill_id user_id project_id : String) (s : Store) {skill : Skill}
    → SkillsKeyed s.skills
    → (set_skill_enabled owner skill_id false s).0 ≡ ok skill
    → All (IsOther skill_id) (
        list_runtime_skills_for_user user_id project_id
          (set_skill_enabled owner skill_id false s).1)
unfolding list_runtime_skills_for_user
list_runtime-set_skill_enabled owner skill_id user_id project_id s keyed q =
    let t = (set_skill_enabled owner skill_id false s).1 in
    let (old, written) = skills-set_skill_enabled owner skill_id false s q in
    runtime_skills-IsOther skill_id t (list_skills_for_user user_id project_id t) (
      listed-OtherOrOff skill_id user_id project_id t
        (rw written (off_in_put skill_id s.skills old keyed)))
