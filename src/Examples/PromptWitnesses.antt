-- ===== src/Examples/PromptWitnesses.antt =====
-- The theorems on prompts, at a project with one prompt of two versions.
use Prim.Native.Char.{code}
use mathlib.Core.List.Memᴰ
use arcane_backend.Common.{
  ◌⊎◌, filter_by, find_first, ℕ, zero, suc, truthy, String, none, some, true, List, [], ◌∷◌, ◌≡◌,
  refl, sym, ap, ◌∙◌, Memᴰ, ok, eq_iff, Bool, false, same_number,
}
use arcane_backend.Entities.{Prompt, PromptVersion, chat, no_format}
use arcane_backend.Platform.{World, record_audit}
use arcane_backend.Examples.InMemory.{platform}
use arcane_backend.Examples.Lawful.{lawful}
use arcane_backend.Examples.Tables.{tables, world}
use arcane_backend.Prompts.Active.{LatestEnds, get_latest_version_entity_lem}
use arcane_backend.Prompts.History.{
  PromptRequest, creating, updating, removing, promoting, perform_all, perform_all-IsSound,
}
use arcane_backend.Prompts.Addition.{IsFirst, IsDraft}
use arcane_backend.Prompts.NewVersion.{create_prompt-get_latest_version_entity}
use arcane_backend.Prompts.Identifier.{TextTools, validate}
use arcane_backend.Prompts.Promotion.{promote_version-get_latest_version_entity}
use arcane_backend.Prompts.Service.{CreatePromptRequest, create_prompt}
use arcane_backend.Prompts.Sound.{IsSound}
use arcane_backend.Prompts.Validators.{
  validate_template_type, validate_invocation_parameters, from_adapter,
}
use arcane_backend.Prompts.Versions.{get_latest_version_entity, promote_version}

-- No text has outer spaces, and a number is written as "0" or "1".
abbrev digit : ℕ → String
digit zero = "0"
digit (suc n) = "1"

abbrev tools : TextTools
tools = record {
  trim = λ s. s;
  is_space = λ c. same_number (code c) b' ';
  number_to_string = digit;
}

abbrev greeting : Prompt
greeting = record {
  id = "d1";
  name = "greeting";
  description = none;
  project_id = "q";
  promoted_version_id = some "v1";
  metadata = "{}";
}

abbrev version : String → PromptVersion
version id = record {
  id = id;
  prompt_id = "d1";
  user_id = some "ann";
  version_name = some "v0";
  model_configuration_id = "m1";
  template_type = chat;
  template_format = no_format;
  content = "{}";
  created_at = 3;
}

abbrev drafting : World platform
drafting = record world {
  db = record tables {
    prompts = greeting ∷ [];
    prompt_versions = version "v1" ∷ version "v2" ∷ [];
    model_configurations = record { id = "m1"; adapter = "azure" } ∷ [];
  };
}

only_one : (x y : Prompt) → Memᴰ x (greeting ∷ []) → Memᴰ y (greeting ∷ []) → x ≡ y
only_one x y m k = Memᴰ.eq_of_singleton m ∙ sym (Memᴰ.eq_of_singleton k)

drafting-IsSound : IsSound platform drafting
drafting-IsSound = record {
  unique_ids = λ x y m k e. only_one x y m k;
  unique_versions = λ x y m k e. distinct x y m k e;
  unique_names = λ x y m k e. only_one x y m k;
  promoted = λ x v m e. (
    version "v1",
    Memᴰ.head refl,
    out (sym (ap (λ (q : Prompt). q.promoted_version_id) (Memᴰ.eq_of_singleton m)) ∙ e),
    ap (λ (q : Prompt). q.id) (sym (Memᴰ.eq_of_singleton m)),
  );
  owned = λ y m. (greeting, Memᴰ.head refl, of_greeting y m);
}
  where
    clash : {b : Bool} → b ≡ false → b ≡ true → ⊥
    clash f g = cc

    apart : ◌≡◌ {A = String} "v1" "v2" → ⊥
    apart e = clash refl ((eq_iff "v1" "v2").1 e)

    distinct :
        (x y : PromptVersion)
        → Memᴰ x drafting.db.prompt_versions
        → Memᴰ y drafting.db.prompt_versions
        → x.id ≡ y.id
        → x ≡ y
    distinct x y (Memᴰ.head a) (Memᴰ.head b) e = a ∙ sym b
    distinct x y (Memᴰ.head a) (Memᴰ.tail k) e = absurd (
        apart (
          sym (ap (λ (q : PromptVersion). q.id) a)
          ∙ e
          ∙ ap (λ (q : PromptVersion). q.id) (Memᴰ.eq_of_singleton k)))
    distinct x y (Memᴰ.tail m) (Memᴰ.head b) e = absurd (
        apart (
          sym (ap (λ (q : PromptVersion). q.id) b)
          ∙ sym e
          ∙ ap (λ (q : PromptVersion). q.id) (Memᴰ.eq_of_singleton m)))
    distinct x y (Memᴰ.tail m) (Memᴰ.tail k) e =
        Memᴰ.eq_of_singleton m ∙ sym (Memᴰ.eq_of_singleton k)

    out : {v : String} → some "v1" ≡ some v → "v1" ≡ v
    out e = cc

    of_greeting :
        (y : PromptVersion) → Memᴰ y (version "v1" ∷ version "v2" ∷ []) → "d1" ≡ y.prompt_id
    of_greeting y (Memᴰ.head e) = ap (λ (q : PromptVersion). q.prompt_id) (sym e)
    of_greeting y (Memᴰ.tail m) =
        ap (λ (q : PromptVersion). q.prompt_id) (sym (Memᴰ.eq_of_singleton m))

abbrev drafted : CreatePromptRequest
drafted = record {
  name = "farewell";
  description = some "says goodbye";
  metadata = none;
  version = record {
    model_configuration_id = "m1";
    template_type = chat;
    template_kind = "chat";
    template_format = none;
    invocation_type = "azure_openai";
    content = "{}";
  };
}

abbrev requests : List PromptRequest
requests =
    creating "q" drafted "ann" "o" 5
    ∷ updating "q" "greeting" (record { name = some "farewell"; description = none }) (some "ann")
        (some "o")
    ∷ promoting "q" "greeting" "v2" (some "ann") (some "o")
    ∷ removing "q" "greeting" none none
    ∷ []

perform_all-IsSound_example : IsSound platform (perform_all platform tools requests drafting)
perform_all-IsSound_example =
    perform_all-IsSound platform lawful tools requests drafting drafting-IsSound

abbrev promoted_world : World platform
promoted_world = (promote_version platform "q" "greeting" "v2" (some "ann") (some "o") drafting).1

promoting_v2 :
    promote_version platform "q" "greeting" "v2" (some "ann") (some "o") drafting
    ≡ (ok tt, promoted_world)
unfolding promote_version record_audit find_first
promoting_v2 = refl

v2_given : truthy (some "v2") ≡ true
v2_given = refl

promote_version-get_latest_version_entity_example :
    (v : PromptVersion) × (get_latest_version_entity platform "q" "greeting" promoted_world
      ≡ (ok v, promoted_world))
    × (v.id ≡ "v2")
promote_version-get_latest_version_entity_example =
    promote_version-get_latest_version_entity platform lawful tools "q" "greeting" "v2" (some "ann")
      (some "o") drafting drafting-IsSound v2_given promoting_v2

get_latest_version_entity_lem_example : LatestEnds platform lawful tools "q" "greeting" drafting
get_latest_version_entity_lem_example =
    get_latest_version_entity_lem platform lawful tools "q" "greeting" drafting

abbrev drafted_version : PromptVersion
drafted_version = record {
  id = "xv1v2";
  prompt_id = "xd1";
  user_id = some "ann";
  version_name = some "v0";
  model_configuration_id = "m1";
  template_type = chat;
  template_format = no_format;
  content = "{}";
  created_at = 5;
}

abbrev drafted_world : World platform
drafted_world = (create_prompt platform tools "q" drafted "ann" "o" 5 drafting).1

drafting_farewell :
    create_prompt platform tools "q" drafted "ann" "o" 5 drafting
    ≡ (ok drafted_version, drafted_world)
unfolding create_prompt validate_template_type find_first validate_invocation_parameters
    from_adapter validate record_audit filter_by
drafting_farewell = refl

create_prompt-get_latest_version_entity_example :
    IsFirst platform "q" drafting drafted_world drafted_version
    ⊎ IsDraft platform "q" drafting drafted_world drafted_version
create_prompt-get_latest_version_entity_example =
    create_prompt-get_latest_version_entity platform lawful tools "q" drafted "ann" "o" 5 drafting
      drafting-IsSound refl refl drafting_farewell
