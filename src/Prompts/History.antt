-- ===== src/Prompts/History.antt =====
-- Sequences of requests to the services of prompts.
use arcane_backend.Common.{ℕ, String, Option, List, [], ◌∷◌}
use arcane_backend.Platform.{Platform, World}
use arcane_backend.Platform.Laws.{IsLawful}
use arcane_backend.Prompts.Sound.{IsSound}
use arcane_backend.Prompts.Updates.{
  promote_version-IsSound, update_prompt-IsSound, remove_prompt-IsSound,
}
use arcane_backend.Prompts.Creation.{create_prompt-IsSound}
use arcane_backend.Prompts.Identifier.{TextTools}
use arcane_backend.Prompts.Service.{
  CreatePromptRequest, UpdatePromptRequest, create_prompt, update_prompt, remove_prompt,
}
use arcane_backend.Prompts.Versions.{promote_version}

pub data PromptRequest : Type 0 where
  -- the organisation, the user and the time
  creating : String → CreatePromptRequest → String → String → ℕ → PromptRequest
  updating : String → String → UpdatePromptRequest → Option String → Option String → PromptRequest
  removing : String → String → Option String → Option String → PromptRequest
  promoting : String → String → String → Option String → Option String → PromptRequest

module _ (p : Platform) (t : TextTools) where
  -- What a request leaves behind, whether it is answered or refused.
  pub perform : PromptRequest → World p → World p
  perform (creating project_id body user_id organisation_id now) w =
      (create_prompt p t project_id body user_id organisation_id now w).1
  perform (updating project_id identifier dto user_id organisation_id) w =
      (update_prompt p t project_id identifier dto user_id organisation_id w).1
  perform (removing project_id identifier user_id organisation_id) w =
      (remove_prompt p t project_id identifier user_id organisation_id w).1
  perform (promoting project_id identifier version_id user_id organisation_id) w =
      (promote_version p project_id identifier version_id user_id organisation_id w).1

  pub perform_all : List PromptRequest → World p → World p
  perform_all [] w = w
  perform_all (request ∷ requests) w = perform_all requests (perform request w)

module _ (p : Platform) (laws : IsLawful p) (t : TextTools) where
  perform-IsSound :
      (request : PromptRequest) (w : World p) → IsSound p w → IsSound p (perform p t request w)
  unfolding perform
  perform-IsSound (creating project_id body user_id organisation_id now) w s =
      create_prompt-IsSound p laws t project_id body user_id organisation_id now w s
  perform-IsSound (updating project_id identifier dto user_id organisation_id) w s =
      update_prompt-IsSound p laws t project_id identifier dto user_id organisation_id w s
  perform-IsSound (removing project_id identifier user_id organisation_id) w s =
      remove_prompt-IsSound p laws t project_id identifier user_id organisation_id w s
  perform-IsSound (promoting project_id identifier version_id user_id organisation_id) w s =
      promote_version-IsSound p laws t project_id identifier version_id user_id organisation_id w s

  -- Whatever requests are made, answered or refused: if ids of prompts and of versions and, within
  -- a project, names of prompts are unique at first, every version has its prompt, and the promoted
  -- version of a prompt is one of its own, this is still so at the end.
  pub perform_all-IsSound :
      (requests : List PromptRequest) (w : World p)
      → IsSound p w
      → IsSound p (perform_all p t requests w)
  unfolding perform_all
  perform_all-IsSound [] w s = s
  perform_all-IsSound (request ∷ requests) w s =
      perform_all-IsSound requests (perform p t request w) (perform-IsSound request w s)
