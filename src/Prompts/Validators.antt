-- ===== src/Prompts/Validators.antt =====
-- prompts/validators/prompt-config.validator.ts and prompts/mappers/model-provider.mapper.ts. An adapter
-- is taken to be none of the names that every JavaScript object inherits.
use arcane_backend.Common.{String, ◌==◌, List, [], ◌∷◌, Result, ok, err, includes, if◌then◌else◌}
use arcane_backend.Entities.{TemplateType, chat, str}
use arcane_backend.Exception.{
  unprocessable, template_must_be_chat, template_must_be_string, parameters_do_not_match,
}

pub data ModelProvider : Type 0 where
  openai azure_openai anthropic google deepseek xai ollama aws : ModelProvider

unfoldable pub from_adapter : String → ModelProvider
from_adapter adapter =
    if adapter == "openai"
    then openai
    else if adapter == "azure"
    then azure_openai
    else if adapter == "anthropic"
    then anthropic
    else if adapter == "google-vertex-ai"
    then google
    else if adapter == "google-ai-studio"
    then google
    else if adapter == "bedrock"
    then aws
    else if adapter == "deepseek"
    then deepseek
    else if adapter == "xai"
    then xai
    else if adapter == "ollama"
    then ollama
    else openai

unfoldable pub validate_template_type : TemplateType → String → Result (Unit {0})
validate_template_type chat type =
    if type == "chat" then ok tt else err (unprocessable template_must_be_chat)
validate_template_type str type =
    if type == "string" then ok tt else err (unprocessable template_must_be_string)

abbrev pub provider_name : ModelProvider → String
provider_name openai = "OPENAI"
provider_name azure_openai = "AZURE_OPENAI"
provider_name anthropic = "ANTHROPIC"
provider_name google = "GOOGLE"
provider_name deepseek = "DEEPSEEK"
provider_name xai = "XAI"
provider_name ollama = "OLLAMA"
provider_name aws = "AWS"

abbrev pub provider_types : ModelProvider → List String
provider_types openai = "openai" ∷ []
provider_types azure_openai = "azure_openai" ∷ []
provider_types anthropic = "anthropic" ∷ []
provider_types google = "google-vertex-ai" ∷ "google-ai-studio" ∷ []
provider_types deepseek = "deepseek" ∷ []
provider_types xai = "xai" ∷ []
provider_types ollama = "ollama" ∷ []
provider_types aws = "bedrock" ∷ []

unfoldable pub validate_invocation_parameters : ModelProvider → String → Result (Unit {0})
unfolding includes
validate_invocation_parameters model_provider type =
    if includes (provider_types model_provider) type
    then ok tt
    else err (unprocessable (parameters_do_not_match type (provider_name model_provider)))
