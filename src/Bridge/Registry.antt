-- ===== src/Bridge/Registry.antt =====
-- bridge/registry.go
use relayent.Base.{
  Text, ◌==◌, ◌&&◌, not, Bool, true, List, [], ◌∷◌, Option, none, some, if◌then◌else◌,
}
use relayent.Api.{BackendInfo}
use relayent.Bolt.{text_lt}
use relayent.Adapters.Run.{Adapter}
use relayent.Adapters.Backends.{claude, codex, cursor, gemini}
use relayent.Adapters.Models.{Listing}

-- An adapter, and what its Available, LoggedIn and Models say at a moment.
pub record Backend : Type 0 where
  pub adapter : Adapter
  pub available : Bool
  pub logged_in : Bool × Bool
  pub listing : Listing

-- Registry: a map by the adapters' names. Its order is the runtime's choice, so it is any list.
abbrev pub Registry : Type 0
Registry = List Backend

-- NewRegistry, for the paths of the four tools.
abbrev pub new_registry : (Adapter → Backend) → Text → Text → Text → Text → Registry
new_registry look claude_bin codex_bin gemini_bin cursor_bin =
    look (claude claude_bin)
    ∷ look (codex codex_bin)
    ∷ look (gemini gemini_bin)
    ∷ look (cursor cursor_bin)
    ∷ []

-- Get
unfoldable pub get_backend : Registry → Text → Option Backend
get_backend [] name = none
get_backend (b ∷ r) name = if b.adapter.name == name then some b else get_backend r name

-- sort.Strings, and sort.Slice by the name; the names of a map are distinct.
unfoldable pub insert_sorted : Text → List Text → List Text
insert_sorted t [] = t ∷ []
insert_sorted t (u ∷ us) = if text_lt t u then t ∷ u ∷ us else u ∷ insert_sorted t us

-- Available
unfoldable pub available_names : Registry → List Text
unfolding insert_sorted
available_names [] = []
available_names (b ∷ r) =
    if b.available then insert_sorted b.adapter.name (available_names r) else available_names r

-- Describe
abbrev pub is_ready : Backend → Bool
is_ready b = b.available && not (b.logged_in.1 && not b.logged_in.0)

unfoldable pub describe_one : Backend → BackendInfo
describe_one b = record {
  name = b.adapter.name;
  installed = b.available;
  supported = true;
  ready = is_ready b;
  model = [];
  models = if is_ready b then b.listing.models else [];
  default_model = if is_ready b then b.listing.default_model else [];
  models_probed = is_ready b && b.listing.probed;
}

unfoldable pub insert_info : BackendInfo → List BackendInfo → List BackendInfo
insert_info i [] = i ∷ []
insert_info i (j ∷ infos) = if text_lt i.name j.name then i ∷ j ∷ infos else j ∷ insert_info i infos

unfoldable pub describe : Registry → List BackendInfo
unfolding describe_one insert_info
describe [] = []
describe (b ∷ r) = insert_info (describe_one b) (describe r)
