-- ===== src/Webhooks/Payload.antt =====
-- The texts of apps/backend/services/webhook_service.py: signatures in hexadecimal, repository URLs,
-- and the fields of a payload that name the repository. White space is that of Latin-1.
use trustedoss_portal.Prelude.{
  ℕ, ◌+◌, ◌-◌, ◌*◌, Bool, true, false, not, ◌&&◌, ◌||◌, Option, none, some, List, [], ◌∷◌, leb, ltb,
  ◌==◌, if◌then◌else◌, Text, codes, text_eq, strip, any,
}
use trustedoss_portal.Json.{Json, str, obj, Fields, get}

abbrev pub signature_prefix : Text
signature_prefix = codes "sha256="

-- `s[len(p):]`, for a text that starts with `p`
unfoldable pub after_prefix : Text → Text → Text
after_prefix [] s = s
after_prefix (p ∷ ps) [] = []
after_prefix (p ∷ ps) (c ∷ s) = after_prefix ps s

-- The value of a hexadecimal digit of either case.
unfoldable pub hex_value : ℕ → Option ℕ
hex_value c =
    if leb b'0' c && leb c b'9'
    then some (c - b'0')
    else if leb b'a' c && leb c b'f'
    then some (c - b'a' + 10)
    else if leb b'A' c && leb c b'F'
    then some (c - b'A' + 10)
    else none

-- ASCII white space, which `bytes.fromhex` skips between bytes.
unfoldable pub is_space : ℕ → Bool
is_space c = (leb 9 c && leb c 13) || (c == 32)

unfoldable pub add_byte : Option ℕ → Option ℕ → Option (List ℕ) → Option (List ℕ)
add_byte (some hi) (some lo) (some rest) = some ((hi * 16 + lo) ∷ rest)
add_byte _ _ _ = none

-- `bytes.fromhex`; none where it raises.
unfoldable pub from_hex : Text → Option (List ℕ)
unfolding hex_value is_space add_byte
from_hex [] = some []
from_hex (c ∷ []) = if is_space c then some [] else none
from_hex (c ∷ d ∷ s) = elim (is_space c) [
  | true ↦ from_hex (d ∷ s)
  | false ↦ add_byte (hex_value c) (hex_value d) (from_hex s)
]

-- `_normalize_repo_url`
abbrev pub git_suffix : Text
git_suffix = codes ".git"

-- A control byte other than the tab.
unfoldable pub is_control : ℕ → Bool
is_control c = ltb c 32 && not (c == 9)

-- `if s.endswith(".git"): s = s[:-4]`
unfoldable pub cut_suffix : Text → Text
cut_suffix [] = []
cut_suffix (c ∷ s) = if text_eq (c ∷ s) git_suffix then [] else c ∷ cut_suffix s

-- `s.rstrip("/")`
unfoldable pub push_slash : ℕ → Text → Text
push_slash c [] = if c == b'/' then [] else c ∷ []
push_slash c (d ∷ t) = c ∷ d ∷ t

unfoldable pub strip_slashes : Text → Text
unfolding push_slash
strip_slashes [] = []
strip_slashes (c ∷ s) = push_slash c (strip_slashes s)

unfoldable pub normalize_repo_url : Text → Option Text
unfolding is_control cut_suffix strip_slashes
normalize_repo_url [] = none
normalize_repo_url (c ∷ s) =
    if any is_control (strip (c ∷ s))
    then none
    else some (strip_slashes (cut_suffix (strip (c ∷ s))))

-- `for key in keys: …`: the first value that is a text and not empty.
unfoldable pub nonempty_text : Option Json → Option Text
nonempty_text (some (str (c ∷ s))) = some (c ∷ s)
nonempty_text _ = none

unfoldable pub or_else : Option Text → Option Text → Option Text
or_else (some t) rest = some t
or_else none rest = rest

unfoldable pub first_text : List Text → Fields → Option Text
unfolding nonempty_text or_else
first_text [] fields = none
first_text (key ∷ keys) fields = or_else (nonempty_text (get key fields)) (first_text keys fields)

unfoldable pub text_in : List Text → Option Json → Option Text
unfolding first_text
text_in keys (some (obj fields)) = first_text keys fields
text_in keys _ = none

abbrev pub github_keys : List Text
github_keys = codes "clone_url" ∷ codes "ssh_url" ∷ codes "git_url" ∷ codes "html_url" ∷ []

abbrev pub gitlab_project_keys : List Text
gitlab_project_keys =
    codes "git_http_url" ∷ codes "git_ssh_url" ∷ codes "url" ∷ codes "web_url" ∷ []

-- `_extract_github_repo_url`
unfoldable pub github_repo_url : Fields → Option Text
unfolding text_in
github_repo_url payload = text_in github_keys (get (codes "repository") payload)

-- `_extract_gitlab_repo_url`
unfoldable pub gitlab_repo_url : Fields → Option Text
unfolding text_in or_else
gitlab_repo_url payload =
    or_else (text_in gitlab_project_keys (get (codes "project") payload))
      (text_in (codes "git_http_url" ∷ codes "url" ∷ []) (get (codes "repository") payload))
