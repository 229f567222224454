-- ===== src/Search.antt =====
-- apps/backend/core/sql_safety.py: a search term made safe for a `LIKE` pattern, and the pattern
-- that the list queries of the services make of it.
mod Found
mod Examples
use trustedoss_portal.Prelude.{
  ℕ, Bool, true, false, ◌||◌, List, [], ◌∷◌, ◌++◌, ◌==◌, if◌then◌else◌, Text, strip,
}

-- `[\\%_]`
pub is_wildcard : ℕ → Bool
is_wildcard c = (c == b'\\') || ((c == b'%') || (c == b'_'))

pub escape_like : Text → Text
unfolding is_wildcard
escape_like [] = []
escape_like (c ∷ s) =
    let rest = escape_like s in if is_wildcard c then b'\\' ∷ c ∷ rest else c ∷ rest

-- `f"%{escape_like(search.strip())}%"`
pub search_pattern : Text → Text
unfolding escape_like
search_pattern search = b'%' ∷ (escape_like (strip search) ++ b'%' ∷ [])
